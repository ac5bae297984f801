-- ===== src/Runs/MkaSessions.antt =====
-- Sessions of wired/mka.rs at concrete inputs, on devices of wired/macsec.rs.
use shuli.Base.{
  ℕ, ◌≡◌, ◌≢◌, ◌⊎◌, ◌&&◌, inl, refl, Bool, true, false, some, List, [], ◌∷◌, ◌++◌, arith, replicate,
  Memᴰ,
}
use shuli.Base.Outcome.{ok}
use shuli.Wired.Mka.Types.{pae_group_addr}
use shuli.Wired.Mka.Pdu.Frame.{build_eapol, frame_of}
use shuli.Wired.Mka.Session.State.{MkaSession, actor_sci, is_elected_key_server, sak_use_matches}
use shuli.Wired.Mka.Session.Peers.{peer_id}
use shuli.Wired.Mka.Session.Election.{Candidate, elect_key_server}
use shuli.Wired.Mka.Session.Elected.{candidates, Elects, elect_key_server-Elects}
use shuli.Wired.Mka.Session.Agreement.{IsSeenBy, elect_key_server-agree}
use shuli.Wired.Mka.Session.Sak.{distribute_sak}
use shuli.Wired.Mka.Session.Receive.{reset_for_collision}
use shuli.Wired.Mka.Session.Handle.{take_dist_sak, handle_pdu, handle_parsed, handle_frame}
use shuli.Wired.Mka.Session.Run.{own_pdu}
use shuli.Wired.Mka.Session.Sent.{IsWide, handle_frame-own_pdu}
use shuli.Wired.Mka.Session.Distribution.{SameSak, take_dist_sak-own_pdu}
use shuli.Wired.Mka.Session.Received.{IsAuthentic, handle_frame-IsAuthentic}
use shuli.Wired.Macsec.Device.{macsec_ops}
use shuli.Wired.Macsec.Accepts.{macsec_ops-CanInstall}
use shuli.Runs.Mka.{
  plain_crypto, plain_crypto-Documented, key16, mac_a, mac_b, lone_frame, lone_frame-long,
  parse-lone_frame,
}
use shuli.Runs.MkaEnds.{
  quiet_kernel, quiet_kernel-Accepts, world_at, peer_of, session_of, mi_a, first_end, second_end,
}
use shuli.Wired.Macsec.Desired.{MacsecDevice}

elect_key_server-Elects_example : Elects second_end (elect_key_server second_end)
elect_key_server-Elects_example = elect_key_server-Elects second_end

abbrev candidate_of : List ℕ → Bool → Candidate
candidate_of mac own = record { priority = 16; sci = mac ++ (0 ∷ 1 ∷ []); own = own }

seen :
    (mac mac2 : List ℕ) (k : Candidate)
    → Memᴰ k (candidate_of mac true ∷ candidate_of mac2 false ∷ [])
    → (l : Candidate) × Memᴰ l (candidate_of mac2 true ∷ candidate_of mac false ∷ [])
      × (k.priority ≡ l.priority)
      × (k.sci ≡ l.sci)
seen mac mac2 k (Memᴰ.head same) =
    (candidate_of mac false, Memᴰ.tail (Memᴰ.head refl), rw same refl, rw same refl)
seen mac mac2 k (Memᴰ.tail (Memᴰ.head same)) =
    (candidate_of mac2 true, Memᴰ.head refl, rw same refl, rw same refl)
seen mac mac2 k (Memᴰ.tail (Memᴰ.tail later)) = elim later [ ]

first_end-IsSeenBy : IsSeenBy first_end second_end
unfolding candidates actor_sci
first_end-IsSeenBy = seen mac_a mac_b

second_end-IsSeenBy : IsSeenBy second_end first_end
unfolding candidates actor_sci
second_end-IsSeenBy = seen mac_b mac_a

different_sci : actor_sci first_end ≢ actor_sci second_end
unfolding actor_sci
different_sci same = cc same

elect_key_server-agree_example :
    ((elect_key_server first_end).key_server_sci ≡ (elect_key_server second_end).key_server_sci)
    × ((elect_key_server first_end).is_key_server && (elect_key_server second_end).is_key_server
        ≡ false)
elect_key_server-agree_example =
    elect_key_server-agree first_end second_end first_end-IsSeenBy second_end-IsSeenBy different_sci

first_end-IsWide : IsWide first_end
unfolding peer_id
first_end-IsWide = record {
  mac = refl;
  ckn = omega arith;
  mi = refl;
  mn = omega arith;
  peers = (record { mi = refl; mn = omega arith }, tt);
  few = omega arith;
  lan = omega arith;
  oan = omega arith;
  lki = tt;
  oki = tt;
  dist_sak = tt;
}

handle_frame-own_pdu_example :
    (frame : List ℕ) × (build_eapol plain_crypto (own_pdu first_end) pae_group_addr mac_a key16
      ≡ ok frame)
    × (handle_frame
          (macsec_ops quiet_kernel)
          plain_crypto
          (world_at 5)
          (record { src = mac_a; dst = pae_group_addr; payload = frame ++ (0 ∷ []) })
          second_end
        ≡ handle_pdu
            (macsec_ops quiet_kernel)
            plain_crypto
            (world_at 5)
            (own_pdu first_end)
            second_end)
handle_frame-own_pdu_example =
    handle_frame-own_pdu (macsec_ops quiet_kernel) plain_crypto plain_crypto-Documented (world_at 5)
      first_end second_end 2 (0 ∷ 0 ∷ 0 ∷ 0 ∷ 1 ∷ []) (0 ∷ []) first_end-IsWide refl refl refl refl
      refl

-- The second end without the role.
abbrev listener : MkaSession MacsecDevice
listener = record second_end { is_key_server = false; key_server_sci = mac_a ++ (0 ∷ 1 ∷ []) }

listener-elected : is_elected_key_server listener (mac_a ++ (0 ∷ 1 ∷ [])) ≡ true
unfolding is_elected_key_server
listener-elected = refl

listener-lacks : sak_use_matches listener.lki (record { mi = mi_a; kn = 1 }) ≡ false
unfolding sak_use_matches
listener-lacks = refl

take_dist_sak-own_pdu_example :
    (served : MkaSession MacsecDevice) × (taken : MkaSession MacsecDevice) × (distribute_sak
        (macsec_ops quiet_kernel)
        plain_crypto
        (world_at 5)
        first_end
      ≡ ok served)
    × (take_dist_sak
          (macsec_ops quiet_kernel)
          plain_crypto
          (world_at 5)
          (own_pdu served).dist_sak
          (peer_of mi_a mac_a)
          listener
        ≡ ok taken)
    × SameSak taken served
    × (taken.sak ≡ some (replicate 16 8))
take_dist_sak-own_pdu_example =
    take_dist_sak-own_pdu (macsec_ops quiet_kernel)
      (macsec_ops-CanInstall quiet_kernel quiet_kernel-Accepts) plain_crypto plain_crypto-Documented
      (world_at 5) first_end listener (peer_of mi_a mac_a) (replicate 16 8) refl refl (inl refl)
      refl refl refl refl refl refl refl listener-elected listener-lacks

-- A participant with the MI of the lone one.
abbrev same_mi : MkaSession MacsecDevice
same_mi = session_of (replicate 12 3) mac_b []

handle_frame-lone_frame :
    handle_frame
      (macsec_ops quiet_kernel)
      plain_crypto
      (world_at 5)
      (record { src = mac_a; dst = pae_group_addr; payload = lone_frame })
      same_mi
    ≡ ok (reset_for_collision (world_at 5) same_mi)
unfolding handle_frame handle_parsed handle_pdu frame_of
handle_frame-lone_frame = rw (lone_frame-long, parse-lone_frame) refl

handle_frame-IsAuthentic_example :
    (reset_for_collision (world_at 5) same_mi ≡ same_mi)
    ⊎ IsAuthentic plain_crypto mac_b key16
        (record { src = mac_a; dst = pae_group_addr; payload = lone_frame })
handle_frame-IsAuthentic_example =
    handle_frame-IsAuthentic (macsec_ops quiet_kernel) plain_crypto (world_at 5)
      plain_crypto-Documented (record { src = mac_a; dst = pae_group_addr; payload = lone_frame })
      same_mi (reset_for_collision (world_at 5) same_mi) handle_frame-lone_frame
