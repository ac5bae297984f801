-- ===== src/Runs/MkaRuns.antt =====
-- Runs of a session of wired/mka.rs from its start, at concrete inputs.
use shuli.Base.{
  ℕ, ◌*◌, ◌≡◌, ◌⊎◌, arith, refl, Bool, true, false, Option, none, some, List, [], ◌∷◌, ◌++◌,
  replicate,
}
use shuli.Base.Outcome.{Outcome, ok, err, panic, out_of_fuel}
use shuli.Base.Bytes.{slice_to, slice, slice_from}
use shuli.Core.Types.{ErrorKind}
use shuli.Wired.Mka.Types.{
  MacsecConfig, MkaPdu, PeerId, SakUse, mka_version, algo_agility, pae_group_addr, validate,
}
use shuli.Wired.Mka.Kdf.{
  aes_kdf, kdf_loop, cmac_aes, overwrite, kdf_message, keyid_from_ckn, derive_kek, derive_ick,
  unwrap_key, wrap_key,
}
use shuli.Wired.Mka.Session.State.{
  MkaSession, secured, has_live_peer, actor_sci, find_peer, has_sci, is_elected_key_server,
  key_id_eq, mn_is_recent, next_number, reset_mi, sak_use_matches,
}
use shuli.Wired.Mka.Pdu.Frame.{
  frame_of, build_eapol, compute_icv, parse, parse_mka, verify_icv, zip_eq,
}
use shuli.Wired.Mka.Pdu.Write.{
  write_body, basic_flags, bit, high_bits, pad4, pad_loop, sak_use_flags, sak_use_octet2,
  set_header, write_basic, write_dist_sak, write_key_id, write_peer_ids, write_peers, write_sak_use,
}
use shuli.Wired.Mka.Session.Receive.{
  EapolFrame, admit_at, all_ready, end_distribution, is_changed, is_collision, is_replay, knows_us,
  learn, make_live, named_peer, new_peer, note_ready, peer_at, received_sak, reset_for_collision,
  sak_scis, send_when_ready, serve_sak_use, start_sending, take_sak_use, touch, touched, update_at,
}
use shuli.Wired.Mka.Session.Run.{
  new, run_after, run, ensure_device, ensure_macsec, expire_and_remove, expire_peers, expired_scis,
  fresh_session, keep_fresh, note_expiry, own_pdu, own_sak_use, receive, remove_expired,
  remove_rx_scs, run_before, send_mkpdu, send_when_due, send_when_needed, serve,
}
use shuli.Wired.Mka.Session.Invariant.{IsSession}
use shuli.Wired.Mka.Session.Reachable.{Reaches, start, step, Reaches-IsSession}
use shuli.Wired.Mka.Session.Alone.{begins, IsUnauthentic, run-unheard}
use shuli.Wired.Mka.Session.Replay.{handle_pdu-again}
use shuli.Wired.Mka.Session.Silence.{IsSilent, run_after-silent}
use shuli.Wired.Macsec.Device.{
  macsec_ops, apply, clear_sas, encode_if, install_fresh_rx, install_rx_sa, install_tx_sa,
  refresh_tx, remove_rx_sc, replace_rx, replace_tx, set_tx_sa_active,
}
use shuli.Runs.Mka.{plain_crypto, plain_crypto-Documented, key16, mac_a, mac_b}
use shuli.Wired.Mka.Session.Handle.{
  accept_sak, conclude, finish, handle_frame, handle_parsed, handle_pdu, handle_peer,
  install_received, introduce, is_wanted, take_dist_sak, take_unwrapped,
}
use shuli.Wired.Mka.Session.Sak.{
  activate_device, activate_tx_sa, clear_device, confidentiality_offset, current_is_ours,
  dist_sak_supported, distribute_sak, drop_unsecure_sak, ensure_sak, forget_sak, install_current,
  install_own_sak, install_pending, install_rx_sas, install_rx_sas_for_live_peers, installed_on,
  is_gcm_aes_128, mark_installed, new_sak, peers_support_macsec, pending_on, sak_is_young,
}
use shuli.Wired.Mka.Pdu.Read.{
  align4, dist_sak_set, live_set, parse_body, potential_set, read_basic, read_cipher_suite,
  read_dist_sak, read_key_id, read_peers, read_sak_use, read_set, read_sets, read_suite_and_kn,
  sak_use_set, twelve_bits, wrapped_start,
}
use shuli.Wired.Mka.Session.Election.{
  best_candidate, best_of, better, elect_key_server, follow_best, own_candidate, ranks_before,
  role_changed,
}
use shuli.Wired.Mka.Session.Peers.{
  comes_before, contains, insert_sorted, is_fresh, live_peer_scis, ordered_live_peers,
  ordered_potential_peers, peer_id, pending_rx_scis, sort,
}
use shuli.Runs.MkaEnds.{quiet_kernel, world_at, mi_b, session_of}
use shuli.Wired.Macsec.Desired.{
  MacsecDevice, activate_in, activated, ensure_rx_sc, forget_rx_sa_pn, forget_tx_sa_pn, from_octets,
  has_an, has_key, keep_others, keyid_bytes, new_sa, opened, remove_first, sci_be, update_first,
  without_sc,
}

-- What a result holds, where it holds anything.
abbrev or_else : {A : Type 0} → A → Outcome ErrorKind A → A
or_else a (ok found) = found
or_else a (err kind) = a
or_else a panic = a
or_else a out_of_fuel = a

abbrev is_ok : {A : Type 0} → Outcome ErrorKind A → Bool
is_ok (ok found) = true
is_ok (err kind) = false
is_ok panic = false
is_ok out_of_fuel = false

or_else-ok : {A : Type 0} (a : A) (m : Outcome ErrorKind A) → is_ok m ≡ true → m ≡ ok (or_else a m)
or_else-ok a (ok found) e = refl
or_else-ok a (err kind) e = cc
or_else-ok a panic e = cc
or_else-ok a out_of_fuel e = cc

abbrev config : MacsecConfig
config = record {
  cak = key16;
  ckn = 9 ∷ 9 ∷ [];
  key_server_priority = 16;
  can_be_key_server = true;
  macsec_iface = none;
  replay_window = 0;
  encrypt = true;
}

abbrev no_session : MkaSession MacsecDevice
no_session = session_of [] mac_a []

abbrev began : Outcome ErrorKind (MkaSession MacsecDevice)
began = new plain_crypto (world_at 0) config mac_a

abbrev create : List ℕ → Bool → Outcome ErrorKind MacsecDevice
create sci encrypt = ok (record { desired = record { tx_sa = none; rx_sc = none } })

abbrev pdu_of : ℕ → List PeerId → Option SakUse → MkaPdu
pdu_of mn live_peers sak_use = record {
  basic = record {
    version = mka_version;
    priority = 255;
    key_server = false;
    macsec_desired = true;
    macsec_capability = 2;
    sci = mac_b ++ (0 ∷ 1 ∷ []);
    mi = mi_b;
    mn = mn;
    algo_agility = algo_agility;
    ckn = 9 ∷ 9 ∷ [];
  };
  live_peers = live_peers;
  potential_peers = [];
  sak_use = sak_use;
  dist_sak = none;
}

-- The first frame of the other end, which has heard this one.
abbrev first_frame : EapolFrame
first_frame = record {
  src = mac_b;
  dst = pae_group_addr;
  payload =
      frame_of (write_body (pdu_of 1 (record { mi = replicate 12 3; mn = 1 } ∷ []) none))
      ++ replicate 16 7;
}

abbrev heard : Outcome ErrorKind (MkaSession MacsecDevice × Bool)
heard =
    run (macsec_ops quiet_kernel) create plain_crypto (world_at 1) (world_at 2) (some first_frame)
      (or_else no_session began)

-- Its second frame, which says that it receives with the SAK it was given.
abbrev second_frame : EapolFrame
second_frame = record {
  src = mac_b;
  dst = pae_group_addr;
  payload =
      frame_of (
        write_body (
          pdu_of 2 (record { mi = replicate 12 3; mn = 2 } ∷ []) (
            some (record {
              latest_an = 1;
              latest_tx = false;
              latest_rx = true;
              old_an = 0;
              old_tx = false;
              old_rx = false;
              plain_tx = false;
              plain_rx = false;
              delay_protect = false;
              latest_ki = record { mi = replicate 12 3; kn = 1 };
              latest_llpn = 1;
              old_ki = record { mi = replicate 12 0; kn = 0 };
              old_llpn = 0;
            }))))
      ++ replicate 16 7;
}

abbrev no_run : MkaSession MacsecDevice × Bool
no_run = (no_session, false)

abbrev ready : Outcome ErrorKind (MkaSession MacsecDevice × Bool)
ready =
    run (macsec_ops quiet_kernel) create plain_crypto (world_at 3) (world_at 4) (some second_frame)
      (or_else no_run heard).0

-- Seven seconds without a frame.
abbrev left : Outcome ErrorKind (MkaSession MacsecDevice)
left =
    run_after (macsec_ops quiet_kernel) create plain_crypto (world_at (7 * 1000000000))
      (or_else no_run ready).0

-- The own frame, come back.
abbrev echo : EapolFrame
echo = record first_frame { src = mac_a }

abbrev alone : Outcome ErrorKind (MkaSession MacsecDevice × Bool)
alone =
    run (macsec_ops quiet_kernel) create plain_crypto (world_at 1) (world_at 2) (some echo)
      (or_else no_session began)

-- The MKPDU of the first frame alone.
abbrev first_pdu : MkaPdu
first_pdu = pdu_of 1 (record { mi = replicate 12 3; mn = 1 } ∷ []) none

abbrev noted : Outcome ErrorKind (MkaSession MacsecDevice)
noted =
    handle_pdu (macsec_ops quiet_kernel) plain_crypto (world_at 2) first_pdu
      (or_else no_session began)

-- The session begins, hears the other end, distributes a SAK and is connected; then the other end
-- falls silent. An own frame does not connect it.
scenario :
    (is_ok began ≡ true)
    × (is_ok heard ≡ true)
    × (is_ok ready ≡ true)
    × ((or_else no_run ready).1 ≡ true)
    × IsSilent (world_at (7 * 1000000000)) (or_else no_run ready).0
    × (is_ok left ≡ true)
    × (is_ok alone ≡ true)
    × ((or_else no_session began).mac ≡ mac_a)
    × (is_ok noted ≡ true)
unfolding accept_sak conclude finish handle_frame handle_parsed handle_pdu handle_peer
    install_received introduce is_wanted take_dist_sak take_unwrapped activate_device activate_tx_sa
    clear_device confidentiality_offset current_is_ours dist_sak_supported distribute_sak
    drop_unsecure_sak ensure_sak forget_sak install_current install_own_sak install_pending
    install_rx_sas install_rx_sas_for_live_peers installed_on is_gcm_aes_128 mark_installed new_sak
    peers_support_macsec pending_on sak_is_young activate_in activated apply clear_sas encode_if
    ensure_rx_sc forget_rx_sa_pn forget_tx_sa_pn from_octets has_an has_key install_fresh_rx
    install_rx_sa install_tx_sa keep_others keyid_bytes macsec_ops new_sa opened refresh_tx
    remove_first remove_rx_sc replace_rx replace_tx sci_be set_tx_sa_active update_first without_sc
    actor_sci find_peer has_live_peer has_sci is_elected_key_server key_id_eq mn_is_recent
    next_number reset_mi sak_use_matches secured admit_at all_ready end_distribution is_changed
    is_collision is_replay knows_us learn make_live named_peer new_peer note_ready peer_at
    received_sak reset_for_collision sak_scis send_when_ready serve_sak_use start_sending
    take_sak_use touch touched update_at aes_kdf cmac_aes derive_ick derive_kek kdf_loop kdf_message
    keyid_from_ckn overwrite unwrap_key wrap_key align4 dist_sak_set live_set parse_body
    potential_set read_basic read_cipher_suite read_dist_sak read_key_id read_peers read_sak_use
    read_set read_sets read_suite_and_kn sak_use_set twelve_bits wrapped_start basic_flags bit
    high_bits pad4 pad_loop sak_use_flags sak_use_octet2 set_header write_basic write_body
    write_dist_sak write_key_id write_peer_ids write_peers write_sak_use best_candidate best_of
    better elect_key_server follow_best own_candidate ranks_before role_changed build_eapol
    compute_icv frame_of parse parse_mka verify_icv zip_eq comes_before contains insert_sorted
    is_fresh live_peer_scis ordered_live_peers ordered_potential_peers peer_id pending_rx_scis sort
    ensure_device ensure_macsec expire_and_remove expire_peers expired_scis fresh_session keep_fresh
    new note_expiry own_pdu own_sak_use receive remove_expired remove_rx_scs run run_after
    run_before send_mkpdu send_when_due send_when_needed serve slice slice_from slice_to validate
scenario = (refl, refl, refl, refl, (refl, tt), refl, refl, refl, refl)

began-Reaches : Reaches (macsec_ops quiet_kernel) create plain_crypto (or_else no_session began)
began-Reaches = start (world_at 0) config mac_a (or_else-ok no_session began scenario.0)

heard-Reaches : Reaches (macsec_ops quiet_kernel) create plain_crypto (or_else no_run heard).0
heard-Reaches =
    step (world_at 1) (world_at 2) (some first_frame) (or_else no_run heard).1 began-Reaches
      (or_else-ok no_run heard scenario.1)

Reaches-IsSession_example : IsSession (or_else no_run heard).0
Reaches-IsSession_example =
    Reaches-IsSession (macsec_ops quiet_kernel) create plain_crypto (or_else no_run heard).0
      heard-Reaches

echo-IsUnauthentic :
    IsUnauthentic plain_crypto
      (or_else no_session began).mac
      (or_else no_session began).ick
      (some echo)
echo-IsUnauthentic authentic = cc (rw scenario.7 at authentic.other)

run-unheard_example : (or_else no_run alone).1 ≡ false
run-unheard_example =
    run-unheard (macsec_ops quiet_kernel) create plain_crypto plain_crypto-Documented (world_at 1)
      (world_at 2) (some echo) (or_else no_session began) (or_else no_run alone).0
      (or_else no_run alone).1
      (begins (world_at 0) config mac_a (or_else-ok no_session began scenario.0)) echo-IsUnauthentic
      (or_else-ok no_run alone scenario.6)

handle_pdu-again_example :
    (or_else no_session noted ≡ or_else no_session began)
    ⊎ (((or_else no_session noted).peers ≡ [])
        ⊎ (handle_pdu
              (macsec_ops quiet_kernel)
              plain_crypto
              (world_at 3)
              first_pdu
              (or_else no_session noted)
            ≡ ok (or_else no_session noted)))
handle_pdu-again_example =
    handle_pdu-again (macsec_ops quiet_kernel) plain_crypto (world_at 2) (world_at 3) first_pdu
      first_pdu (or_else no_session began) (or_else no_session noted)
      (or_else-ok no_session noted scenario.8) refl (omega arith)

run_after-silent_example : secured (or_else no_session left) ≡ false
run_after-silent_example =
    run_after-silent (macsec_ops quiet_kernel) create plain_crypto (world_at (7 * 1000000000))
      (or_else no_run ready).0 (or_else no_session left) scenario.4
      (or_else-ok no_session left scenario.5)
