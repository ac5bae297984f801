-- ===== src/Wired/Mka/Pdu/Write.antt =====
-- The body that `MkaPdu::build_eapol` of wired/mka.rs writes: the Basic Parameter Set, and the
-- other sets behind it.
use shuli.Base.{
  ℕ, zero, suc, ◌+◌, ◌*◌, ◌/◌, ◌%◌, Bool, true, false, Option, none, some, List, [], ◌∷◌, ◌++◌,
  length, ◌==◌, if◌then◌else◌,
}
use shuli.Base.Bytes.{be32, as_u8}
use shuli.Wired.Mka.Types.{KeyId, PeerId, MkaBasic, SakUse, DistSak, MkaPdu}

-- `u8::from`
unfoldable pub bit : Bool → ℕ
bit true = 1
bit false = 0

-- `((length >> 8) & 0x0f) as u8`
unfoldable pub high_bits : ℕ → ℕ
high_bits n = n / 256 % 16

-- `while body.len() % 4 != 0 { body.push(0); }`, of at most three rounds.
unfoldable pub pad_loop : ℕ → List ℕ → List ℕ
pad_loop zero body = body
pad_loop (suc rounds) body =
    let padded = pad_loop rounds (body ++ (0 ∷ [])) in if length body % 4 == 0 then body else padded

unfoldable pub pad4 : List ℕ → List ℕ
pad4 body = pad_loop 3 body

unfoldable pub basic_flags : MkaBasic → ℕ → ℕ
basic_flags basic basic_len =
    bit basic.key_server * 128
    + bit basic.macsec_desired * 64
    + basic.macsec_capability % 4 * 16
    + high_bits basic_len

unfoldable pub write_basic : MkaBasic → List ℕ
write_basic basic = pad4 (
    basic.version
    ∷ basic.priority
    ∷ basic_flags basic (28 + length basic.ckn)
    ∷ as_u8 (28 + length basic.ckn)
    ∷ (basic.sci ++ (basic.mi ++ (be32 basic.mn ++ (basic.algo_agility ++ basic.ckn)))))

-- The four octets before the body of a set.
unfoldable pub set_header : ℕ → ℕ → ℕ → ℕ → List ℕ
set_header type_ octet2 flags len = type_ ∷ octet2 ∷ (flags + high_bits len) ∷ as_u8 len ∷ []

unfoldable pub write_peer_ids : List PeerId → List ℕ
write_peer_ids [] = []
write_peer_ids (peer ∷ peers) = peer.mi ++ (be32 peer.mn ++ write_peer_ids peers)

-- `if !peers.is_empty()`, for the live peers and for the potential peers.
unfoldable pub write_peers : ℕ → List PeerId → List ℕ → List ℕ
write_peers type_ [] body = body
write_peers type_ (peer ∷ peers) body =
    pad4
      (body ++ (set_header type_ 0 0 (length (peer ∷ peers) * 16) ++ write_peer_ids (peer ∷ peers)))

unfoldable pub write_key_id : KeyId → List ℕ
write_key_id ki = ki.mi ++ be32 ki.kn

unfoldable pub sak_use_octet2 : SakUse → ℕ
sak_use_octet2 sak_use =
    sak_use.latest_an % 4 * 64
    + bit sak_use.latest_tx * 32
    + bit sak_use.latest_rx * 16
    + sak_use.old_an % 4 * 4
    + bit sak_use.old_tx * 2
    + bit sak_use.old_rx

unfoldable pub sak_use_flags : SakUse → ℕ
sak_use_flags sak_use =
    bit sak_use.plain_tx * 128 + bit sak_use.plain_rx * 64 + bit sak_use.delay_protect * 16

unfoldable pub write_sak_use : Option SakUse → List ℕ → List ℕ
write_sak_use none body = body
write_sak_use (some sak_use) body =
    body
    ++ (set_header 3 (sak_use_octet2 sak_use) (sak_use_flags sak_use) 40
        ++ (write_key_id sak_use.latest_ki
            ++ (be32 sak_use.latest_llpn
                ++ (write_key_id sak_use.old_ki ++ be32 sak_use.old_llpn))))

unfoldable pub write_dist_sak : Option DistSak → List ℕ → List ℕ
write_dist_sak none body = body
write_dist_sak (some dist_sak) body = pad4 (
    body
    ++ (set_header 4 (dist_sak.an % 4 * 64 + dist_sak.confidentiality_offset % 4 * 16) 0
          (4 + length dist_sak.wrapped_sak)
        ++ (be32 dist_sak.kn ++ dist_sak.wrapped_sak)))

unfoldable pub write_body : MkaPdu → List ℕ
write_body pdu = write_dist_sak pdu.dist_sak (
    write_sak_use pdu.sak_use
      (write_peers 2 pdu.potential_peers (write_peers 1 pdu.live_peers (write_basic pdu.basic))))
