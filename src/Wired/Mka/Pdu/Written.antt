-- ===== src/Wired/Mka/Pdu/Written.antt =====
-- Each optional set is written as one segment, or not at all.
use shuli.Base.{
  AllOption, ℕ, ◌+◌, ◌*◌, ◌%◌, ◌≤◌, ◌≡◌, refl, sym, ap, Option, none, some, List, [], ◌∷◌, ◌++◌,
  arith, length, All, append-nil,
}
use shuli.Base.Bytes.{be32}
use shuli.Wired.Mka.Types.{PeerId, SakUse, DistSak}
use shuli.Wired.Mka.Pdu.Write.{
  set_header, write_peer_ids, write_peers, sak_use_octet2, sak_use_flags, write_sak_use,
  write_dist_sak,
}
use shuli.Wired.Mka.Pdu.Segments.{segment, length-segment, pad4-segment}
use shuli.Wired.Mka.Pdu.ReadBack.{sak_use_octets, length-sak_use_octets}
use shuli.Wired.Mka.Pdu.Wire.{IsWirePeer, IsWireSakUse, IsWireDistSak, length-write_peer_ids}

unfoldable pub peers_octets : ℕ → List PeerId → List ℕ
peers_octets type_ [] = []
peers_octets type_ (peer ∷ peers) = segment type_ 0 0 (write_peer_ids (peer ∷ peers))

unfoldable pub use_octets : Option SakUse → List ℕ
use_octets none = []
use_octets (some sak_use) =
    segment 3 (sak_use_octet2 sak_use) (sak_use_flags sak_use) (sak_use_octets sak_use)

unfoldable pub dist_octets : Option DistSak → List ℕ
dist_octets none = []
dist_octets (some dist_sak) =
    segment 4 (dist_sak.an % 4 * 64 + dist_sak.confidentiality_offset % 4 * 16) 0
      (be32 dist_sak.kn ++ dist_sak.wrapped_sak)

pub write_peers-octets :
    (type_ : ℕ) (peers : List PeerId) (body : List ℕ)
    → All IsWirePeer peers
    → length body % 4 ≡ 0
    → write_peers type_ peers body ≡ body ++ peers_octets type_ peers
unfolding write_peers peers_octets
write_peers-octets type_ [] body h whole = sym (append-nil body)
write_peers-octets type_ (peer ∷ peers) body h whole =
    rw (sym (length-write_peer_ids (peer ∷ peers) h))
      (pad4-segment body type_ 0 0 (write_peer_ids (peer ∷ peers)) whole)

pub length-peers_octets :
    (type_ : ℕ) (peers : List PeerId)
    → All IsWirePeer peers
    → (length (peers_octets type_ peers) % 4 ≡ 0)
      × (length (peers_octets type_ peers) ≤ 7 + length peers * 16)
unfolding peers_octets
length-peers_octets type_ [] h = (refl, omega arith)
length-peers_octets type_ (peer ∷ peers) h =
    let (whole, long) = length-segment type_ 0 0 (write_peer_ids (peer ∷ peers)) in
    (whole, omega (arith, length-write_peer_ids (peer ∷ peers) h))

pub write_sak_use-octets :
    (sak_use : Option SakUse) (body : List ℕ)
    → AllOption IsWireSakUse sak_use
    → write_sak_use sak_use body ≡ body ++ use_octets sak_use
unfolding write_sak_use use_octets segment sak_use_octets
write_sak_use-octets none body w = sym (append-nil body)
write_sak_use-octets (some sak_use) body w =
    let long = length-sak_use_octets sak_use w in
    let header = set_header 3 (sak_use_octet2 sak_use) (sak_use_flags sak_use) 40 in
    rw long (ap (λ xs. body ++ (header ++ xs)) (sym (append-nil (sak_use_octets sak_use))))

pub length-use_octets :
    (sak_use : Option SakUse)
    → AllOption IsWireSakUse sak_use
    → (length (use_octets sak_use) % 4 ≡ 0) × (length (use_octets sak_use) ≤ 47)
unfolding use_octets
length-use_octets none w = (refl, omega arith)
length-use_octets (some sak_use) w =
    let octets = sak_use_octets sak_use in
    let (whole, long) = length-segment 3 (sak_use_octet2 sak_use) (sak_use_flags sak_use) octets in
    (whole, omega (arith, length-sak_use_octets sak_use w))

pub write_dist_sak-octets :
    (dist_sak : Option DistSak) (body : List ℕ)
    → length body % 4 ≡ 0
    → write_dist_sak dist_sak body ≡ body ++ dist_octets dist_sak
unfolding write_dist_sak dist_octets
write_dist_sak-octets none body whole = sym (append-nil body)
write_dist_sak-octets (some dist_sak) body whole =
    let four : 4 + length dist_sak.wrapped_sak ≡ length (be32 dist_sak.kn ++ dist_sak.wrapped_sak) =
      omega arith in
    rw four (
      pad4-segment body 4 (dist_sak.an % 4 * 64 + dist_sak.confidentiality_offset % 4 * 16) 0
        (be32 dist_sak.kn ++ dist_sak.wrapped_sak) whole)

pub length-dist_octets :
    (dist_sak : Option DistSak)
    → AllOption IsWireDistSak dist_sak
    → (length (dist_octets dist_sak) % 4 ≡ 0) × (length (dist_octets dist_sak) ≤ 42)
unfolding dist_octets
length-dist_octets none w = (refl, omega arith)
length-dist_octets (some dist_sak) w =
    let (whole, long) =
      length-segment 4 (dist_sak.an % 4 * 64 + dist_sak.confidentiality_offset % 4 * 16) 0
        (be32 dist_sak.kn ++ dist_sak.wrapped_sak) in
    (whole, omega (arith, w.short))
