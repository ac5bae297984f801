-- ===== src/Wired/Mka/Pdu/Wire.antt =====
-- What fits the wire format of `MkaPdu` of wired/mka.rs, and its peer lists read back.
use shuli.Base.{
  ℕ, ◌*◌, ◌/◌, ◌%◌, ◌<◌, ◌≡◌, refl, sym, none, List, [], ◌∷◌, ◌++◌, arith, length, drop, All,
  length-append, drop-length_append, append_assoc, true, false, ◌==◌, ltb,
}
use shuli.Base.Outcome.{ok}
use shuli.Base.Bytes.{slice_to, slice_to-append, be32, IsU32}
use shuli.Base.Fields.{u32_at-append}
use shuli.Core.Types.{ErrorKind}
use shuli.Wired.Mka.Types.{KeyId, PeerId, SakUse, DistSak}
use shuli.Wired.Mka.Pdu.Read.{Sets, read_peers, live_set, potential_set, read_set}
use shuli.Wired.Mka.Pdu.Write.{write_peer_ids}

pub record IsWirePeer (peer : PeerId) : Type 0 where
  pub mi : length peer.mi ≡ 12
  pub mn : IsU32 peer.mn

pub record IsWireKeyId (ki : KeyId) : Type 0 where
  pub mi : length ki.mi ≡ 12
  pub kn : IsU32 ki.kn

pub record IsWireSakUse (sak_use : SakUse) : Type 0 where
  pub latest_an : sak_use.latest_an < 4
  pub old_an : sak_use.old_an < 4
  pub latest_ki : IsWireKeyId sak_use.latest_ki
  pub latest_llpn : IsU32 sak_use.latest_llpn
  pub old_ki : IsWireKeyId sak_use.old_ki
  pub old_llpn : IsU32 sak_use.old_llpn

-- The wrapped key is shorter than 32 octets and comes without a cipher suite: `build_eapol` writes
-- no suite, and `parse_body` takes the octets from 4 to 12 of a longer body for one.
pub record IsWireDistSak (dist_sak : DistSak) : Type 0 where
  pub an : dist_sak.an < 4
  pub offset : dist_sak.confidentiality_offset < 4
  pub kn : IsU32 dist_sak.kn
  pub suite : dist_sak.cipher_suite ≡ none
  pub short : length dist_sak.wrapped_sak < 32

pub length-write_peer_ids :
    (peers : List PeerId) → All IsWirePeer peers → length (write_peer_ids peers) ≡ length peers * 16
unfolding write_peer_ids
length-write_peer_ids [] h = refl
length-write_peer_ids (peer ∷ peers) (w, h) = omega (
  arith,
  w.mi,
  length-append peer.mi (be32 peer.mn ++ write_peer_ids peers),
  length-write_peer_ids peers h,
)

read_peers-write_peer_ids :
    (peers : List PeerId)
    → All IsWirePeer peers
    → read_peers (length peers) (write_peer_ids peers) ≡ ok peers
unfolding read_peers write_peer_ids
read_peers-write_peer_ids [] h = refl
read_peers-write_peer_ids (peer ∷ peers) (w, h) =
    let chunk = peer.mi ++ be32 peer.mn in
    let rest = write_peer_ids peers in
    let joined : peer.mi ++ (be32 peer.mn ++ rest) ≡ chunk ++ rest =
      sym (append_assoc peer.mi (be32 peer.mn) rest) in
    let sixteen : length chunk ≡ 16 = omega (arith, w.mi, length-append peer.mi (be32 peer.mn)) in
    let long : ltb (length (chunk ++ rest)) 16 ≡ false = ground (arith, length-append chunk rest) in
    let cut : slice_to {E = ErrorKind} (chunk ++ rest) 16 ≡ ok chunk =
      rw (sym sixteen) (slice_to-append chunk rest) in
    let mi : slice_to {E = ErrorKind} chunk 12 ≡ ok peer.mi =
      rw (sym w.mi) (slice_to-append peer.mi (be32 peer.mn)) in
    let mn = u32_at-append {E = ErrorKind} peer.mi peer.mn [] 12 w.mn (sym w.mi) in
    let left : drop 16 (chunk ++ rest) ≡ rest = rw (sym sixteen) (drop-length_append chunk rest) in
    rw (joined, long, cut, mi, mn, left, read_peers-write_peer_ids peers h) refl

-- The two lists of peers, types 1 and 2.
pub read_set-live :
    (octet2 octet3 : ℕ) (peers : List PeerId) (sets : Sets)
    → All IsWirePeer peers
    → read_set 1 octet2 octet3 (write_peer_ids peers) sets ≡ ok (record sets { live_peers = peers })
unfolding read_set live_set
read_set-live octet2 octet3 peers sets h =
    let long = length-write_peer_ids peers h in
    let whole : (length (write_peer_ids peers) % 16 == 0) ≡ true = ground arith in
    let count : length (write_peer_ids peers) / 16 ≡ length peers = omega arith in
    rw (whole, count, read_peers-write_peer_ids peers h) refl

pub read_set-potential :
    (octet2 octet3 : ℕ) (peers : List PeerId) (sets : Sets)
    → All IsWirePeer peers
    → read_set 2 octet2 octet3 (write_peer_ids peers) sets
      ≡ ok (record sets { potential_peers = peers })
unfolding read_set potential_set
read_set-potential octet2 octet3 peers sets h =
    let long = length-write_peer_ids peers h in
    let whole : (length (write_peer_ids peers) % 16 == 0) ≡ true = ground arith in
    let count : length (write_peer_ids peers) / 16 ≡ length peers = omega arith in
    rw (whole, count, read_peers-write_peer_ids peers h) refl
