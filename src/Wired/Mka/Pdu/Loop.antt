-- ===== src/Wired/Mka/Pdu/Loop.antt =====
-- The loop of `parse_body` over the four sets that `build_eapol` writes.
use shuli.Base.{
  AllOption, ℕ, zero, suc, ◌+◌, ◌*◌, ◌%◌, ◌≤◌, ◌<◌, ◌≡◌, refl, sym, ap, ◌∙◌, Option, none, some,
  List, [], ◌∷◌, ◌++◌, arith, length, All, append-nil,
}
use shuli.Base.Outcome.{ok}
use shuli.Base.Bytes.{be32, IsU32}
use shuli.Wired.Mka.Types.{PeerId, MkaBasic, SakUse, DistSak, MkaPdu}
use shuli.Wired.Mka.Pdu.Read.{Sets, no_sets, read_sets}
use shuli.Wired.Mka.Pdu.Write.{high_bits, write_peer_ids, sak_use_octet2, sak_use_flags}
use shuli.Wired.Mka.Pdu.Segments.{segment, read_sets-segment}
use shuli.Wired.Mka.Pdu.ReadBack.{
  sak_use_octets, length-sak_use_octets, read_set-sak_use, read_set-dist_sak,
}
use shuli.Wired.Mka.Pdu.Written.{peers_octets, use_octets, dist_octets}
use shuli.Wired.Mka.Pdu.Wire.{
  IsWirePeer, IsWireSakUse, IsWireDistSak, length-write_peer_ids, read_set-live, read_set-potential,
}

-- The loop over what is written for the four sets, from the last to the first. Where a set is
-- there, it takes one round.
read_sets-dist :
    (fuel : ℕ) (dist_sak : Option DistSak) (sets : Sets)
    → 2 ≤ fuel
    → sets.dist_sak ≡ none
    → AllOption IsWireDistSak dist_sak
    → read_sets fuel (dist_octets dist_sak) sets ≡ ok (record sets { dist_sak = dist_sak })
unfolding dist_octets read_sets
read_sets-dist zero dist_sak sets enough fresh w = absurd (omega arith)
read_sets-dist (suc zero) dist_sak sets enough fresh w = absurd (omega arith)
read_sets-dist (suc (suc fuel)) none sets enough fresh w =
    ap (λ dist_sak. ok (record sets { dist_sak = dist_sak })) fresh
read_sets-dist (suc (suc fuel)) (some dist_sak) sets enough fresh w =
    let octet2 = dist_sak.an % 4 * 64 + dist_sak.confidentiality_offset % 4 * 16 in
    let octets = be32 dist_sak.kn ++ dist_sak.wrapped_sak in
    let first =
      read_sets-segment (suc fuel) 4 octet2 0 octets [] sets refl (omega (arith, w.short)) in
    let set = read_set-dist_sak dist_sak (0 + high_bits (length octets)) sets w in
    ap (λ xs. read_sets (suc (suc fuel)) xs sets) (sym (append-nil (segment 4 octet2 0 octets)))
    ∙ (first ∙ rw set refl)

flags-clear : (sak_use : SakUse) → sak_use_flags sak_use % 16 ≡ 0
unfolding sak_use_flags
flags-clear sak_use = omega arith

read_sets-use :
    (fuel : ℕ) (sak_use : Option SakUse) (dist_sak : Option DistSak) (sets : Sets)
    → 3 ≤ fuel
    → sets.sak_use ≡ none
    → sets.dist_sak ≡ none
    → AllOption IsWireSakUse sak_use
    → AllOption IsWireDistSak dist_sak
    → read_sets fuel (use_octets sak_use ++ dist_octets dist_sak) sets
      ≡ ok (record sets { sak_use = sak_use; dist_sak = dist_sak })
unfolding use_octets
read_sets-use zero sak_use dist_sak sets enough fresh fresh2 w v = absurd (omega arith)
read_sets-use (suc fuel) none dist_sak sets enough fresh fresh2 w v =
    read_sets-dist (suc fuel) dist_sak sets (omega arith) fresh2 v
    ∙ ap (λ sak_use. ok (record sets { sak_use = sak_use; dist_sak = dist_sak })) fresh
read_sets-use (suc fuel) (some sak_use) dist_sak sets enough fresh fresh2 w v =
    let octets = sak_use_octets sak_use in
    let long = length-sak_use_octets sak_use w in
    let first =
      read_sets-segment fuel 3 (sak_use_octet2 sak_use) (sak_use_flags sak_use) octets
        (dist_octets dist_sak) sets (flags-clear sak_use) (omega arith) in
    let set = read_set-sak_use sak_use sets w in
    first
    ∙ rw (long, set)
        (read_sets-dist fuel dist_sak (record sets { sak_use = some sak_use }) (omega arith) fresh2
          v)

read_sets-potential :
    (fuel : ℕ) (peers : List PeerId) (sak_use : Option SakUse) (dist_sak : Option DistSak)
    (live_peers : List PeerId)
    → 4 ≤ fuel
    → All IsWirePeer peers
    → length peers ≤ 255
    → AllOption IsWireSakUse sak_use
    → AllOption IsWireDistSak dist_sak
    → read_sets fuel
        (peers_octets 2 peers ++ (use_octets sak_use ++ dist_octets dist_sak))
        (record no_sets { live_peers = live_peers })
      ≡ ok (record {
        live_peers = live_peers;
        potential_peers = peers;
        sak_use = sak_use;
        dist_sak = dist_sak;
      })
unfolding peers_octets
read_sets-potential zero peers sak_use dist_sak live_peers enough h short w v = absurd (omega arith)
read_sets-potential (suc fuel) [] sak_use dist_sak live_peers enough h short w v =
    read_sets-use (suc fuel) sak_use dist_sak (record no_sets { live_peers = live_peers })
      (omega arith) refl refl w v
read_sets-potential (suc fuel) (peer ∷ peers) sak_use dist_sak live_peers enough h short w v =
    let octets = write_peer_ids (peer ∷ peers) in
    let sets = record no_sets { live_peers = live_peers } in
    let first =
      read_sets-segment fuel 2 0 0 octets (use_octets sak_use ++ dist_octets dist_sak) sets refl
        (omega (arith, length-write_peer_ids (peer ∷ peers) h)) in
    let set = read_set-potential 0 (0 + high_bits (length octets)) (peer ∷ peers) sets h in
    first
    ∙ rw set (
        read_sets-use fuel sak_use dist_sak (record sets { potential_peers = peer ∷ peers })
          (omega arith) refl refl w v)

pub record IsWireBasic (basic : MkaBasic) : Type 0 where
  pub capability : basic.macsec_capability < 4
  pub sci : length basic.sci ≡ 8
  pub mi : length basic.mi ≡ 12
  pub mn : IsU32 basic.mn
  pub agility : length basic.algo_agility ≡ 4
  pub ckn : length basic.ckn ≤ 4067

-- A live or a potential peer list has at most 255 peers, as its length has 12 bits.
pub record IsWirePdu (pdu : MkaPdu) : Type 0 where
  pub basic : IsWireBasic pdu.basic
  pub live_peers : All IsWirePeer pdu.live_peers
  pub live_short : length pdu.live_peers ≤ 255
  pub potential_peers : All IsWirePeer pdu.potential_peers
  pub potential_short : length pdu.potential_peers ≤ 255
  pub sak_use : AllOption IsWireSakUse pdu.sak_use
  pub dist_sak : AllOption IsWireDistSak pdu.dist_sak

read_sets-lists :
    (fuel : ℕ) (live potential : List PeerId) (sak_use : Option SakUse) (dist_sak : Option DistSak)
    → 5 ≤ fuel
    → All IsWirePeer live
    → length live ≤ 255
    → All IsWirePeer potential
    → length potential ≤ 255
    → AllOption IsWireSakUse sak_use
    → AllOption IsWireDistSak dist_sak
    → read_sets fuel
        (peers_octets 1 live
          ++ (peers_octets 2 potential ++ (use_octets sak_use ++ dist_octets dist_sak)))
        no_sets
      ≡ ok (record {
        live_peers = live;
        potential_peers = potential;
        sak_use = sak_use;
        dist_sak = dist_sak;
      })
unfolding peers_octets
read_sets-lists zero live potential sak_use dist_sak enough h short h2 short2 w v =
    absurd (omega arith)
read_sets-lists (suc fuel) [] potential sak_use dist_sak enough h short h2 short2 w v =
    read_sets-potential (suc fuel) potential sak_use dist_sak [] (omega arith) h2 short2 w v
read_sets-lists (suc fuel) (peer ∷ peers) potential sak_use dist_sak enough h short h2 short2 w v =
    let octets = write_peer_ids (peer ∷ peers) in
    let rest = peers_octets 2 potential ++ (use_octets sak_use ++ dist_octets dist_sak) in
    let first =
      read_sets-segment fuel 1 0 0 octets rest no_sets refl
        (omega (arith, length-write_peer_ids (peer ∷ peers) h)) in
    let set = read_set-live 0 (0 + high_bits (length octets)) (peer ∷ peers) no_sets h in
    first
    ∙ rw set (
        read_sets-potential fuel potential sak_use dist_sak (peer ∷ peers) (omega arith) h2 short2 w
          v)

pub read_sets-live :
    (fuel : ℕ) (pdu : MkaPdu)
    → 5 ≤ fuel
    → IsWirePdu pdu
    → read_sets fuel
        (peers_octets 1 pdu.live_peers
          ++ (peers_octets 2 pdu.potential_peers
              ++ (use_octets pdu.sak_use ++ dist_octets pdu.dist_sak)))
        no_sets
      ≡ ok (record {
        live_peers = pdu.live_peers;
        potential_peers = pdu.potential_peers;
        sak_use = pdu.sak_use;
        dist_sak = pdu.dist_sak;
      })
read_sets-live fuel pdu enough w =
    read_sets-lists fuel pdu.live_peers pdu.potential_peers pdu.sak_use pdu.dist_sak enough
      w.live_peers w.live_short w.potential_peers w.potential_short w.sak_use w.dist_sak
