-- ===== src/Wired/Mka/Session/Sent.antt =====
-- What one participant sends, another one of its connectivity association takes as it was sent.
use shuli.Base.{
  retain-All, length-retain, AllOption, ℕ, suc, ◌%◌, ◌≤◌, ◌<◌, ◌≡◌, refl, ap, arith, Bool, true,
  false, not, Option, none, some, List, [], ◌∷◌, ◌++◌, ◌==◌, All, length, length-append, map,
  retain, Bool-cases, if◌then◌else◌, bytes_eq, bytes_lt, inl, inr,
}
use shuli.Base.Outcome.{ok}
use shuli.Base.Bytes.{byte, IsU32, be16}
use shuli.Core.Types.{ErrorKind}
use shuli.Wired.Mka.Types.{KeyId, pae_group_addr}
use shuli.Wired.Mka.Kdf.{Primitives, Documented, is_aes_key}
use shuli.Wired.Mka.Pdu.Loop.{IsWirePdu}
use shuli.Wired.Mka.Pdu.Frame.{parse, build_eapol}
use shuli.Wired.Mka.Pdu.Authentic.{parse-build_eapol, parse-parse_mka}
use shuli.Wired.Mka.Session.State.{DeviceOps, World, Peer, MkaSession, actor_sci}
use shuli.Wired.Mka.Session.Peers.{
  peer_id, comes_before, insert_sorted, sort, ordered_live_peers, ordered_potential_peers,
}
use shuli.Wired.Mka.Session.Handle.{handle_pdu, handle_parsed, handle_frame}
use shuli.Wired.Mka.Session.Run.{old_ki_or_default, own_sak_use, own_pdu}
use shuli.Wired.Mka.Pdu.Wire.{IsWirePeer, IsWireKeyId, IsWireSakUse, IsWireDistSak}

-- The fields have the widths that Rust's types give them, and there are few peers.
pub record IsWide {D : Type 0} (s : MkaSession D) : Type 0 where
  pub mac : length s.mac ≡ 6
  pub ckn : length s.ckn ≤ 32
  pub mi : length s.mi ≡ 12
  pub mn : IsU32 s.mn
  pub peers : All (λ peer. IsWirePeer (peer_id peer)) s.peers
  pub few : length s.peers ≤ 255
  pub lan : s.lan < 4
  pub oan : s.oan < 4
  pub lki : AllOption IsWireKeyId s.lki
  pub oki : AllOption IsWireKeyId s.oki
  pub dist_sak : AllOption IsWireDistSak s.dist_sak

module _ (before : Peer → Peer → Bool) (P : Peer → Type 0) where
  insert_sorted-All :
      (peer : Peer) (peers : List Peer)
      → P peer
      → All P peers
      → All P (insert_sorted before peer peers)
  unfolding insert_sorted
  insert_sorted-All peer [] here h = (here, tt)
  insert_sorted-All peer (other ∷ peers) here (first, h) = elim (Bool-cases (before other peer)) [
    | inl later ↦ rw later (first, insert_sorted-All peer peers here h)
    | inr now ↦ rw now (here, (first, h))
  ]

  sort-All : (peers : List Peer) → All P peers → All P (sort before peers)
  unfolding sort
  sort-All [] h = tt
  sort-All (peer ∷ peers) (here, h) =
      insert_sorted-All peer (sort before peers) here (sort-All peers h)

map-All :
    (peers : List Peer)
    → All (λ peer. IsWirePeer (peer_id peer)) peers
    → All IsWirePeer (map peer_id peers)
map-All [] h = tt
map-All (peer ∷ peers) (here, h) = (here, map-All peers h)

length-map : (peers : List Peer) → length (map peer_id peers) ≡ length peers
length-map [] = refl
length-map (peer ∷ peers) = ap suc (length-map peers)

module _ (before : Peer → Peer → Bool) where
  length-insert_sorted :
      (peer : Peer) (peers : List Peer)
      → length (insert_sorted before peer peers) ≡ suc (length peers)
  unfolding insert_sorted
  length-insert_sorted peer [] = refl
  length-insert_sorted peer (other ∷ peers) = ground (arith, length-insert_sorted peer peers)

  length-sort : (peers : List Peer) → length (sort before peers) ≡ length peers
  unfolding sort
  length-sort [] = refl
  length-sort (peer ∷ peers) =
      omega (arith, length-insert_sorted peer (sort before peers), length-sort peers)

  -- The identifiers of the peers that pass a test, in order.
  ids-fit :
      (p : Peer → Bool) (peers : List Peer)
      → All (λ peer. IsWirePeer (peer_id peer)) peers
      → length peers ≤ 255
      → All IsWirePeer (map peer_id (sort before (retain p peers)))
        × (length (map peer_id (sort before (retain p peers))) ≤ 255)
  ids-fit p peers h few =
      let sorted = sort before (retain p peers) in
      let fits =
        sort-All before (λ peer. IsWirePeer (peer_id peer)) (retain p peers)
          (retain-All (λ peer. IsWirePeer (peer_id peer)) p peers h) in
      (
        map-All sorted fits,
        omega (arith, length-map sorted, length-sort (retain p peers), length-retain p peers),
      )

old_ki-IsWireKeyId :
    (oki : Option KeyId) → AllOption IsWireKeyId oki → IsWireKeyId (old_ki_or_default oki)
old_ki-IsWireKeyId none h = record { mi = refl; kn = omega arith }
old_ki-IsWireKeyId (some ki) h = h

if-AllOption :
    {A : Type 0} (P : A → Type 0) (test : Bool) (o : Option A)
    → AllOption P o
    → AllOption P (if test then o else none)
if-AllOption P true o h = h
if-AllOption P false o h = tt

module _ {D : Type 0} where
  own_sak_use-IsWire :
      (s : MkaSession D) (lki : Option KeyId)
      → IsWide s
      → AllOption IsWireKeyId lki
      → AllOption IsWireSakUse (elim lki [ none ↦ none | some ki ↦ some (own_sak_use s ki) ])
  unfolding own_sak_use
  own_sak_use-IsWire s none w h = tt
  own_sak_use-IsWire s (some ki) w h = record {
    latest_an = w.lan;
    old_an = w.oan;
    latest_ki = h;
    latest_llpn = omega arith;
    old_ki = old_ki-IsWireKeyId s.oki w.oki;
    old_llpn = omega arith;
  }

  own_pdu-IsWirePdu : (s : MkaSession D) → IsWide s → IsWirePdu (own_pdu s)
  unfolding own_pdu ordered_live_peers ordered_potential_peers actor_sci
  own_pdu-IsWirePdu s w =
      let (live, few_live) = ids-fit comes_before (λ peer. peer.live) s.peers w.peers w.few in
      let (potential, few_potential) =
        ids-fit (λ a b. bytes_lt b.mi a.mi) (λ peer. not peer.live) s.peers w.peers w.few in
      record {
        basic = record {
          capability = omega arith;
          sci = omega (arith, w.mac, length-append s.mac (be16 1));
          mi = w.mi;
          mn = w.mn;
          agility = refl;
          ckn = omega (arith, w.ckn);
        };
        live_peers = live;
        live_short = few_live;
        potential_peers = potential;
        potential_short = few_potential;
        sak_use = own_sak_use-IsWire s s.lki w w.lki;
        dist_sak = if-AllOption IsWireDistSak s.is_key_server s.dist_sak w.dist_sak;
      }

module _ {D : Type 0} (ops : DeviceOps D) (c : Primitives) (d : Documented c) (w : World) where
  -- Where the crate keeps what it documents, the frame that a participant sends, and whatever
  -- stands behind it, is taken by another participant with the same ICK and another address as the
  -- MKPDU that was sent.
  pub handle_frame-own_pdu :
      (a b : MkaSession D) (octet : ℕ) (octets trailer : List ℕ)
      → IsWide a
      → a.mac ≡ octet ∷ octets
      → octet % 2 ≡ 0
      → bytes_eq a.mac b.mac ≡ false
      → is_aes_key a.ick ≡ true
      → b.ick ≡ a.ick
      → (frame : List ℕ) × (build_eapol c (own_pdu a) pae_group_addr a.mac a.ick ≡ ok frame)
        × (handle_frame ops c w
              (record { src = a.mac; dst = pae_group_addr; payload = frame ++ trailer })
              b
            ≡ handle_pdu ops c w (own_pdu a) b)
  unfolding handle_frame handle_parsed
  handle_frame-own_pdu a b octet octets trailer wide mac unicast other aes same =
      let (frame, built, parsed) =
        parse-build_eapol c d (own_pdu a) pae_group_addr a.mac a.ick trailer
          (own_pdu-IsWirePdu a wide) aes in
      let payload = frame ++ trailer in
      let (long, kind, _) =
        parse-parse_mka c d payload pae_group_addr a.mac a.ick (own_pdu a) parsed in
      let first : byte {E = ErrorKind} a.mac 0 ≡ ok octet = rw mac refl in
      let even : (octet % 2 == 1) ≡ false = ground arith in
      let read : parse c payload pae_group_addr a.mac b.ick ≡ ok (some (own_pdu a)) =
        rw same parsed in
      (frame, built, rw (long, kind, first, even, other, read) refl)
