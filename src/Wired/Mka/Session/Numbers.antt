-- ===== src/Wired/Mka/Session/Numbers.antt =====
-- The message number that a session of wired/mka.rs keeps of a sender, and what leaves it alone.
use shuli.Base.{
  ℕ, zero, suc, ◌≡◌, refl, Option, none, some, List, [], ◌∷◌, ◌++◌, map, leb, if◌then◌else◌, length,
  bytes_eq, bytes_eq_refl, Bool-cases, inl, inr, Option-cases,
}
use shuli.Base.Outcome.{ok}
use shuli.Base.Vec.{position}
use shuli.Wired.Mka.Types.{MkaBasic}
use shuli.Wired.Mka.Session.State.{Peer, MkaSession, find_peer}
use shuli.Wired.Mka.Session.Receive.{peer_at, update_at, admit_at, is_replay, touched, new_peer}

-- The number kept of the first peer with an MI, which is the one that `find_peer` finds.
abbrev pub last_mn : List ℕ → List Peer → Option ℕ
last_mn mi [] = none
last_mn mi (peer ∷ peers) =
    let later = last_mn mi peers in if bytes_eq peer.mi mi then some peer.mn else later

-- An update that leaves a peer's MI and number alone.
abbrev pub Numbers : (Peer → Peer) → Type 0
Numbers f = (peer : Peer) → ((f peer).mi ≡ peer.mi) × ((f peer).mn ≡ peer.mn)

pub last_mn-map :
    (f : Peer → Peer)
    → Numbers f
    → (mi : List ℕ) (peers : List Peer) → last_mn mi (map f peers) ≡ last_mn mi peers
last_mn-map f keeps mi [] = refl
last_mn-map f keeps mi (peer ∷ peers) =
    let (same_mi, same_mn) = keeps peer in rw (same_mi, same_mn, last_mn-map f keeps mi peers) refl

pub last_mn-update_at :
    (f : Peer → Peer)
    → Numbers f
    → (mi : List ℕ) (idx : ℕ) (peers : List Peer)
    → last_mn mi (update_at idx f peers) ≡ last_mn mi peers
unfolding update_at
last_mn-update_at f keeps mi idx [] = refl
last_mn-update_at f keeps mi zero (peer ∷ peers) =
    let (same_mi, same_mn) = keeps peer in rw (same_mi, same_mn) refl
last_mn-update_at f keeps mi (suc idx) (peer ∷ peers) =
    rw (last_mn-update_at f keeps mi idx peers) refl

pub last_mn-append :
    (mi : List ℕ) (peers others : List Peer) {n : ℕ}
    → last_mn mi peers ≡ some n
    → last_mn mi (peers ++ others) ≡ some n
last_mn-append mi [] others e = cc
last_mn-append mi (peer ∷ peers) others e = elim (Bool-cases (bytes_eq peer.mi mi)) [
  | inl same ↦ rw same (rw same at e)
  | inr another ↦ rw another (last_mn-append mi peers others (rw another at e))
]

-- The peer that is found has the number.
peer_at-last_mn :
    (mi : List ℕ) (peers : List Peer) {n : ℕ}
    → last_mn mi peers ≡ some n
    → (idx : ℕ) × (peer : Peer) × (position (λ p. bytes_eq p.mi mi) peers ≡ some idx)
      × (peer_at peers idx ≡ ok peer)
      × (peer.mn ≡ n)
unfolding peer_at
peer_at-last_mn mi [] e = cc
peer_at-last_mn mi (peer ∷ peers) e = elim (Bool-cases (bytes_eq peer.mi mi)) [
  | inl same ↦ (0, peer, rw same refl, refl, cc (rw same at e))
  | inr another ↦
      let (idx, found, at_idx, is_there, number) = peer_at-last_mn mi peers (rw another at e) in
      (suc idx, found, rw (another, at_idx) refl, is_there, number)
]

pub is_replay-last_mn :
    {D : Type 0} (basic : MkaBasic) (s : MkaSession D) {n : ℕ}
    → last_mn basic.mi s.peers ≡ some n
    → is_replay (find_peer s basic.mi) basic s ≡ ok (leb basic.mn n)
unfolding is_replay find_peer
is_replay-last_mn basic s e =
    let (idx, peer, at_idx, is_there, number) = peer_at-last_mn basic.mi s.peers e in
    rw (at_idx, is_there, number) refl

-- The sender gets the number of its MKPDU.
last_mn-touched :
    (now : ℕ) (basic : MkaBasic) (peers : List Peer) {idx : ℕ}
    → position (λ p. bytes_eq p.mi basic.mi) peers ≡ some idx
    → last_mn basic.mi (update_at idx (touched now basic) peers) ≡ some basic.mn
unfolding update_at touched
last_mn-touched now basic [] e = cc
last_mn-touched now basic (peer ∷ peers) {idx} e = elim (Bool-cases (bytes_eq peer.mi basic.mi)) [
  | inl same ↦ let first : idx ≡ zero = cc (rw same at e) in rw (first, same) refl
  | inr another ↦ elim (Option-cases (position (λ p. bytes_eq p.mi basic.mi) peers)) [
    | inl nothing ↦ cc (rw (another, nothing) at e)
    | inr (j, found) ↦
        let later : idx ≡ suc j = cc (rw (another, found) at e) in
        rw (later, another) (last_mn-touched now basic peers found)
  ]
]

position-pushed :
    (now : ℕ) (basic : MkaBasic) (peers : List Peer)
    → position (λ p. bytes_eq p.mi basic.mi) peers ≡ none
    → position (λ p. bytes_eq p.mi basic.mi) (peers ++ (new_peer now basic ∷ []))
      ≡ some (length peers)
unfolding new_peer
position-pushed now basic [] e = rw (bytes_eq_refl basic.mi) refl
position-pushed now basic (peer ∷ peers) e = elim (Bool-cases (bytes_eq peer.mi basic.mi)) [
  | inl same ↦ cc (rw same at e)
  | inr another ↦ elim (Option-cases (position (λ p. bytes_eq p.mi basic.mi) peers)) [
    | inl nothing ↦ rw (another, position-pushed now basic peers nothing) refl
    | inr (j, found) ↦ cc (rw (another, found) at e)
  ]
]

pub last_mn-admitted :
    {D : Type 0} (now : ℕ) (basic : MkaBasic) (s : MkaSession D)
    → last_mn basic.mi (
        update_at
          (admit_at (find_peer s basic.mi) now basic s).0
          (touched now basic)
          (admit_at (find_peer s basic.mi) now basic s).1.peers)
      ≡ some basic.mn
unfolding admit_at find_peer
last_mn-admitted now basic s =
    elim (Option-cases (position (λ p. bytes_eq p.mi basic.mi) s.peers)) [
      | inl nothing ↦ rw nothing (
          last_mn-touched now basic (s.peers ++ (new_peer now basic ∷ []))
            (position-pushed now basic s.peers nothing))
      | inr (idx, found) ↦ rw found (last_mn-touched now basic s.peers found)
    ]
