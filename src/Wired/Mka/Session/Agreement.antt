-- ===== src/Wired/Mka/Session/Agreement.antt =====
-- Participants that see the same candidates elect the same Key Server.
use shuli.Base.{
  ◌≡◌, ◌≢◌, refl, sym, ap, ◌∙◌, inl, inr, Bool, true, false, List, [], ◌∷◌, ◌&&◌, ◌⊎◌,
  if◌then◌else◌, All, Memᴰ, map, Bool-cases,
}
use shuli.Wired.Mka.Session.State.{Peer, MkaSession, actor_sci}
use shuli.Wired.Mka.Session.Election.{Candidate, ranks_before, peer_candidate, elect_key_server}
use shuli.Wired.Mka.Session.Elected.{
  Leads, nobody, somebody, candidates, ranks_before-connected, elect_key_server-Elects,
}

All-Memᴰ {ℓ} : {A : Type ℓ} (P : A → Type 0) (xs : List A) {a : A} → All P xs → Memᴰ a xs → P a
All-Memᴰ P [] h m = elim m [ ]
All-Memᴰ P (x ∷ xs) (p, h) (Memᴰ.head same) = rw same p
All-Memᴰ P (x ∷ xs) (p, h) (Memᴰ.tail later) = All-Memᴰ P xs h later

not-Memᴰ-nil {ℓ} : {A : Type ℓ} {a : A} → ¬ Memᴰ a []
not-Memᴰ-nil m = elim m [ ]

-- A candidate that is a peer is not this participant.
Memᴰ-peer_candidate :
    (peers : List Peer) (k : Candidate) → Memᴰ k (map peer_candidate peers) → k.own ≡ false
Memᴰ-peer_candidate [] k m = elim m [ ]
Memᴰ-peer_candidate (peer ∷ peers) k (Memᴰ.head same) = rw same refl
Memᴰ-peer_candidate (peer ∷ peers) k (Memᴰ.tail later) = Memᴰ-peer_candidate peers k later

if-Memᴰ :
    (can : Bool) (own : Candidate) (peers : List Candidate) (k : Candidate)
    → Memᴰ k (if can then own ∷ peers else peers)
    → ((can ≡ true) × (k ≡ own)) ⊎ Memᴰ k peers
if-Memᴰ true own peers k (Memᴰ.head same) = inl (refl, same)
if-Memᴰ true own peers k (Memᴰ.tail later) = inr later
if-Memᴰ false own peers k member = inr member

module _ {D : Type 0} where
  own_candidate-sci :
      (s : MkaSession D) (k : Candidate)
      → Memᴰ k (candidates s)
      → k.own ≡ true
      → (s.can_be_key_server ≡ true) × (k.sci ≡ actor_sci s)
  unfolding candidates
  own_candidate-sci s k member own = elim (if-Memᴰ s.can_be_key_server _ _ k member) [
    | inl (can, same) ↦ (can, ap (λ l. l.sci) same)
    | inr later ↦ cc (Memᴰ-peer_candidate _ k later)
  ]

  -- A participant that elects itself may be Key Server, and elects its own SCI.
  pub elect_key_server-own :
      (s : MkaSession D)
      → (elect_key_server s).is_key_server ≡ true
      → (s.can_be_key_server ≡ true) × ((elect_key_server s).key_server_sci ≡ actor_sci s)
  elect_key_server-own s serves = elim (elect_key_server-Elects s) [
    | nobody empty role sci ↦ cc
    | somebody best member leads role sci ↦
        let (can, own) = own_candidate-sci s best member (sym role ∙ serves) in (can, sci ∙ own)
  ]

  -- Each candidate that one participant sees, the other sees with the same priority and SCI.
  abbrev pub IsSeenBy : MkaSession D → MkaSession D → Type 0
  IsSeenBy a b =
      (k : Candidate)
      → Memᴰ k (candidates a)
      → (l : Candidate) × Memᴰ l (candidates b) × (k.priority ≡ l.priority) × (k.sci ≡ l.sci)

  -- What leads the one participant's candidates ranks behind no candidate of the other.
  IsSeenBy-not_before :
      (a b : MkaSession D) (best other : Candidate)
      → IsSeenBy a b
      → Memᴰ best (candidates a)
      → Leads other (candidates b)
      → ranks_before best other ≡ false
  unfolding ranks_before
  IsSeenBy-not_before a b best other seen member leads =
      let (same, found, priority, sci) = seen best member in
      rw (priority, sci) (All-Memᴰ (λ k. ranks_before k other ≡ false) (candidates b) leads found)

  not_seen-nil :
      (a b : MkaSession D) (best : Candidate)
      → IsSeenBy a b
      → Memᴰ best (candidates a)
      → ¬ (candidates b ≡ [])
  not_seen-nil a b best seen member empty =
      let (same, found, _, _) = seen best member in not-Memᴰ-nil (rw empty at found)

  elect_key_server-sci :
      (a b : MkaSession D)
      → IsSeenBy a b
      → IsSeenBy b a
      → (elect_key_server a).key_server_sci ≡ (elect_key_server b).key_server_sci
  elect_key_server-sci a b ab ba = elim (elect_key_server-Elects a) [
    | nobody empty role sci ↦ elim (elect_key_server-Elects b) [
      | nobody empty2 role2 sci2 ↦ sci ∙ sym sci2
      | somebody best member leads role2 sci2 ↦ absurd (not_seen-nil b a best ba member empty)
    ]
    | somebody best member leads role sci ↦ elim (elect_key_server-Elects b) [
      | nobody empty role2 sci2 ↦ absurd (not_seen-nil a b best ab member empty)
      | somebody best2 member2 leads2 role2 sci2 ↦
          let (_, same) =
            ranks_before-connected best best2 (IsSeenBy-not_before a b best best2 ab member leads2)
              (IsSeenBy-not_before b a best2 best ba member2 leads) in
          sci ∙ (same ∙ sym sci2)
    ]
  ]

  -- Two participants with different SCIs that see the same candidates, by priority and SCI, elect
  -- the same Key Server, and at most one of them is it.
  pub elect_key_server-agree :
      (a b : MkaSession D)
      → IsSeenBy a b
      → IsSeenBy b a
      → actor_sci a ≢ actor_sci b
      → ((elect_key_server a).key_server_sci ≡ (elect_key_server b).key_server_sci)
        × ((elect_key_server a).is_key_server && (elect_key_server b).is_key_server ≡ false)
  elect_key_server-agree a b ab ba different =
      let same = elect_key_server-sci a b ab ba in
      (
        same,
        elim (Bool-cases (elect_key_server a).is_key_server) [
          | inr not_a ↦ rw not_a refl
          | inl is_a ↦ elim (Bool-cases (elect_key_server b).is_key_server) [
            | inr not_b ↦ rw (is_a, not_b) refl
            | inl is_b ↦
                let (_, own_a) = elect_key_server-own a is_a in
                let (_, own_b) = elect_key_server-own b is_b in
                absurd (different (sym own_a ∙ (same ∙ own_b)))
          ]
        ],
      )
