-- ===== src/Wired/Mka/Session/Elected.antt =====
-- Whom `elect_key_server` elects, and that participants agree on it.
use shuli.Base.{
  ◌≡◌, refl, ◌∙◌, ◌⊎◌, inl, inr, arith, Bool, true, false, none, some, List, [], ◌∷◌, ◌&&◌, All,
  Memᴰ, map, retain, Bool-cases, bytes_lt-irreflexive, bytes_lt-asymmetric, bytes_lt-transitive,
  bytes_lt-connected, if◌then◌else◌,
}
use shuli.Wired.Mka.Types.{no_sci}
use shuli.Wired.Mka.Session.State.{Peer, MkaSession, actor_sci}
use shuli.Wired.Mka.Session.Election.{
  Candidate, ranks_before, peer_candidate, better, best_of, own_candidate, best_candidate,
  follow_best, role_changed, elect_key_server,
}

ranks_before-asymmetric : (a b : Candidate) → ranks_before a b ≡ true → ranks_before b a ≡ false
unfolding ranks_before
ranks_before-asymmetric a b h = ground (arith, bytes_lt-asymmetric a.sci b.sci)

-- If `b` does not rank before `a`, nor `c` before `b`, then `c` does not rank before `a`.
not_before-transitive :
    (a b d : Candidate)
    → ranks_before b a ≡ false
    → ranks_before d b ≡ false
    → ranks_before d a ≡ false
unfolding ranks_before
not_before-transitive a b d h k =
    ground (arith, bytes_lt-transitive d.sci a.sci b.sci, bytes_lt-connected a.sci b.sci)

-- Candidates neither of which ranks before the other have one priority and one SCI.
pub ranks_before-connected :
    (a b : Candidate)
    → ranks_before a b ≡ false
    → ranks_before b a ≡ false
    → (a.priority ≡ b.priority) × (a.sci ≡ b.sci)
unfolding ranks_before
ranks_before-connected a b h k = ground (arith, bytes_lt-connected a.sci b.sci)

-- No candidate of the list ranks before `best`.
abbrev pub Leads : Candidate → List Candidate → Type 0
Leads best candidates = All (λ candidate. ranks_before candidate best ≡ false) candidates

ranks_before-irreflexive : (a : Candidate) → ranks_before a a ≡ false
unfolding ranks_before
ranks_before-irreflexive a = ground (arith, bytes_lt-irreflexive a.sci)

-- The loop ends in a candidate of the list that none ranks before.
best_of-Leads :
    (peers : List Peer) (first : Candidate)
    → (best : Candidate) × (best_of peers (some first) ≡ some best)
      × Memᴰ best (first ∷ map peer_candidate peers)
      × Leads best (first ∷ map peer_candidate peers)
unfolding best_of better
best_of-Leads [] first = (first, refl, Memᴰ.head refl, (ranks_before-irreflexive first, tt))
best_of-Leads (peer ∷ peers) first =
    let other = peer_candidate peer in
    elim (Bool-cases (ranks_before other first)) [
      | inl before ↦
          let (best, is_best, member, (led, leads)) = best_of-Leads peers other in
          (
            best,
            rw before is_best,
            Memᴰ.tail member,
            (
              not_before-transitive best other first led
                  (ranks_before-asymmetric other first before),
              (led, leads),
            ),
          )
      | inr behind ↦
          let (best, is_best, member, (led, leads)) = best_of-Leads peers first in
          (
            best,
            rw behind is_best,
            elim member [
              | Memᴰ.head same ↦ Memᴰ.head same
              | Memᴰ.tail later ↦ Memᴰ.tail (Memᴰ.tail later)
            ],
            (led, (not_before-transitive best first other led behind, leads)),
          )
    ]

-- The loop from no candidate on.
best_of-none :
    (peers : List Peer)
    → ((map peer_candidate peers ≡ []) × (best_of peers none ≡ none))
      ⊎ ((best : Candidate) × (best_of peers none ≡ some best)
          × Memᴰ best (map peer_candidate peers)
          × Leads best (map peer_candidate peers))
unfolding best_of better
best_of-none [] = inl (refl, refl)
best_of-none (peer ∷ peers) = inr (best_of-Leads peers (peer_candidate peer))

module _ {D : Type 0} where
  -- This participant where it can be Key Server, and the live peers that call themselves so.
  unfoldable pub candidates : MkaSession D → List Candidate
  candidates s =
      let peers = map peer_candidate (retain (λ peer. peer.live && peer.key_server) s.peers) in
      if s.can_be_key_server
      then record { priority = s.priority; sci = actor_sci s; own = true } ∷ peers
      else peers

  -- What the election comes to: no candidate and no Key Server, or a candidate that none ranks
  -- before.
  pub data Elects (s : MkaSession D) (elected : MkaSession D) : Type 0 where
    nobody :
        candidates s ≡ []
        → elected.is_key_server ≡ false
        → elected.key_server_sci ≡ no_sci
        → Elects s elected
    somebody :
        (best : Candidate)
        → Memᴰ best (candidates s)
        → Leads best (candidates s)
        → elected.is_key_server ≡ best.own
        → elected.key_server_sci ≡ best.sci
        → Elects s elected

  best_candidate-cases :
      (s : MkaSession D)
      → ((candidates s ≡ []) × (best_candidate s ≡ none))
        ⊎ ((best : Candidate) × (best_candidate s ≡ some best)
            × Memᴰ best (candidates s)
            × Leads best (candidates s))
  unfolding candidates best_candidate own_candidate best_of actor_sci
  best_candidate-cases s =
      let peers = retain (λ peer. peer.live && peer.key_server) s.peers in
      elim (Bool-cases s.can_be_key_server) [
        | inl can ↦
            let own : Candidate = record { priority = s.priority; sci = actor_sci s; own = true } in
            inr (rw can (best_of-Leads peers own))
        | inr cannot ↦ rw cannot (best_of-none peers)
      ]

  -- The change of role keeps the outcome of the election.
  pub role_changed-kept :
      (was : Bool) (s : MkaSession D)
      → ((role_changed was s).is_key_server ≡ s.is_key_server)
        × ((role_changed was s).key_server_sci ≡ s.key_server_sci)
  unfolding role_changed
  role_changed-kept was s = ground arith

  follow_best-kept :
      (best : Candidate) (s : MkaSession D)
      → ((follow_best (some best) s).is_key_server ≡ best.own)
        × ((follow_best (some best) s).key_server_sci ≡ best.sci)
  unfolding follow_best
  follow_best-kept best s = ground arith

  -- The election makes Key Server a candidate that none ranks before, and this participant exactly
  -- where it is that candidate; without a candidate there is no Key Server.
  pub elect_key_server-Elects : (s : MkaSession D) → Elects s (elect_key_server s)
  unfolding elect_key_server follow_best
  elect_key_server-Elects s = elim (best_candidate-cases s) [
    | inl (empty, nothing) ↦
        let (role, sci) = role_changed-kept s.is_key_server (follow_best none s) in
        rw nothing (Elects.nobody empty role sci)
    | inr (best, is_best, member, leads) ↦
        let (role, sci) = role_changed-kept s.is_key_server (follow_best (some best) s) in
        let (own, elected) = follow_best-kept best s in
        rw is_best (Elects.somebody best member leads (role ∙ own) (sci ∙ elected))
  ]
