-- ===== src/Ike/Proposal/Select.antt =====
-- What a selection promises when both ends are configured by lists of suites.
use shuli.Base.{
  ℕ, suc, ◌+◌, true, some, List, [], ◌∷◌, ◌≡◌, ◌⊎◌, refl, arith, inl, inr, Memᴰ, find, find-eq-some,
  find-eq-none, get_elem?, Option-cases,
}
use shuli.Base.Outcome.{ok}
use shuli.Base.Bytes.{as_u8}
use shuli.Ike.Types.{Proposal}
use shuli.Ike.Algorithm.{
  IkeProposal, no_integrity, no_group, is_aead, ike_is_valid, encryption_id, key_len_bits, prf_id,
  integrity_id, dh_id,
}
use shuli.Ike.Proposal.{
  ike_protocol, ike_matches, ike_transforms, build_ike, build_ike_from, select_ike,
  transform_offer_matches, offers, offers_encryption, key_length, find_key_length,
}
use shuli.Ike.Proposal.Agree.{matches-built}

-- Two suites that protect a tunnel alike: the chosen one may leave out the integrity transform
-- under an AEAD cipher, and the DH group.
pub record Agrees (proposed chosen : IkeProposal) : Type 0 where
  pub encryption : proposed.encryption ≡ chosen.encryption
  pub prf : proposed.prf ≡ chosen.prf
  pub integrity :
      (proposed.integrity ≡ chosen.integrity)
      ⊎ ((chosen.integrity ≡ no_integrity) × (is_aead chosen.encryption ≡ true))
  pub dh : (proposed.dh ≡ chosen.dh) ⊎ (chosen.dh ≡ no_group)

abbrev offer_of : ℕ → IkeProposal → Proposal
offer_of index p = record {
  number = as_u8 (index + 1);
  protocol = ike_protocol;
  spi = [];
  transforms = ike_transforms p.encryption p.prf p.integrity p.dh;
}

ike_matches-offer :
    (index : ℕ) (p c : IkeProposal) → ike_matches (offer_of index p) c ≡ true → Agrees p c
ike_matches-offer index p c h =
    let (e, f, i, g) =
      matches-built p.encryption c.encryption p.prf c.prf p.integrity c.integrity p.dh c.dh h in
    record { encryption = e; prf = f; integrity = i; dh = g }

select_ike-from :
    (configured : List IkeProposal) (skipped : ℕ) (proposed : List IkeProposal) (c : IkeProposal)
    (number : ℕ)
    → select_ike configured (build_ike_from skipped proposed) ≡ ok (c, number)
    → (suite : IkeProposal) × (index : ℕ) × (get_elem? proposed index ≡ some suite)
      × (number ≡ as_u8 (skipped + index + 1))
      × Agrees suite c
      × Memᴰ c configured
unfolding select_ike build_ike_from
select_ike-from configured skipped [] c number e = cc
select_ike-from configured skipped (p ∷ ps) c number e =
    elim (Option-cases (find (ike_matches (offer_of skipped p)) configured)) [
      | inl nothing ↦
          let (suite, index, at, numbered, agrees, has) =
            select_ike-from configured (skipped + 1) ps c number (rw nothing at e) in
          (suite, suc index, at, omega arith, agrees, has)
      | inr (d, found) ↦
          let (has, fits) = find-eq-some _ configured found in
          let same : d ≡ c = cc (rw found at e) in
          let numbered : as_u8 (skipped + 1) ≡ number = cc (rw found at e) in
          (
            p,
            0,
            refl,
            omega arith,
            rw (← same) (ike_matches-offer skipped p d fits),
            rw (← same) has,
          )
    ]

-- A responder that selects from an initiator's offer names by its number one of the proposed
-- suites, and takes a suite of its own that agrees with it.
pub select_ike-build_ike :
    (configured proposed : List IkeProposal) (c : IkeProposal) (number : ℕ)
    → select_ike configured (build_ike proposed) ≡ ok (c, number)
    → (suite : IkeProposal) × (index : ℕ) × (get_elem? proposed index ≡ some suite)
      × (number ≡ as_u8 (index + 1))
      × Agrees suite c
      × Memᴰ c configured
unfolding build_ike
select_ike-build_ike configured proposed c number e =
    let (suite, index, at, numbered, agrees, has) =
      select_ike-from configured 0 proposed c number e in
    (suite, index, at, omega arith, agrees, has)

-- A suite's own offer matches it unless it has neither an AEAD cipher nor an integrity transform.
ike_matches_self :
    (index : ℕ) (p : IkeProposal) → ike_is_valid p ≡ true → ike_matches (offer_of index p) p ≡ true
unfolding transform_offer_matches offers offers_encryption ike_transforms encryption_id key_len_bits
    find_key_length key_length prf_id integrity_id dh_id is_aead ike_is_valid
ike_matches_self index p h = ground arith

Memᴰ-tail {ℓ} : {A : Type ℓ} {a x : A} {xs : List A} → Memᴰ a (x ∷ xs) → (a ≡ x → ⊥) → Memᴰ a xs
Memᴰ-tail (Memᴰ.head e) h = absurd (h e)
Memᴰ-tail (Memᴰ.tail m) h = m

select_ike-from_common :
    (configured : List IkeProposal) (skipped : ℕ) (proposed : List IkeProposal) (p : IkeProposal)
    → ike_is_valid p ≡ true
    → Memᴰ p configured
    → Memᴰ p proposed
    → (r : IkeProposal × ℕ) × (select_ike configured (build_ike_from skipped proposed) ≡ ok r)
unfolding select_ike build_ike_from
select_ike-from_common configured skipped [] p v here there = elim there [ ]
select_ike-from_common configured skipped (q ∷ qs) p v here there =
    elim (Option-cases (find (ike_matches (offer_of skipped q)) configured)) [
      | inl nothing ↦
          let (r, e) = select_ike-from_common configured (skipped + 1) qs p v here (
            Memᴰ-tail there λ same. cc (
              find-eq-none _ configured nothing here,
              rw same at (ike_matches_self skipped p v),
            )) in
          (r, rw nothing e)
      | inr (d, found) ↦ ((d, as_u8 (skipped + 1)), rw found)
    ]

-- A responder selects from the offer of an initiator whenever the two share a valid suite.
pub select_ike_common :
    (configured proposed : List IkeProposal) (p : IkeProposal)
    → ike_is_valid p ≡ true
    → Memᴰ p configured
    → Memᴰ p proposed
    → (r : IkeProposal × ℕ) × (select_ike configured (build_ike proposed) ≡ ok r)
unfolding build_ike
select_ike_common configured proposed p v here there =
    select_ike-from_common configured 0 proposed p v here there
