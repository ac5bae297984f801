-- ===== src/Ike/Proposal/SelectEsp.antt =====
-- What the selection of an ESP suite promises when both ends are configured by lists of suites.
use shuli.Base.{
  ℕ, suc, ◌+◌, Bool, true, false, none, some, List, [], ◌∷◌, ◌≡◌, ◌⊎◌, refl, arith, inl, inr, Memᴰ,
  find, find-eq-some, get_elem?, Option-cases, if◌then◌else◌,
}
use shuli.Base.Outcome.{ok}
use shuli.Base.Bytes.{as_u8, be32}
use shuli.Ike.Types.{Proposal}
use shuli.Ike.Algorithm.{
  EncryptionAlgorithm, IntegrityAlgorithm, DhGroup, ChildProposal, no_integrity, no_group, is_aead,
  encryption_id, key_len_bits, integrity_id, dh_id,
}
use shuli.Ike.Proposal.{
  esp_protocol, esp_matches, esp_transforms, build_esp, build_esp_from, select_esp_with_dh,
  without_dh, transform_offer_matches, offers, offers_encryption, esn_offer_matches, key_length,
  find_key_length, integ_transform, dh_transform,
}

-- Two suites that protect a tunnel alike: the chosen one may leave out the integrity transform
-- under an AEAD cipher, and the DH group.
pub record ChildAgrees (proposed chosen : ChildProposal) : Type 0 where
  pub encryption : proposed.encryption ≡ chosen.encryption
  pub integrity :
      (proposed.integrity ≡ chosen.integrity)
      ⊎ ((chosen.integrity ≡ no_integrity) × (is_aead chosen.encryption ≡ true))
  pub esn : proposed.esn ≡ chosen.esn
  pub dh : (proposed.dh ≡ chosen.dh) ⊎ (chosen.dh ≡ no_group)

module _ (e e' : EncryptionAlgorithm) (i i' : IntegrityAlgorithm) (n n' : Bool)
    (g g' : DhGroup) where
  encryption-built : offers_encryption e' (esp_transforms e i n g) ≡ true → e ≡ e'
  unfolding offers_encryption esp_transforms encryption_id key_len_bits find_key_length key_length
  encryption-built h = ground arith

  integrity-built :
      offers integ_transform (integrity_id i') (esp_transforms e i n g) ≡ true → i ≡ i'
  unfolding offers esp_transforms integrity_id
  integrity-built h = ground arith

  dh-built : offers dh_transform (dh_id g') (esp_transforms e i n g) ≡ true → g ≡ g'
  unfolding offers esp_transforms dh_id
  dh-built h = ground arith

  esn-built : esn_offer_matches (esp_transforms e i n g) n' ≡ true → n ≡ n'
  unfolding esn_offer_matches esp_transforms
  esn-built h = ground arith

  esp-built :
      transform_offer_matches (esp_transforms e i n g) e' none i' g' ≡ true
      → (e ≡ e')
        × ((i ≡ i') ⊎ ((i' ≡ no_integrity) × (is_aead e' ≡ true)))
        × ((g ≡ g') ⊎ (g' ≡ no_group))
  unfolding transform_offer_matches
  esp-built h = ground (arith, encryption-built, integrity-built, dh-built)

abbrev offer_of : ℕ → ChildProposal → ℕ → Bool → Proposal
offer_of index p spi include_dh = record {
  number = as_u8 (index + 1);
  protocol = esp_protocol;
  spi = be32 spi;
  transforms =
      esp_transforms p.encryption p.integrity p.esn (if include_dh then p.dh else no_group);
}

esp_matches-offer :
    (index : ℕ) (p d : ChildProposal) (spi : ℕ) (include_dh : Bool)
    → esp_matches include_dh (offer_of index p spi include_dh) d ≡ true
    → ChildAgrees p (without_dh include_dh d)
esp_matches-offer index p d spi true h =
    let (e, i, g) =
      esp-built p.encryption d.encryption p.integrity d.integrity p.esn d.esn p.dh d.dh
        (ground arith) in
    let n =
      esn-built p.encryption d.encryption p.integrity d.integrity p.esn d.esn p.dh d.dh
        (ground arith) in
    record { encryption = e; integrity = i; esn = n; dh = g }
esp_matches-offer index p d spi false h =
    let (e, i, g) =
      esp-built p.encryption d.encryption p.integrity d.integrity p.esn d.esn no_group no_group
        (ground arith) in
    let n =
      esn-built p.encryption d.encryption p.integrity d.integrity p.esn d.esn no_group no_group
        (ground arith) in
    record { encryption = e; integrity = i; esn = n; dh = inr refl }

select_esp-from :
    (configured : List ChildProposal) (skipped : ℕ) (proposed : List ChildProposal) (spi : ℕ)
    (include_dh : Bool) (c : ChildProposal) (number : ℕ)
    → select_esp_with_dh configured (build_esp_from skipped proposed spi include_dh) include_dh
      ≡ ok (c, number)
    → (suite : ChildProposal) × (index : ℕ) × (get_elem? proposed index ≡ some suite)
      × (number ≡ as_u8 (skipped + index + 1))
      × ChildAgrees suite c
      × (own : ChildProposal) × Memᴰ own configured
      × (c ≡ without_dh include_dh own)
unfolding select_esp_with_dh build_esp_from
select_esp-from configured skipped [] spi include_dh c number e = cc
select_esp-from configured skipped (p ∷ ps) spi include_dh c number e =
    elim (Option-cases
      (find (esp_matches include_dh (offer_of skipped p spi include_dh)) configured)) [
        | inl nothing ↦
            let (suite, index, at, numbered, agrees, own, has, same) =
              select_esp-from configured (skipped + 1) ps spi include_dh c number
                (rw nothing at e) in
            (suite, suc index, at, omega arith, agrees, own, has, same)
        | inr (d, found) ↦
            let (has, fits) = find-eq-some _ configured found in
            let same : without_dh include_dh d ≡ c = cc (rw found at e) in
            let numbered : as_u8 (skipped + 1) ≡ number = cc (rw found at e) in
            (
              p,
              0,
              refl,
              omega arith,
              rw (← same) (esp_matches-offer skipped p d spi include_dh fits),
              d,
              has,
              cc,
            )
      ]

-- A responder that selects from an initiator's ESP offer, with or without a DH exchange, names by
-- its number one of the proposed suites, and takes a suite of its own that agrees with it, without
-- its DH group where there is no DH exchange.
pub select_esp-build_esp :
    (configured proposed : List ChildProposal) (spi : ℕ) (include_dh : Bool) (c : ChildProposal)
    (number : ℕ)
    → select_esp_with_dh configured (build_esp proposed spi include_dh) include_dh ≡ ok (c, number)
    → (suite : ChildProposal) × (index : ℕ) × (get_elem? proposed index ≡ some suite)
      × (number ≡ as_u8 (index + 1))
      × ChildAgrees suite c
      × (own : ChildProposal) × Memᴰ own configured
      × (c ≡ without_dh include_dh own)
unfolding build_esp
select_esp-build_esp configured proposed spi include_dh c number e =
    let (suite, index, at, numbered, agrees, own, has, same) =
      select_esp-from configured 0 proposed spi include_dh c number e in
    (suite, index, at, omega arith, agrees, own, has, same)
