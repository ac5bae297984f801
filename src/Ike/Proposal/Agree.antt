-- ===== src/Ike/Proposal/Agree.antt =====
-- What the two ends of a negotiation make of one suite: the offer built from it, the selection
-- from that offer, and the suite that is parsed from the answer.
use shuli.Base.{ℕ, Bool, true, some, List, ◌∷◌, ◌≡◌, ◌≢◌, ◌⊎◌, refl, arith}
use shuli.Base.Outcome.{ok}
use shuli.Ike.Algorithm.{
  EncryptionAlgorithm, PrfAlgorithm, IntegrityAlgorithm, DhGroup, IkeProposal, ChildProposal,
  aes_cbc128, aes_cbc192, aes_cbc256, aes_gcm16_128, aes_gcm16_256, hmac_sha1, hmac_sha2_256,
  no_integrity, hmac_sha1_96, hmac_sha2_256_128, no_group, modp2048, ecp256, ecp384, x25519,
  encryption_id, key_len_bits, is_aead, prf_id, integrity_id, dh_id, dh_from_id,
}
use shuli.Ike.Proposal.{
  dh_transform, encryption_transform, plain_transform, prf_transform, integ_transform, key_length,
  find_key_length, ike_transforms, esp_transforms, build_ike, build_ike_from, build_esp,
  build_esp_from, offers, offers_encryption, transform_offer_matches, without_dh,
}
use shuli.Ike.Proposal.Parse.{
  select_transform, parse_encryption, parse_prf, parse_integrity, parse_dh, parse_selected_ike,
  parse_selected_esp,
}

-- The parts of a suite that an IKE offer's transforms determine.
parse_encryption-transform :
    (e : EncryptionAlgorithm) → parse_encryption (encryption_transform e) ≡ some e
unfolding parse_encryption encryption_id key_len_bits find_key_length key_length
parse_encryption-transform aes_cbc128 = refl
parse_encryption-transform aes_cbc192 = refl
parse_encryption-transform aes_cbc256 = refl
parse_encryption-transform aes_gcm16_128 = refl
parse_encryption-transform aes_gcm16_256 = refl

parse_dh-id : (g : DhGroup) → dh_from_id (dh_id g) ≡ some g
unfolding dh_id dh_from_id
parse_dh-id no_group = refl
parse_dh-id modp2048 = refl
parse_dh-id ecp256 = refl
parse_dh-id ecp384 = refl
parse_dh-id x25519 = refl

parse_prf-id : (p : PrfAlgorithm) → parse_prf (plain_transform prf_transform (prf_id p)) ≡ some p
unfolding parse_prf prf_id
parse_prf-id hmac_sha1 = refl
parse_prf-id hmac_sha2_256 = refl

parse_integrity-id :
    (i : IntegrityAlgorithm)
    → parse_integrity (plain_transform integ_transform (integrity_id i)) ≡ some i
unfolding parse_integrity integrity_id
parse_integrity-id no_integrity = refl
parse_integrity-id hmac_sha1_96 = refl
parse_integrity-id hmac_sha2_256_128 = refl

-- The first suite of an IKE offer, if it has a DH group, is what the offer is parsed to.
pub parse_selected_ike-build_ike :
    (p : IkeProposal) (rest : List IkeProposal)
    → p.dh ≢ no_group
    → parse_selected_ike (build_ike (p ∷ rest)) ≡ ok p
unfolding parse_selected_ike build_ike build_ike_from ike_transforms select_transform parse_dh
parse_selected_ike-build_ike p rest h = ground (
  arith,
  parse_encryption-transform p.encryption,
  parse_prf-id p.prf,
  parse_dh-id p.dh,
  parse_integrity-id p.integrity,
)

-- The first suite of an ESP offer is what the offer is parsed to, without its DH group where the
-- offer leaves it out.
pub parse_selected_esp-build_esp :
    (p : ChildProposal) (rest : List ChildProposal) (spi : ℕ) (include_dh : Bool)
    → parse_selected_esp (build_esp (p ∷ rest) spi include_dh) ≡ ok (without_dh include_dh p)
unfolding parse_selected_esp build_esp build_esp_from esp_transforms select_transform parse_dh
parse_selected_esp-build_esp p rest spi include_dh = ground (
  arith,
  parse_encryption-transform p.encryption,
  parse_dh-id p.dh,
  parse_integrity-id p.integrity,
)

module _ (e e' : EncryptionAlgorithm) (p p' : PrfAlgorithm) (i i' : IntegrityAlgorithm)
    (g g' : DhGroup) where
  offers_encryption-built : offers_encryption e' (ike_transforms e p i g) ≡ true → e ≡ e'
  unfolding offers_encryption ike_transforms encryption_id key_len_bits find_key_length key_length
  offers_encryption-built h = ground arith

  offers_prf-built : offers prf_transform (prf_id p') (ike_transforms e p i g) ≡ true → p ≡ p'
  unfolding offers ike_transforms prf_id
  offers_prf-built h = ground arith

  offers_integrity-built :
      offers integ_transform (integrity_id i') (ike_transforms e p i g) ≡ true → i ≡ i'
  unfolding offers ike_transforms integrity_id
  offers_integrity-built h = ground arith

  offers_dh-built : offers dh_transform (dh_id g') (ike_transforms e p i g) ≡ true → g ≡ g'
  unfolding offers ike_transforms dh_id
  offers_dh-built h = ground arith

  pub matches-built :
      transform_offer_matches (ike_transforms e p i g) e' (some p') i' g' ≡ true
      → (e ≡ e')
        × (p ≡ p')
        × ((i ≡ i') ⊎ ((i' ≡ no_integrity) × (is_aead e' ≡ true)))
        × ((g ≡ g') ⊎ (g' ≡ no_group))
  unfolding transform_offer_matches
  matches-built h =
      ground
        (arith, offers_encryption-built, offers_prf-built, offers_integrity-built, offers_dh-built)
