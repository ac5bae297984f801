-- ===== src/Runs/Suites.antt =====
-- Offers and selections at concrete suites of ipsec/ikev2/proposal.rs.
use shuli.Base.{ℕ, ◌+◌, ◌≡◌, refl, true, false, [], ◌∷◌, arith, Memᴰ, some, get_elem?}
use shuli.Base.Outcome.{ok, err}
use shuli.Base.Bytes.{as_u8}
use shuli.Ike.Types.{proposal}
use shuli.Ike.Algorithm.{
  IkeProposal, ChildProposal, aes_cbc256, aes_gcm16_256, hmac_sha2_256, no_integrity,
  hmac_sha2_256_128, x25519, modp2048, ike_is_valid, encryption_id, key_len_bits, prf_id,
  integrity_id, dh_id, is_aead,
}
use shuli.Ike.Proposal.{
  build_ike, build_ike_from, build_esp, select_ike, without_dh, transform_offer_matches, offers,
  offers_encryption, ike_transforms, find_key_length, key_length,
}
use shuli.Ike.Proposal.Parse.{parse_selected_ike}
use shuli.Ike.Proposal.Agree.{parse_selected_ike-build_ike}
use shuli.Ike.Proposal.{select_esp_with_dh, build_esp_from, esp_transforms, esn_offer_matches}
use shuli.Ike.Proposal.SelectEsp.{ChildAgrees, select_esp-build_esp}
use shuli.Ike.Proposal.Select.{Agrees, select_ike-build_ike, select_ike_common}

abbrev gcm_suite : IkeProposal
gcm_suite = record {
  encryption = aes_gcm16_256;
  prf = hmac_sha2_256;
  integrity = no_integrity;
  dh = x25519;
}

abbrev cbc_suite : IkeProposal
cbc_suite = record {
  encryption = aes_cbc256;
  prf = hmac_sha2_256;
  integrity = hmac_sha2_256_128;
  dh = modp2048;
}

abbrev child_suite : ChildProposal
child_suite = record {
  encryption = aes_gcm16_256;
  integrity = no_integrity;
  esn = true;
  dh = x25519;
}

-- The second offer of the initiator is the one that the responder shares.
selected : select_ike (gcm_suite ∷ []) (build_ike (cbc_suite ∷ gcm_suite ∷ [])) ≡ ok (gcm_suite, 2)
unfolding select_ike build_ike build_ike_from transform_offer_matches offers offers_encryption
    ike_transforms find_key_length key_length encryption_id key_len_bits prf_id integrity_id dh_id
    is_aead
selected = refl

nothing_shared : select_ike (gcm_suite ∷ []) (build_ike (cbc_suite ∷ [])) ≡ err proposal
unfolding select_ike build_ike build_ike_from transform_offer_matches offers offers_encryption
    ike_transforms find_key_length key_length encryption_id key_len_bits prf_id integrity_id dh_id
    is_aead
nothing_shared = refl

select_ike-build_ike_example :
    (suite : IkeProposal) × (index : ℕ) × (get_elem? (cbc_suite ∷ gcm_suite ∷ []) index
      ≡ some suite)
    × (2 ≡ as_u8 (index + 1))
    × Agrees suite gcm_suite
    × Memᴰ gcm_suite (gcm_suite ∷ [])
select_ike-build_ike_example =
    select_ike-build_ike (gcm_suite ∷ []) (cbc_suite ∷ gcm_suite ∷ []) gcm_suite 2 selected

gcm_suite-valid : ike_is_valid gcm_suite ≡ true
unfolding ike_is_valid is_aead
gcm_suite-valid = ground arith

select_ike_common_example :
    (r : IkeProposal × ℕ) × (select_ike (gcm_suite ∷ []) (build_ike (cbc_suite ∷ gcm_suite ∷ []))
      ≡ ok r)
select_ike_common_example =
    select_ike_common (gcm_suite ∷ []) (cbc_suite ∷ gcm_suite ∷ []) gcm_suite gcm_suite-valid
      (Memᴰ.head refl) (Memᴰ.tail (Memᴰ.head refl))

parse_selected_ike-build_ike_example :
    parse_selected_ike (build_ike (cbc_suite ∷ gcm_suite ∷ [])) ≡ ok cbc_suite
parse_selected_ike-build_ike_example =
    parse_selected_ike-build_ike cbc_suite (gcm_suite ∷ []) λ e. cc

selected_esp :
    select_esp_with_dh (child_suite ∷ []) (build_esp (child_suite ∷ []) 0x01020304 false) false
    ≡ ok (without_dh false child_suite, 1)
unfolding select_esp_with_dh build_esp build_esp_from transform_offer_matches offers
    offers_encryption esp_transforms esn_offer_matches find_key_length key_length encryption_id
    key_len_bits integrity_id dh_id is_aead
selected_esp = refl

select_esp-build_esp_example :
    (suite : ChildProposal) × (index : ℕ) × (get_elem? (child_suite ∷ []) index ≡ some suite)
    × (1 ≡ as_u8 (index + 1))
    × ChildAgrees suite (without_dh false child_suite)
    × (own : ChildProposal) × Memᴰ own (child_suite ∷ [])
    × (without_dh false child_suite ≡ without_dh false own)
select_esp-build_esp_example =
    select_esp-build_esp (child_suite ∷ []) (child_suite ∷ []) 0x01020304 false
      (without_dh false child_suite) 1 selected_esp
