-- ===== src/Ike/Proposal/Parse.antt =====
-- `parse_selected_ike` and `parse_selected_esp` of ipsec/ikev2/proposal.rs.
use shuli.Base.{ℕ, Bool, false, Option, none, some, List, find, ◌==◌, if◌then◌else◌}
use shuli.Base.Outcome.{Outcome, ok, err, ◌>>=◌}
use shuli.Ike.Types.{IpsecErrorKind, proposal, Transform, Proposal}
use shuli.Ike.Algorithm.{
  EncryptionAlgorithm, PrfAlgorithm, IntegrityAlgorithm, DhGroup, IkeProposal, ChildProposal,
  aes_cbc128, aes_cbc192, aes_cbc256, aes_gcm16_128, aes_gcm16_256, hmac_sha1, hmac_sha2_256,
  no_integrity, hmac_sha1_96, hmac_sha2_256_128, no_group, dh_from_id,
}
use shuli.Ike.Proposal.{
  find_key_length, encr_transform, prf_transform, integ_transform, dh_transform, esn_transform,
  ike_protocol, esp_protocol,
}

unfoldable pub select_transform : List Transform → ℕ → Option Transform
select_transform transforms kind = find (λ t. t.transform_type == kind) transforms

-- `match bits` for AES-CBC, where the attribute must be there.
abbrev pub cbc_of_bits : Option ℕ → Option EncryptionAlgorithm
cbc_of_bits none = none
cbc_of_bits (some bits) =
    if bits == 128
    then some aes_cbc128
    else if bits == 192
    then some aes_cbc192
    else if bits == 256
    then some aes_cbc256
    else none

-- The same for AES-GCM, where no attribute means 128 bits.
abbrev pub gcm_of_bits : Option ℕ → Option EncryptionAlgorithm
gcm_of_bits none = some aes_gcm16_128
gcm_of_bits (some bits) =
    if bits == 256 then some aes_gcm16_256 else if bits == 128 then some aes_gcm16_128 else none

unfoldable pub parse_encryption : Transform → Option EncryptionAlgorithm
parse_encryption transform =
    if transform.id == 12
    then cbc_of_bits (find_key_length transform.attributes)
    else if transform.id == 20
    then gcm_of_bits (find_key_length transform.attributes)
    else none

unfoldable pub parse_prf : Transform → Option PrfAlgorithm
parse_prf transform =
    if transform.id == 2
    then some hmac_sha1
    else if transform.id == 5
    then some hmac_sha2_256
    else none

unfoldable pub parse_integrity : Transform → Option IntegrityAlgorithm
parse_integrity transform =
    if transform.id == 0
    then some no_integrity
    else if transform.id == 2
    then some hmac_sha1_96
    else if transform.id == 12
    then some hmac_sha2_256_128
    else none

unfoldable pub parse_dh : Transform → Option DhGroup
parse_dh transform = dh_from_id transform.id

-- `select_transform(…).and_then(parse)`
abbrev pub and_then {ℓ κ} : {A : Type ℓ} {B : Type κ} → Option A → (A → Option B) → Option B
and_then none f = none
and_then (some a) f = f a

-- `ok_or_else` with the kind `Proposal`.
abbrev pub or_refused {ℓ} : {A : Type ℓ} → Option A → Outcome IpsecErrorKind A
or_refused none = err proposal
or_refused (some a) = ok a

abbrev pub unwrap_or {ℓ} : {A : Type ℓ} → Option A → A → A
unwrap_or none d = d
unwrap_or (some a) d = a

unfoldable pub parse_selected_ike : List Proposal → Outcome IpsecErrorKind IkeProposal
parse_selected_ike proposals = do
  offer ← or_refused (find (λ p. p.protocol == ike_protocol) proposals)
  encryption ←
      or_refused (and_then (select_transform offer.transforms encr_transform) parse_encryption)
  prf ← or_refused (and_then (select_transform offer.transforms prf_transform) parse_prf)
  let integrity =
      unwrap_or (and_then (select_transform offer.transforms integ_transform) parse_integrity)
        no_integrity
  dh ← or_refused (and_then (select_transform offer.transforms dh_transform) parse_dh)
  ok (record { encryption = encryption; prf = prf; integrity = integrity; dh = dh })

-- `transform.id == 1` of the first ESN transform, and false without one.
abbrev pub esn_of : Option Transform → Bool
esn_of none = false
esn_of (some transform) = transform.id == 1

unfoldable pub parse_selected_esp : List Proposal → Outcome IpsecErrorKind ChildProposal
parse_selected_esp proposals = do
  offer ← or_refused (find (λ p. p.protocol == esp_protocol) proposals)
  encryption ←
      or_refused (and_then (select_transform offer.transforms encr_transform) parse_encryption)
  let integrity =
      unwrap_or (and_then (select_transform offer.transforms integ_transform) parse_integrity)
        no_integrity
  let esn = esn_of (select_transform offer.transforms esn_transform)
  let dh = unwrap_or (and_then (select_transform offer.transforms dh_transform) parse_dh) no_group
  ok (record { encryption = encryption; integrity = integrity; esn = esn; dh = dh })
