-- ===== src/Ike/Proposal.antt =====
-- ipsec/ikev2/proposal.rs, with the transforms of a proposal from the end of ipsec/ikev2/codec.rs.
pub mod Select
pub mod SelectEsp
pub mod Agree
pub mod Parse
use shuli.Base.{
  option_eq, ℕ, ◌+◌, Bool, true, false, not, Option, none, some, List, [], ◌∷◌, ◌++◌, any, find,
  ◌&&◌, ◌||◌, ◌==◌, if◌then◌else◌,
}
use shuli.Base.Outcome.{Outcome, ok, err, ◌>>=◌}
use shuli.Base.Bytes.{be16, be32, from_be16, as_u8}
use shuli.Ike.Types.{IpsecErrorKind, proposal, TransformAttribute, Transform, Proposal}
use shuli.Ike.Algorithm.{
  EncryptionAlgorithm, PrfAlgorithm, IntegrityAlgorithm, DhGroup, IkeProposal, ChildProposal,
  aes_cbc128, aes_cbc192, aes_cbc256, aes_gcm16_128, aes_gcm16_256, hmac_sha1, hmac_sha2_256,
  no_integrity, hmac_sha1_96, hmac_sha2_256_128, no_group, encryption_id, key_len_bits, is_aead,
  prf_id, integrity_id, dh_id, dh_from_id, is_no_integrity, is_no_group, bool_eq,
}

-- `transform_type::…` and `protocol_id::…`
abbrev pub encr_transform : ℕ
encr_transform = 1

abbrev pub prf_transform : ℕ
prf_transform = 2

abbrev pub integ_transform : ℕ
integ_transform = 3

abbrev pub dh_transform : ℕ
dh_transform = 4

abbrev pub esn_transform : ℕ
esn_transform = 5

abbrev pub ike_protocol : ℕ
ike_protocol = 1

abbrev pub esp_protocol : ℕ
esp_protocol = 3

unfoldable pub key_length : ℕ → TransformAttribute
key_length bits = record { type_ = 14; value = be16 bits }

-- A value of two octets, as a u16.
abbrev pub two_octets : List ℕ → Option ℕ
two_octets (a ∷ b ∷ []) = some (from_be16 a b)
two_octets _ = none

unfoldable pub key_length_bits : TransformAttribute → Option ℕ
key_length_bits attribute = if attribute.type_ == 14 then two_octets attribute.value else none

-- `attributes.iter().find_map(|attribute| attribute.key_length_bits())`
unfoldable pub find_key_length : List TransformAttribute → Option ℕ
unfolding key_length_bits
find_key_length [] = none
find_key_length (attribute ∷ rest) =
    let others = find_key_length rest in
    elim (key_length_bits attribute) [ some bits ↦ some bits | none ↦ others ]

-- `encryption.key_len_bits().map(|bits| vec![…]).unwrap_or_default()`
abbrev pub key_attributes : Option ℕ → List TransformAttribute
key_attributes none = []
key_attributes (some bits) = key_length bits ∷ []

abbrev pub plain_transform : ℕ → ℕ → Transform
plain_transform kind value = record { transform_type = kind; id = value; attributes = [] }

abbrev pub encryption_transform : EncryptionAlgorithm → Transform
encryption_transform encryption = record {
  transform_type = encr_transform;
  id = encryption_id encryption;
  attributes = key_attributes (key_len_bits encryption);
}

abbrev pub integrity_transforms : IntegrityAlgorithm → List Transform
integrity_transforms integrity =
    if is_no_integrity integrity
    then []
    else plain_transform integ_transform (integrity_id integrity) ∷ []

abbrev pub dh_transforms : DhGroup → List Transform
dh_transforms dh = if is_no_group dh then [] else plain_transform dh_transform (dh_id dh) ∷ []

unfoldable pub ike_transforms :
    EncryptionAlgorithm → PrfAlgorithm → IntegrityAlgorithm → DhGroup → List Transform
ike_transforms encryption prf integrity dh =
    encryption_transform encryption
    ∷ plain_transform prf_transform (prf_id prf)
    ∷ (integrity_transforms integrity ++ dh_transforms dh)

unfoldable pub esp_transforms :
    EncryptionAlgorithm → IntegrityAlgorithm → Bool → DhGroup → List Transform
esp_transforms encryption integrity esn dh =
    encryption_transform encryption
    ∷ (integrity_transforms integrity
        ++ (plain_transform esn_transform (if esn then 1 else 0) ∷ dh_transforms dh))

-- `proposals.iter().enumerate().map(…)`, from an index on.
unfoldable pub build_ike_from : ℕ → List IkeProposal → List Proposal
build_ike_from index [] = []
build_ike_from index (p ∷ rest) =
    record {
      number = as_u8 (index + 1);
      protocol = ike_protocol;
      spi = [];
      transforms = ike_transforms p.encryption p.prf p.integrity p.dh;
    }
    ∷ build_ike_from (index + 1) rest

unfoldable pub build_ike : List IkeProposal → List Proposal
build_ike proposals = build_ike_from 0 proposals

unfoldable pub build_esp_from : ℕ → List ChildProposal → ℕ → Bool → List Proposal
build_esp_from index [] spi include_dh = []
build_esp_from index (p ∷ rest) spi include_dh =
    record {
      number = as_u8 (index + 1);
      protocol = esp_protocol;
      spi = be32 spi;
      transforms =
          esp_transforms p.encryption p.integrity p.esn (if include_dh then p.dh else no_group);
    }
    ∷ build_esp_from (index + 1) rest spi include_dh

unfoldable pub build_esp : List ChildProposal → ℕ → Bool → List Proposal
build_esp proposals spi include_dh = build_esp_from 0 proposals spi include_dh

-- `transforms.iter().any(|transform| transform.transform_type == kind && transform.id == value)`
unfoldable pub offers : ℕ → ℕ → List Transform → Bool
offers kind value transforms = any (λ t. t.transform_type == kind && t.id == value) transforms

unfoldable pub offers_encryption : EncryptionAlgorithm → List Transform → Bool
offers_encryption encryption transforms =
    any
      (λ t.
        if not (t.transform_type == encr_transform) || not (t.id == encryption_id encryption)
        then false
        else if encryption_id encryption == 12 || encryption_id encryption == 20
        then option_eq (find_key_length t.attributes) (key_len_bits encryption)
        else true)
      transforms

abbrev pub offers_prf : Option PrfAlgorithm → List Transform → Bool
offers_prf none transforms = true
offers_prf (some prf) transforms = offers prf_transform (prf_id prf) transforms

-- The chain of early returns.
unfoldable pub transform_offer_matches :
    List Transform → EncryptionAlgorithm → Option PrfAlgorithm → IntegrityAlgorithm → DhGroup → Bool
transform_offer_matches transforms encryption prf integrity dh =
    if not (offers_encryption encryption transforms)
    then false
    else if not (offers_prf prf transforms)
    then false
    else if not (is_no_integrity integrity)
        && not (offers integ_transform (integrity_id integrity) transforms)
    then false
    else if is_no_integrity integrity && not (is_aead encryption)
    then false
    else if not (is_no_group dh) && not (offers dh_transform (dh_id dh) transforms)
    then false
    else is_no_group dh || offers dh_transform (dh_id dh) transforms

unfoldable pub esn_offer_matches : List Transform → Bool → Bool
esn_offer_matches transforms esn =
    any (λ t. t.transform_type == esn_transform && bool_eq (t.id == 1) esn) transforms

abbrev pub chosen {ℓ} :
    {A : Type ℓ} → Option A → ℕ → Outcome IpsecErrorKind (A × ℕ) → Outcome IpsecErrorKind (A × ℕ)
chosen none number later = later
chosen (some candidate) number later = ok (candidate, number)

abbrev pub ike_matches : Proposal → IkeProposal → Bool
ike_matches offer c =
    transform_offer_matches offer.transforms c.encryption (some c.prf) c.integrity c.dh

unfoldable pub select_ike :
    List IkeProposal → List Proposal → Outcome IpsecErrorKind (IkeProposal × ℕ)
select_ike configured [] = err proposal
select_ike configured (offer ∷ rest) =
    let later = select_ike configured rest in
    if not (offer.protocol == ike_protocol)
    then later
    else chosen (find (ike_matches offer) configured) offer.number later

abbrev pub esp_matches : Bool → Proposal → ChildProposal → Bool
esp_matches include_dh offer c =
    transform_offer_matches offer.transforms c.encryption none c.integrity
      (if include_dh then c.dh else no_group)
    && esn_offer_matches offer.transforms c.esn

-- `candidate.dh = DhGroup::None` without a DH exchange.
abbrev pub without_dh : Bool → ChildProposal → ChildProposal
without_dh true c = c
without_dh false c = record c { dh = no_group }

unfoldable pub select_esp_with_dh :
    List ChildProposal → List Proposal → Bool → Outcome IpsecErrorKind (ChildProposal × ℕ)
select_esp_with_dh configured [] include_dh = err proposal
select_esp_with_dh configured (offer ∷ rest) include_dh =
    let later = select_esp_with_dh configured rest include_dh in
    if not (offer.protocol == esp_protocol)
    then later
    else elim (find (esp_matches include_dh offer) configured) [
      | none ↦ later
      | some candidate ↦ ok (without_dh include_dh candidate, offer.number)
    ]

unfoldable pub select_esp :
    List ChildProposal → List Proposal → Outcome IpsecErrorKind (ChildProposal × ℕ)
select_esp configured received = select_esp_with_dh configured received true

unfoldable pub select_esp_initial :
    List ChildProposal → List Proposal → Outcome IpsecErrorKind (ChildProposal × ℕ)
select_esp_initial configured received = select_esp_with_dh configured received false
