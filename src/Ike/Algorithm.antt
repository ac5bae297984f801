-- ===== src/Ike/Algorithm.antt =====
-- The algorithms of ipsec/config.rs and its two kinds of proposal.
use shuli.Base.{ℕ, Bool, true, false, Option, none, some, ◌==◌, if◌then◌else◌}

pub data EncryptionAlgorithm : Type 0 where
  aes_cbc128 aes_cbc192 aes_cbc256 aes_gcm16_128 aes_gcm16_256 : EncryptionAlgorithm

pub data PrfAlgorithm : Type 0 where
  hmac_sha1 hmac_sha2_256 : PrfAlgorithm

pub data IntegrityAlgorithm : Type 0 where
  no_integrity hmac_sha1_96 hmac_sha2_256_128 : IntegrityAlgorithm

pub data DhGroup : Type 0 where
  no_group modp2048 ecp256 ecp384 x25519 : DhGroup

unfoldable pub encryption_id : EncryptionAlgorithm → ℕ
encryption_id aes_cbc128 = 12
encryption_id aes_cbc192 = 12
encryption_id aes_cbc256 = 12
encryption_id aes_gcm16_128 = 20
encryption_id aes_gcm16_256 = 20

unfoldable pub encryption_key_len : EncryptionAlgorithm → ℕ
encryption_key_len aes_cbc128 = 16
encryption_key_len aes_gcm16_128 = 16
encryption_key_len aes_cbc192 = 24
encryption_key_len aes_cbc256 = 32
encryption_key_len aes_gcm16_256 = 32

unfoldable pub key_len_bits : EncryptionAlgorithm → Option ℕ
key_len_bits aes_cbc128 = some 128
key_len_bits aes_gcm16_128 = some 128
key_len_bits aes_cbc192 = some 192
key_len_bits aes_cbc256 = some 256
key_len_bits aes_gcm16_256 = some 256

unfoldable pub is_aead : EncryptionAlgorithm → Bool
is_aead aes_gcm16_128 = true
is_aead aes_gcm16_256 = true
is_aead _ = false

unfoldable pub iv_len : EncryptionAlgorithm → ℕ
iv_len encryption = if is_aead encryption then 8 else 16

unfoldable pub salt_len : EncryptionAlgorithm → ℕ
salt_len encryption = if is_aead encryption then 4 else 0

unfoldable pub block_len : EncryptionAlgorithm → ℕ
block_len encryption = 16

unfoldable pub prf_id : PrfAlgorithm → ℕ
prf_id hmac_sha1 = 2
prf_id hmac_sha2_256 = 5

unfoldable pub prf_key_len : PrfAlgorithm → ℕ
prf_key_len hmac_sha1 = 20
prf_key_len hmac_sha2_256 = 32

unfoldable pub integrity_id : IntegrityAlgorithm → ℕ
integrity_id no_integrity = 0
integrity_id hmac_sha1_96 = 2
integrity_id hmac_sha2_256_128 = 12

unfoldable pub output_len : IntegrityAlgorithm → ℕ
output_len no_integrity = 0
output_len hmac_sha1_96 = 12
output_len hmac_sha2_256_128 = 16

unfoldable pub integrity_key_len : IntegrityAlgorithm → ℕ
integrity_key_len no_integrity = 0
integrity_key_len hmac_sha1_96 = 20
integrity_key_len hmac_sha2_256_128 = 32

unfoldable pub dh_id : DhGroup → ℕ
dh_id no_group = 0
dh_id modp2048 = 14
dh_id ecp256 = 19
dh_id ecp384 = 20
dh_id x25519 = 31

unfoldable pub dh_from_id : ℕ → Option DhGroup
dh_from_id value =
    if value == 0
    then some no_group
    else if value == 14
    then some modp2048
    else if value == 19
    then some ecp256
    else if value == 20
    then some ecp384
    else if value == 31
    then some x25519
    else none

-- `integrity == IntegrityAlgorithm::None` and `dh == DhGroup::None`
abbrev pub is_no_integrity : IntegrityAlgorithm → Bool
is_no_integrity no_integrity = true
is_no_integrity _ = false

abbrev pub is_no_group : DhGroup → Bool
is_no_group no_group = true
is_no_group _ = false

pub record IkeProposal : Type 0 where
  pub encryption : EncryptionAlgorithm
  pub prf : PrfAlgorithm
  pub integrity : IntegrityAlgorithm
  pub dh : DhGroup

pub record ChildProposal : Type 0 where
  pub encryption : EncryptionAlgorithm
  pub integrity : IntegrityAlgorithm
  pub esn : Bool
  pub dh : DhGroup

-- `==` on bool
abbrev pub bool_eq : Bool → Bool → Bool
bool_eq true b = b
bool_eq false true = false
bool_eq false false = true

-- `IkeProposal::is_valid` and `ChildProposal::is_valid`
unfoldable pub ike_is_valid : IkeProposal → Bool
ike_is_valid p = bool_eq (is_aead p.encryption) (is_no_integrity p.integrity)

unfoldable pub child_is_valid : ChildProposal → Bool
child_is_valid p = bool_eq (is_aead p.encryption) (is_no_integrity p.integrity)
