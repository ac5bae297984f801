-- ===== src/Ike/Keys.antt =====
-- Key derivation of ipsec/ikev2/sa.rs: the keys of an IKE SA and of a Child SA, and which of them
-- each role uses. A `Zeroizing<Vec<u8>>` is a list of bytes.
pub mod Derive
use shuli.Base.{
  ℕ, ◌+◌, ◌*◌, ◌^◌, Bool, true, false, Option, none, some, List, [], ◌++◌, if◌then◌else◌,
}
use shuli.Base.Outcome.{Outcome, ok, ◌>>=◌}
use shuli.Base.Bytes.{slice, slice_to, be64}
use shuli.Ike.Types.{IpsecErrorKind}
use shuli.Ike.Algorithm.{
  EncryptionAlgorithm, PrfAlgorithm, IntegrityAlgorithm, is_no_integrity, encryption_key_len,
  salt_len, prf_key_len, integrity_key_len,
}
use shuli.Ike.Crypto.{Primitives, prf, prf_plus}

pub data Role : Type 0 where
  initiator responder : Role

unfoldable pub is_initiator : Role → Bool
is_initiator initiator = true
is_initiator responder = false

pub record IkeKeys : Type 0 where
  pub sk_d : List ℕ
  pub sk_ai : List ℕ
  pub sk_ar : List ℕ
  pub sk_ei : List ℕ
  pub sk_er : List ℕ
  pub sk_pi : List ℕ
  pub sk_pr : List ℕ

unfoldable pub outbound_encryption : IkeKeys → Role → List ℕ
outbound_encryption keys role = if is_initiator role then keys.sk_ei else keys.sk_er

unfoldable pub inbound_encryption : IkeKeys → Role → List ℕ
inbound_encryption keys role = if is_initiator role then keys.sk_er else keys.sk_ei

unfoldable pub outbound_integrity : IkeKeys → Role → List ℕ
outbound_integrity keys role = if is_initiator role then keys.sk_ai else keys.sk_ar

unfoldable pub inbound_integrity : IkeKeys → Role → List ℕ
inbound_integrity keys role = if is_initiator role then keys.sk_ar else keys.sk_ai

-- The key fields of `ChildSaHandle`; the others are passed through.
pub record ChildKeys : Type 0 where
  pub local_spi : ℕ
  pub remote_spi : ℕ
  pub encryption : EncryptionAlgorithm
  pub integrity : Option IntegrityAlgorithm
  pub esn : Bool
  pub outbound_key : List ℕ
  pub outbound_integrity_key : Option (List ℕ)
  pub inbound_key : List ℕ
  pub inbound_integrity_key : Option (List ℕ)

-- `(integrity != IntegrityAlgorithm::None).then_some(key)`
abbrev pub some_unless_none {ℓ} : {A : Type ℓ} → IntegrityAlgorithm → A → Option A
some_unless_none algorithm a = if is_no_integrity algorithm then none else some a

abbrev pub optional_octets : Option (List ℕ) → List ℕ
optional_octets none = []
optional_octets (some octets) = octets

-- The keys one after another, as the closure `take` of `IkeKeys::derive` cuts them off.
unfoldable pub split_keys : ℕ → ℕ → ℕ → List ℕ → Outcome IpsecErrorKind IkeKeys
split_keys p a e material = do
  sk_d ← slice material 0 p
  sk_ai ← slice material p (p + a)
  sk_ar ← slice material (p + a) (p + a + a)
  sk_ei ← slice material (p + a + a) (p + a + a + e)
  sk_er ← slice material (p + a + a + e) (p + a + a + e + e)
  sk_pi ← slice material (p + a + a + e + e) (p + a + a + e + e + p)
  sk_pr ← slice material (p + a + a + e + e + p) (p + a + a + e + e + p + p)
  ok (record {
    sk_d = sk_d;
    sk_ai = sk_ai;
    sk_ar = sk_ar;
    sk_ei = sk_ei;
    sk_er = sk_er;
    sk_pi = sk_pi;
    sk_pr = sk_pr;
  })

-- `encryption_i`, `encryption_r`, `integrity_i` and `integrity_r` of `derive_child_keys`.
unfoldable pub split_child_keys :
    ℕ → ℕ → List ℕ → Outcome IpsecErrorKind (List ℕ × List ℕ × List ℕ × List ℕ)
split_child_keys e a material = do
  encryption_i ← slice_to material e
  encryption_r ← slice material e (e * 2)
  integrity_i ← slice material (e * 2) (e * 2 + a)
  integrity_r ← slice material (e * 2 + a) (e * 2 + a * 2)
  ok (encryption_i, encryption_r, integrity_i, integrity_r)

-- The `Ok(ChildSaHandle { .. })` that ends `derive_child_keys`, with the keys each role uses.
unfoldable pub child_keys :
    Role
    → EncryptionAlgorithm
    → IntegrityAlgorithm
    → ℕ
    → ℕ
    → Bool
    → List ℕ × List ℕ × List ℕ × List ℕ
    → ChildKeys
child_keys role encryption integrity local_spi remote_spi esn (ei, er, ai, ar) =
    let out = is_initiator role in
    record {
      local_spi = local_spi;
      remote_spi = remote_spi;
      encryption = encryption;
      integrity = some_unless_none integrity integrity;
      esn = esn;
      outbound_key = if out then ei else er;
      outbound_integrity_key = some_unless_none integrity (if out then ai else ar);
      inbound_key = if out then er else ei;
      inbound_integrity_key = some_unless_none integrity (if out then ar else ai);
    }

module _ (c : Primitives) where
  unfoldable pub derive :
      PrfAlgorithm
      → List ℕ
      → List ℕ
      → List ℕ
      → ℕ
      → ℕ
      → EncryptionAlgorithm
      → IntegrityAlgorithm
      → Outcome IpsecErrorKind IkeKeys
  derive algorithm shared_secret nonce_i nonce_r spi_i spi_r encryption integrity = do
    let seed = nonce_i ++ (nonce_r ++ (be64 spi_i ++ be64 spi_r))
    let skeyseed = prf c algorithm (nonce_i ++ nonce_r) shared_secret
    let prf_len = prf_key_len algorithm
    let enc_len = encryption_key_len encryption + salt_len encryption
    let integ_len = integrity_key_len integrity
    material ← prf_plus c algorithm skeyseed seed (prf_len * 3 + enc_len * 2 + integ_len * 2)
    split_keys prf_len integ_len enc_len material

  unfoldable pub derive_child_keys :
      PrfAlgorithm
      → List ℕ
      → List ℕ
      → List ℕ
      → Option (List ℕ)
      → Role
      → EncryptionAlgorithm
      → IntegrityAlgorithm
      → ℕ
      → ℕ
      → Bool
      → Outcome IpsecErrorKind ChildKeys
  derive_child_keys algorithm sk_d nonce_i nonce_r dh_shared role encryption integrity local_spi
        remote_spi esn =
      do
        let seed = optional_octets dh_shared ++ (nonce_i ++ nonce_r)
        let e = encryption_key_len encryption + salt_len encryption
        let a = integrity_key_len integrity
        material ← prf_plus c algorithm sk_d seed (e * 2 + a * 2)
        keys ← split_child_keys e a material
        ok (child_keys role encryption integrity local_spi remote_spi esn keys)
