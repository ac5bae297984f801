-- ===== src/Ike/Crypto.antt =====
-- The wrappers of ipsec/ikev2/crypto.rs over the crates `ring`, `cbc`/`aes` and `getrandom`. What
-- those crates compute is the parameter `Primitives`.
pub mod Laws
pub mod PrfPlus
use shuli.Base.{
  bytes_eq, ℕ, zero, suc, ◌+◌, ◌-◌, ◌%◌, ◌^◌, min, Bool, true, false, not, Option, none, some, List,
  [], ◌∷◌, ◌++◌, length, take, ltb, ◌&&◌, ◌||◌, ◌==◌, if◌then◌else◌,
}
use shuli.Base.Outcome.{Outcome, ok, err, out_of_fuel, refuse_if, ◌>>=◌, ◌>>◌}
use shuli.Base.Bytes.{slice, slice_to, slice_from}
use shuli.Ike.Types.{IpsecErrorKind, ike, internal, authentication}
use shuli.Ike.Algorithm.{
  EncryptionAlgorithm, PrfAlgorithm, IntegrityAlgorithm, hmac_sha1, hmac_sha2_256, no_integrity,
  hmac_sha1_96, hmac_sha2_256_128, aes_cbc128, aes_cbc192, aes_cbc256, aes_gcm16_128, aes_gcm16_256,
  is_aead, encryption_key_len,
}

-- `hmac::sign` under SHA-1 or SHA-256; `seal_in_place_append_tag` and `open_in_place` of an AEAD
-- key, nonce, associated data and text; `encrypt_padded` and `decrypt_padded` of AES-CBC, `none`
-- where the crate reports an error; and `getrandom::fill`.
pub record Primitives : Type 0 where
  pub hmac : PrfAlgorithm → List ℕ → List ℕ → List ℕ
  pub aead_seal : EncryptionAlgorithm → List ℕ → List ℕ → List ℕ → List ℕ → Option (List ℕ)
  pub aead_open : EncryptionAlgorithm → List ℕ → List ℕ → List ℕ → List ℕ → Option (List ℕ)
  pub cbc_encrypt : EncryptionAlgorithm → List ℕ → List ℕ → List ℕ → Option (List ℕ)
  pub cbc_decrypt : EncryptionAlgorithm → List ℕ → List ℕ → List ℕ → Option (List ℕ)
  pub random : ℕ → Option (List ℕ)

abbrev pub or_error : Option (List ℕ) → IpsecErrorKind → Outcome IpsecErrorKind (List ℕ)
or_error none e = err e
or_error (some xs) e = ok xs

-- The hash behind an integrity algorithm, and the length that its tag is cut to.
abbrev pub integrity_hash : IntegrityAlgorithm → Option (PrfAlgorithm × ℕ)
integrity_hash hmac_sha1_96 = some (hmac_sha1, 12)
integrity_hash hmac_sha2_256_128 = some (hmac_sha2_256, 16)
integrity_hash no_integrity = none

module _ (c : Primitives) where
  unfoldable pub random_bytes : ℕ → Outcome IpsecErrorKind (List ℕ)
  random_bytes n = or_error (c.random n) internal

  unfoldable pub prf : PrfAlgorithm → List ℕ → List ℕ → List ℕ
  prf algorithm key octets = c.hmac algorithm key octets

  -- `while output.len() < output_len`, with the octets so far, the last block and the counter.
  unfoldable pub prf_plus_loop :
      ℕ → PrfAlgorithm → List ℕ → List ℕ → ℕ → List ℕ → List ℕ → ℕ → Outcome IpsecErrorKind (List ℕ)
  prf_plus_loop zero algorithm key seed output_len output previous counter = out_of_fuel
  prf_plus_loop (suc fuel) algorithm key seed output_len output previous counter =
      let block = prf algorithm key (previous ++ (seed ++ (counter ∷ []))) in
      let more = (do
        part ← slice_to block (min (output_len - length output) (length block))
        prf_plus_loop fuel algorithm key seed output_len (output ++ part) block
            ((counter + 1) % 2 ^ 8)) in
      if ltb (length output) output_len then more else ok output

  -- Each round adds an octet or more.
  unfoldable pub prf_plus : PrfAlgorithm → List ℕ → List ℕ → ℕ → Outcome IpsecErrorKind (List ℕ)
  prf_plus algorithm key seed output_len =
      prf_plus_loop (suc output_len) algorithm key seed output_len [] [] 1

  unfoldable pub integrity : IntegrityAlgorithm → List ℕ → List ℕ → Outcome IpsecErrorKind (List ℕ)
  integrity algorithm key octets = elim (integrity_hash algorithm) [
    | none ↦ err internal
    | some (hash, len) ↦ let tag = c.hmac hash key octets in slice_to tag (min len (length tag))
  ]

  unfoldable pub verify_integrity :
      IntegrityAlgorithm → List ℕ → List ℕ → List ℕ → Outcome IpsecErrorKind (Unit {0})
  verify_integrity algorithm key octets expected = do
    actual ← integrity algorithm key octets
    refuse_if (not (length actual == length expected && bytes_eq actual expected)) authentication

  -- The `match algorithm` refuses what is no AEAD.
  unfoldable pub encrypt_gcm :
      EncryptionAlgorithm → List ℕ → List ℕ → List ℕ → List ℕ → Outcome IpsecErrorKind (List ℕ)
  encrypt_gcm algorithm key_salt iv plaintext aad = do
    key ← slice_to key_salt (encryption_key_len algorithm)
    salt ← slice_from key_salt (encryption_key_len algorithm)
    refuse_if (not (length salt == 4) || not (length iv == 8)) internal
    refuse_if (not (is_aead algorithm)) internal
    or_error (c.aead_seal algorithm key (salt ++ iv) aad plaintext) internal

  unfoldable pub decrypt_gcm :
      EncryptionAlgorithm → List ℕ → List ℕ → List ℕ → List ℕ → Outcome IpsecErrorKind (List ℕ)
  decrypt_gcm algorithm key_salt iv ciphertext aad = do
    key ← slice_to key_salt (encryption_key_len algorithm)
    salt ← slice_from key_salt (encryption_key_len algorithm)
    refuse_if (not (length salt == 4) || not (length iv == 8)) internal
    refuse_if (not (is_aead algorithm)) internal
    or_error (c.aead_open algorithm key (salt ++ iv) aad ciphertext) authentication

  -- The key must have the algorithm's length, and AES-GCM is refused.
  unfoldable pub encrypt_cbc :
      EncryptionAlgorithm → List ℕ → List ℕ → List ℕ → Outcome IpsecErrorKind (List ℕ)
  encrypt_cbc algorithm key iv plaintext = do
    refuse_if (not (length plaintext % 16 == 0)) internal
    refuse_if (not (length iv == 16)) internal
    refuse_if (is_aead algorithm || not (length key == encryption_key_len algorithm)) internal
    or_error (c.cbc_encrypt algorithm key iv plaintext) internal

  unfoldable pub decrypt_cbc :
      EncryptionAlgorithm → List ℕ → List ℕ → List ℕ → Outcome IpsecErrorKind (List ℕ)
  decrypt_cbc algorithm key iv ciphertext = do
    refuse_if (not (length ciphertext % 16 == 0) || length ciphertext == 0) ike
    refuse_if (not (length iv == 16)) internal
    refuse_if (is_aead algorithm || not (length key == encryption_key_len algorithm)) internal
    or_error (c.cbc_decrypt algorithm key iv ciphertext) authentication

  unfoldable pub encrypt :
      EncryptionAlgorithm → List ℕ → List ℕ → List ℕ → List ℕ → Outcome IpsecErrorKind (List ℕ)
  encrypt algorithm key iv plaintext aad =
      if is_aead algorithm
      then encrypt_gcm algorithm key iv plaintext aad
      else encrypt_cbc algorithm key iv plaintext

  unfoldable pub decrypt :
      EncryptionAlgorithm → List ℕ → List ℕ → List ℕ → List ℕ → Outcome IpsecErrorKind (List ℕ)
  decrypt algorithm key iv ciphertext aad =
      if is_aead algorithm
      then decrypt_gcm algorithm key iv ciphertext aad
      else decrypt_cbc algorithm key iv ciphertext
