-- ===== src/Ike/Crypto/Laws.antt =====
-- What the wrappers give where the crates keep what they document.
use shuli.Base.{
  bytes_eq_refl, bytes_eq→eq, ℕ, ◌+◌, ◌%◌, ◌<◌, ◌≡◌, ◌≢◌, refl, true, false, some, List, ◌++◌,
  arith, length, take, drop, length-append, length-take, length-drop, if◌then◌else◌, Bool-cases,
  inl, inr, ap,
}
use shuli.Base.Outcome.{ok, >>=-eq-ok}
use shuli.Base.Bytes.{slice_to, slice_from}
use shuli.Ike.Algorithm.{
  EncryptionAlgorithm, PrfAlgorithm, IntegrityAlgorithm, no_integrity, hmac_sha1, hmac_sha2_256,
  hmac_sha1_96, hmac_sha2_256_128, is_aead, encryption_key_len, salt_len, iv_len, prf_key_len,
  output_len,
}
use shuli.Ike.Crypto.{
  Primitives, integrity, verify_integrity, encrypt_gcm, decrypt_gcm, encrypt_cbc, decrypt_cbc,
  encrypt, decrypt,
}

-- The documented behaviour of the crates: HMAC tags have the hash's length; with a key and nonce
-- of the right lengths AES-GCM seals, adds a tag of 16 octets, and opens what it sealed; with a
-- key, an IV and a text of whole blocks AES-CBC encrypts, keeps the length and decrypts; and a
-- buffer is filled whole.
pub record Documented (c : Primitives) : Type 0 where
  pub hmac_len :
      (a : PrfAlgorithm) (key octets : List ℕ) → length (c.hmac a key octets) ≡ prf_key_len a
  pub aead :
      (a : EncryptionAlgorithm) (key nonce aad text : List ℕ)
      → is_aead a ≡ true
      → length key ≡ encryption_key_len a
      → length nonce ≡ 12
      → (sealed : List ℕ) × (c.aead_seal a key nonce aad text ≡ some sealed)
        × (length sealed ≡ length text + 16)
        × (c.aead_open a key nonce aad sealed ≡ some text)
  pub cbc :
      (a : EncryptionAlgorithm) (key iv text : List ℕ)
      → is_aead a ≡ false
      → length key ≡ encryption_key_len a
      → length iv ≡ 16
      → length text % 16 ≡ 0
      → (sealed : List ℕ) × (c.cbc_encrypt a key iv text ≡ some sealed)
        × (length sealed ≡ length text)
        × (c.cbc_decrypt a key iv sealed ≡ some text)
  pub random_len : (n : ℕ) (octets : List ℕ) → c.random n ≡ some octets → length octets ≡ n

module _ (c : Primitives) where
  -- An ICV is accepted exactly if it is the one that the key gives.
  pub verify_integrity_iff :
      (a : IntegrityAlgorithm) (key octets tag : List ℕ)
      → (integrity c a key octets ≡ ok tag → verify_integrity c a key octets tag ≡ ok tt)
        × (verify_integrity c a key octets tag ≡ ok tt → integrity c a key octets ≡ ok tag)
  unfolding verify_integrity
  verify_integrity_iff a key octets tag = (
    λ e. rw e (ground (arith, bytes_eq_refl tag)),
    λ e.
        let (actual, computed, same) = >>=-eq-ok (integrity c a key octets) _ e in
        rw computed (ap ok (bytes_eq→eq actual tag (ground arith))),
  )

  module _ (d : Documented c) where
    pub length-integrity :
        (a : IntegrityAlgorithm) (key octets : List ℕ)
        → a ≢ no_integrity
        → (tag : List ℕ) × (integrity c a key octets ≡ ok tag) × (length tag ≡ output_len a)
    unfolding integrity slice_to output_len prf_key_len
    length-integrity no_integrity key octets h = absurd (h refl)
    length-integrity hmac_sha1_96 key octets h =
        let tag = c.hmac hmac_sha1 key octets in
        (
          take 12 tag,
          ground (arith, d.hmac_len hmac_sha1 key octets),
          ground (arith, d.hmac_len hmac_sha1 key octets, length-take 12 tag),
        )
    length-integrity hmac_sha2_256_128 key octets h =
        let tag = c.hmac hmac_sha2_256 key octets in
        (
          take 16 tag,
          ground (arith, d.hmac_len hmac_sha2_256 key octets),
          ground (arith, d.hmac_len hmac_sha2_256 key octets, length-take 16 tag),
        )

    key_parts :
        (a : EncryptionAlgorithm) (key : List ℕ)
        → length key ≡ encryption_key_len a + salt_len a
        → is_aead a ≡ true
        → (length (take (encryption_key_len a) key) ≡ encryption_key_len a)
          × (length (drop (encryption_key_len a) key) ≡ 4)
    unfolding salt_len
    key_parts a key h e = (
      ground (arith, length-take (encryption_key_len a) key),
      ground (arith, length-drop (encryption_key_len a) key),
    )

    -- Where the crates keep what they document, a text that is not empty, and is of whole blocks
    -- unless the cipher is an AEAD, is encrypted under a key and an IV of the right lengths, to so
    -- many octets and a tag if it is an AEAD, and decrypted under them.
    pub decrypt-encrypt :
        (a : EncryptionAlgorithm) (key iv text aad : List ℕ)
        → length key ≡ encryption_key_len a + salt_len a
        → length iv ≡ iv_len a
        → 0 < length text
        → (is_aead a ≡ false → length text % 16 ≡ 0)
        → (sealed : List ℕ) × (encrypt c a key iv text aad ≡ ok sealed)
          × (length sealed ≡ (if is_aead a then length text + 16 else length text))
          × (decrypt c a key iv sealed aad ≡ ok text)
    unfolding encrypt decrypt encrypt_gcm decrypt_gcm encrypt_cbc decrypt_cbc iv_len salt_len
        slice_to slice_from
    decrypt-encrypt a key iv text aad hk hv ht hb = elim (Bool-cases (is_aead a)) [
      | inl e ↦
          let (klen, slen) = key_parts a key hk e in
          let k = take (encryption_key_len a) key in
          let salt = drop (encryption_key_len a) key in
          let (sealed, es, ls, os) =
            d.aead a k (salt ++ iv) aad text e klen (ground (arith, length-append salt iv)) in
          (sealed, ground arith, ground arith, ground arith)
      | inr e ↦
          let (sealed, es, ls, os) = d.cbc a key iv text e (ground arith) (ground arith) (hb e) in
          (sealed, ground arith, ground arith, ground arith)
    ]
