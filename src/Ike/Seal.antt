-- ===== src/Ike/Seal.antt =====
-- `seal_message` and `open_message` of ipsec/ikev2/sa.rs: the encrypted payload of an IKE message.
pub mod RoundTrip
pub mod Padding
pub mod Authentic
use shuli.Base.{
  ℕ, ◌+◌, ◌-◌, ◌%◌, Bool, true, false, not, Option, none, some, List, [], ◌∷◌, ◌++◌, length, take,
  replicate, ltb, ◌==◌, if◌then◌else◌,
}
use shuli.Base.Outcome.{Outcome, ok, err, refuse_if, ◌>>=◌, ◌>>◌}
use shuli.Base.Bytes.{slice_to, slice_from, be16, as_u16, as_u8, as_u32}
use shuli.Ike.Types.{
  IpsecErrorKind, ike, internal, IkeHeader, Payload, encrypted, sk_payload, ike_header_len,
}
use shuli.Ike.Algorithm.{
  EncryptionAlgorithm, IntegrityAlgorithm, is_aead, is_no_integrity, iv_len, block_len, output_len,
}
use shuli.Ike.Header
use shuli.Ike.Chain.{first_type, encode_chain, decode_chain}
use shuli.Ike.Crypto.{Primitives, random_bytes, integrity, verify_integrity, encrypt, decrypt}

-- The zeros that fill the plaintext and its length octet up to a block.
unfoldable pub padding_len : EncryptionAlgorithm → ℕ → ℕ
padding_len encryption plaintext_len =
    if is_aead encryption
    then 0
    else (block_len encryption - (plaintext_len + 1) % block_len encryption) % block_len encryption

unfoldable pub pad : EncryptionAlgorithm → List ℕ → List ℕ
pad encryption chain =
    let padding = padding_len encryption (length chain) in
    chain ++ (replicate padding 0 ++ (as_u8 padding ∷ []))

unfoldable pub ciphertext_len : EncryptionAlgorithm → ℕ → ℕ
ciphertext_len encryption plaintext_len =
    if is_aead encryption then plaintext_len + 16 else plaintext_len

-- `plaintext.last()`
abbrev pub last_octet : List ℕ → Option ℕ
last_octet [] = none
last_octet (x ∷ []) = some x
last_octet (x ∷ y ∷ xs) = last_octet (y ∷ xs)

abbrev pub or_empty : Option ℕ → Outcome IpsecErrorKind ℕ
or_empty none = err ike
or_empty (some n) = ok n

-- The padding length octet and the padding before it are taken off.
unfoldable pub unpad : List ℕ → Outcome IpsecErrorKind (List ℕ)
unpad plaintext = do
  padding ← or_empty (last_octet plaintext)
  refuse_if (ltb (length plaintext) (padding + 1)) ike
  slice_to plaintext (length plaintext - padding - 1)

-- The generic header of an SK payload of so many octets.
abbrev pub sk_header : ℕ → ℕ → List ℕ
sk_header next len = (next ∷ 0 ∷ []) ++ be16 (as_u16 len)

module _ (c : Primitives) where
  -- The ICV of a message, none under the algorithm NONE.
  unfoldable pub icv_of : IntegrityAlgorithm → List ℕ → List ℕ → Outcome IpsecErrorKind (List ℕ)
  icv_of algorithm key_a message =
      if is_no_integrity algorithm then ok [] else integrity c algorithm key_a message

  unfoldable pub seal_message :
      IkeHeader
      → List Payload
      → EncryptionAlgorithm
      → IntegrityAlgorithm
      → List ℕ
      → List ℕ
      → Outcome IpsecErrorKind (List ℕ)
  seal_message plain_header payloads encryption algorithm key_e key_a = do
    chain ← encode_chain payloads
    let plaintext = pad encryption chain
    let icv_len = output_len algorithm
    let total =
        ike_header_len
        + 4
        + iv_len encryption
        + ciphertext_len encryption (length plaintext)
        + icv_len
    let header = record plain_header { next_payload = sk_payload; length = as_u32 total }
    let aad = Header.encode header
    iv ← random_bytes c (iv_len encryption)
    ciphertext ← encrypt c encryption key_e iv plaintext aad
    let message =
        aad
        ++ (sk_header (first_type payloads) (4 + length iv + length ciphertext + icv_len)
            ++ (iv ++ ciphertext))
    icv ← icv_of algorithm key_a message
    refuse_if (not (length (message ++ icv) == total)) internal
    ok (message ++ icv)

  -- The check of the ICV, which covers the message up to the ICV itself.
  unfoldable pub check_icv :
      IkeHeader → ℕ → List ℕ → IntegrityAlgorithm → List ℕ → Outcome IpsecErrorKind (Unit {0})
  check_icv header next octets algorithm key_a = if is_no_integrity algorithm then ok tt else do
    let split = length octets - output_len algorithm
    body ← slice_to octets split
    icv ← slice_from octets split
    verify_integrity c algorithm key_a
        (Header.encode header ++ (sk_header next (4 + length octets) ++ body)) icv

  -- Behind the `let … else` that takes the encrypted payload apart.
  unfoldable pub open_octets :
      IkeHeader
      → ℕ
      → List ℕ
      → EncryptionAlgorithm
      → IntegrityAlgorithm
      → List ℕ
      → List ℕ
      → Outcome IpsecErrorKind (List Payload)
  open_octets header next octets encryption algorithm key_e key_a = do
    let icv_len = output_len algorithm
    refuse_if (ltb (length octets) (iv_len encryption + icv_len)) ike
    check_icv header next octets algorithm key_a
    iv ← slice_to octets (iv_len encryption)
    rest ← slice_from octets (iv_len encryption)
    ciphertext ← slice_to rest (length rest - icv_len)
    plaintext ← decrypt c encryption key_e iv ciphertext (Header.encode header)
    chain ← unpad plaintext
    decode_chain next chain

  unfoldable pub open_message :
      IkeHeader
      → Payload
      → EncryptionAlgorithm
      → IntegrityAlgorithm
      → List ℕ
      → List ℕ
      → Outcome IpsecErrorKind (List Payload)
  open_message header (encrypted next octets) encryption algorithm key_e key_a =
      open_octets header next octets encryption algorithm key_e key_a
  open_message header _ encryption algorithm key_e key_a = err ike
