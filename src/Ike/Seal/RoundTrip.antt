-- ===== src/Ike/Seal/RoundTrip.antt =====
-- A peer with the same keys opens what `seal_message` sealed.
use shuli.Base.{
  ℕ, ◌+◌, ◌-◌, ◌/◌, ◌≤◌, ◌≡◌, refl, some, List, [], ◌∷◌, ◌++◌, arith, length, All, length-append,
  append_assoc, append-nil, Bool-cases, inl, inr,
}
use shuli.Base.Outcome.{ok}
use shuli.Base.Bytes.{IsU32, IsU64, as_u32, slice_to-append, slice_from-append}
use shuli.Ike.Types.{IkeHeader, Payload, encrypted, sk_payload, ike_header_len}
use shuli.Ike.Algorithm.{
  EncryptionAlgorithm, IntegrityAlgorithm, no_integrity, hmac_sha1_96, hmac_sha2_256_128,
  is_no_integrity, iv_len, salt_len, encryption_key_len, output_len,
}
use shuli.Ike.Header
use shuli.Ike.Payload.{decode_payload}
use shuli.Ike.Chain.{first_type, encode_chain, decode_chain, decode_chain_loop}
use shuli.Ike.Chain.RoundTrip.{IsChained, decode_chain-encode_chain, split_payload-octets}
use shuli.Ike.Message
use shuli.Ike.Message.RoundTrip.{decode-octets, length-encode}
use shuli.Ike.Crypto.{Primitives, random_bytes, encrypt, decrypt}
use shuli.Ike.Crypto.Laws.{Documented, verify_integrity_iff, length-integrity, decrypt-encrypt}
use shuli.Ike.Seal.{
  pad, ciphertext_len, sk_header, icv_of, seal_message, check_icv, open_octets, open_message,
}
use shuli.Ike.Seal.Padding.{length-pad, pad_blocks, unpad-pad}

-- A chain of one SK payload is decoded to it, with the next type that its header names.
decode_chain-sk :
    (next : ℕ) (body : List ℕ)
    → 4 + length body ≤ 65535
    → decode_chain sk_payload (sk_header next (4 + length body) ++ body)
      ≡ ok (encrypted next body ∷ [])
unfolding decode_chain decode_chain_loop decode_payload
decode_chain-sk next body h = ground (arith, split_payload-octets next body [] h, append-nil body)

module _ (c : Primitives) (header : IkeHeader) (next : ℕ) (algorithm : IntegrityAlgorithm)
    (key_a : List ℕ) where
  -- The ICV that the sender computed is accepted.
  check_icv-icv_of :
      (body icv : List ℕ)
      → length icv ≡ output_len algorithm
      → icv_of c algorithm key_a
          (Header.encode header ++ (sk_header next (4 + length (body ++ icv)) ++ body))
        ≡ ok icv
      → check_icv c header next (body ++ icv) algorithm key_a ≡ ok tt
  unfolding check_icv icv_of
  check_icv-icv_of body icv len e = elim (Bool-cases (is_no_integrity algorithm)) [
    | inl n ↦ rw n
    | inr n ↦
        let cut : length (body ++ icv) - output_len algorithm ≡ length body =
          omega (arith, length-append body icv) in
        rw (n, cut, slice_to-append body icv, slice_from-append body icv)
          ((verify_integrity_iff c algorithm key_a _ icv).0 (rw n at e))
  ]

  open_octets-sealed :
      (encryption : EncryptionAlgorithm) (key_e iv sealed icv chain : List ℕ) (ps : List Payload)
      → length iv ≡ iv_len encryption
      → length icv ≡ output_len algorithm
      → icv_of c algorithm key_a (
          Header.encode header
          ++ (sk_header next (4 + length ((iv ++ sealed) ++ icv)) ++ (iv ++ sealed)))
        ≡ ok icv
      → decrypt c encryption key_e iv sealed (Header.encode header) ≡ ok (pad encryption chain)
      → decode_chain next chain ≡ ok ps
      → open_octets c header next ((iv ++ sealed) ++ icv) encryption algorithm key_e key_a ≡ ok ps
  unfolding open_octets
  open_octets-sealed encryption key_e iv sealed icv chain ps li lc ei ed ec =
      let check = check_icv-icv_of (iv ++ sealed) icv lc ei in
      let cut : length (sealed ++ icv) - output_len algorithm ≡ length sealed =
        omega (arith, length-append sealed icv) in
      rw (check, append_assoc iv sealed icv, ← li)
        (rw
          (
            slice_to-append iv (sealed ++ icv),
            slice_from-append iv (sealed ++ icv),
            cut,
            slice_to-append sealed icv,
            ed,
            unpad-pad encryption chain,
            ec,
          )
          (ground (arith, length-append iv (sealed ++ icv), length-append sealed icv)))

-- The ICV of a message: none, or of its algorithm's length.
length-icv_of :
    (c : Primitives)
    → Documented c
    → (a : IntegrityAlgorithm) (key message : List ℕ)
    → (icv : List ℕ) × (icv_of c a key message ≡ ok icv) × (length icv ≡ output_len a)
unfolding icv_of output_len
length-icv_of c d no_integrity key message = ([], refl, refl)
length-icv_of c d hmac_sha1_96 key message = length-integrity c d hmac_sha1_96 key message (λ e. cc)
length-icv_of c d hmac_sha2_256_128 key message =
    length-integrity c d hmac_sha2_256_128 key message (λ e. cc)

-- The octets of an SK payload for so many octets of plaintext.
abbrev pub sealed_len : EncryptionAlgorithm → IntegrityAlgorithm → ℕ → ℕ
sealed_len e a plaintext_len = iv_len e + ciphertext_len e plaintext_len + output_len a

length-sealed :
    (h : IkeHeader) (next len : ℕ) (body icv : List ℕ)
    → length ((Header.encode h ++ (sk_header next len ++ body)) ++ icv) ≡ 32 + length (body ++ icv)
length-sealed h next len body icv = omega (
  arith,
  length-append (Header.encode h ++ (sk_header next len ++ body)) icv,
  length-encode h (sk_header next len ++ body),
  length-append body icv,
)

-- What the receiver of a sealed message sees: a header, and the SK payload that it opens.
pub record Opened (c : Primitives) (payloads : List Payload) (e : EncryptionAlgorithm)
    (a : IntegrityAlgorithm) (key_e key_a wire : List ℕ) : Type 0 where
  pub header : IkeHeader
  pub next : ℕ
  pub octets : List ℕ
  pub received :
      Message.decode wire ≡ ok (record { header = header; payloads = encrypted next octets ∷ [] })
  pub opens : open_message c header (encrypted next octets) e a key_e key_a ≡ ok payloads

module _ (c : Primitives) (d : Documented c) (plain : IkeHeader) (payloads : List Payload)
    (e : EncryptionAlgorithm) (a : IntegrityAlgorithm) (key_e key_a iv : List ℕ) where
  -- The header and the message up to the ICV, for an SK payload of `len` octets.
  abbrev sealed_header : ℕ → IkeHeader
  sealed_header len = record plain { next_payload = sk_payload; length = as_u32 (32 + len) }

  abbrev unsigned : ℕ → List ℕ → List ℕ
  unsigned len body =
      Header.encode (sealed_header len) ++ (sk_header (first_type payloads) (4 + len) ++ body)

  module _ (chain sealed icv : List ℕ) (len : ℕ) (lv : length iv ≡ iv_len e)
      (li : length icv ≡ output_len a)
      (ls : length sealed ≡ ciphertext_len e (length (pad e chain)))
      (whole : len ≡ sealed_len e a (length (pad e chain)))
      (ei : icv_of c a key_a (unsigned len (iv ++ sealed)) ≡ ok icv) where
    length-body : length ((iv ++ sealed) ++ icv) ≡ len
    length-body = omega (arith, length-append (iv ++ sealed) icv, length-append iv sealed)

    seal_message-octets :
        encode_chain payloads ≡ ok chain
        → c.random (iv_len e) ≡ some iv
        → encrypt c e key_e iv (pad e chain) (Header.encode (sealed_header len)) ≡ ok sealed
        → seal_message c plain payloads e a key_e key_a ≡ ok (unsigned len (iv ++ sealed) ++ icv)
    unfolding seal_message random_bytes
    seal_message-octets ec er ee =
        let total : ike_header_len
              + 4
              + iv_len e
              + ciphertext_len e (length (pad e chain))
              + output_len a
            ≡ 32 + len =
          omega arith in
        let sk_len : 4 + length iv + length sealed + output_len a ≡ 4 + len = omega arith in
        rw (ec, er, total, ee, sk_len, ei)
          (ground (
            arith,
            length-body,
            length-sealed (sealed_header len) (first_type payloads) (4 + len) (iv ++ sealed) icv,
          ))

    opened :
        IsU64 plain.initiator_spi
        → IsU64 plain.responder_spi
        → IsU32 plain.message_id
        → plain.version / 16 ≡ 2
        → 4 + len ≤ 65535
        → decode_chain (first_type payloads) chain ≡ ok payloads
        → decrypt c e key_e iv sealed (Header.encode (sealed_header len)) ≡ ok (pad e chain)
        → Opened c payloads e a key_e key_a (unsigned len (iv ++ sealed) ++ icv)
    unfolding open_message
    opened spi_i spi_r mid v room dc ds =
        let next = first_type payloads in
        let body = (iv ++ sealed) ++ icv in
        let header = sealed_header len in
        let joined : unsigned len (iv ++ sealed) ++ icv
            ≡ Header.encode header ++ (sk_header next (4 + len) ++ body) =
          append_assoc (Header.encode header) (sk_header next (4 + len) ++ (iv ++ sealed)) icv in
        record {
          header = header;
          next = next;
          octets = body;
          received = rw joined (
              decode-octets header (sk_header next (4 + len) ++ body) (encrypted next body ∷ [])
                (record {
                  initiator_spi = spi_i;
                  responder_spi = spi_r;
                  message_id = mid;
                  length = omega arith;
                  version = v;
                  covers = omega arith;
                })
                (omega (arith, length-body))
                (rw (← length-body) (decode_chain-sk next body (omega (arith, length-body)))));
          opens =
              open_octets-sealed c header next a key_a e key_e iv sealed icv chain payloads lv li
                (rw length-body ei) ds dc;
        }

  -- Where the crates keep what they document, payloads that may stand in a chain are sealed under a
  -- version 2 header with u64 SPIs and a u32 message id, a key of the cipher's length and the IV
  -- that the random source gives, if the SK payload fits its length field; the message is received
  -- as one SK payload, which the same keys open to the payloads.
  pub open_message-seal_message :
      All IsChained payloads
      → IsU64 plain.initiator_spi
      → IsU64 plain.responder_spi
      → IsU32 plain.message_id
      → plain.version / 16 ≡ 2
      → length key_e ≡ encryption_key_len e + salt_len e
      → c.random (iv_len e) ≡ some iv
      → ((chain : List ℕ)
          → encode_chain payloads ≡ ok chain
          → 4 + sealed_len e a (length (pad e chain)) ≤ 65535)
      → (wire : List ℕ) × (seal_message c plain payloads e a key_e key_a ≡ ok wire)
        × Opened c payloads e a key_e key_a wire
  open_message-seal_message w spi_i spi_r mid v hk er fits =
      let (chain, ec, dc) = decode_chain-encode_chain payloads w in
      let lv = d.random_len (iv_len e) iv er in
      let len = sealed_len e a (length (pad e chain)) in
      let (sealed, ee, ls, ds) =
        decrypt-encrypt c d e key_e iv (pad e chain) (Header.encode (sealed_header len)) hk lv
          (omega (arith, length-pad e chain)) (pad_blocks e chain) in
      let ls' : length sealed ≡ ciphertext_len e (length (pad e chain)) =
        unfold ciphertext_len in ls in
      let (icv, ei, li) = length-icv_of c d a key_a (unsigned len (iv ++ sealed)) in
      (
        unsigned len (iv ++ sealed) ++ icv,
        seal_message-octets chain sealed icv len lv li ls' refl ei ec er ee,
        opened chain sealed icv len lv li ls' refl ei spi_i spi_r mid v (fits chain ec) dc ds,
      )
