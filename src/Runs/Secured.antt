-- ===== src/Runs/Secured.antt =====
-- Sealed messages and derived keys at concrete inputs, over cryptography that keeps lengths alone.
use shuli.Base.{
  ℕ, ◌+◌, ◌-◌, ◌≤◌, ◌≡◌, refl, true, false, none, some, List, [], ◌∷◌, ◌++◌, arith, length,
  replicate, take, length-append, length-replicate, take-length_append, ap,
}
use shuli.Base.Outcome.{ok}
use shuli.Ike.Crypto.{Primitives}
use shuli.Ike.Crypto.Laws.{Documented}
use shuli.Ike.Crypto.{decrypt, prf_plus, integrity, verify_integrity, decrypt_cbc}
use shuli.Base.Bytes.{slice_to, slice_from}
use shuli.Ike.Seal.Authentic.{Authentic, open_message-Authentic}
use shuli.Ike.Crypto.PrfPlus.{prf_blocks, prf_plus-blocks}
use shuli.Ike.Algorithm.{
  prf_key_len, encryption_key_len, salt_len, is_aead, iv_len, output_len, block_len, aes_cbc256,
  aes_gcm16_256, hmac_sha2_256, hmac_sha2_256_128, is_no_integrity, no_integrity,
}
use shuli.Ike.Types.{IkeHeader, Payload, informational, encrypted}
use shuli.Ike.Payload.{payload_type, encode_body, encode_spis}
use shuli.Ike.Chain.{encode_chain, encode_bodies, encode_headers, decode_chain, decode_chain_loop}
use shuli.Ike.Seal.{
  seal_message, open_message, open_octets, check_icv, unpad, pad, padding_len, ciphertext_len,
}
use shuli.Ike.Seal.RoundTrip.{sealed_len, Opened, open_message-seal_message}
use shuli.Ike.Keys.{IkeKeys, ChildKeys, initiator, derive, derive_child_keys}
use shuli.Ike.Keys.Derive.{KeysFit, ChildKeysMeet, peer, derive-KeysFit, derive_child_keys-meet}
use shuli.Runs.Payloads.{fresh_nonce, goodbye, payloads-IsChained}

abbrev plain_crypto : Primitives
plain_crypto = record {
  hmac = λ a key octets. replicate (prf_key_len a) 7;
  aead_seal = λ a key nonce aad text. some (text ++ replicate 16 5);
  aead_open = λ a key nonce aad text. some (take (length text - 16) text);
  cbc_encrypt = λ a key iv text. some text;
  cbc_decrypt = λ a key iv text. some text;
  random = λ n. some (replicate n 3);
}

reopened :
    (text : List ℕ) → take (length (text ++ replicate 16 5) - 16) (text ++ replicate 16 5) ≡ text
reopened text =
    let cut : length (text ++ replicate 16 5) - 16 ≡ length text =
      omega (arith, length-append text (replicate 16 5)) in
    rw (cut, take-length_append text (replicate 16 5))

plain_crypto-Documented : Documented plain_crypto
plain_crypto-Documented = record {
  hmac_len = λ a key octets. length-replicate (prf_key_len a) 7;
  aead = λ a key nonce aad text h k n.
      (text ++ replicate 16 5, refl, length-append text (replicate 16 5), ap some (reopened text));
  cbc = λ a key iv text h k n b. (text, refl, refl, refl);
  random_len = λ n octets e. cc (e, length-replicate {A = ℕ} n 3);
}

abbrev gcm_key : List ℕ
gcm_key = replicate 36 1

abbrev hmac_key : List ℕ
hmac_key = replicate 32 2

abbrev gcm_iv : List ℕ
gcm_iv = replicate 8 3

abbrev cbc_key : List ℕ
cbc_key = replicate 32 1

abbrev cbc_iv : List ℕ
cbc_iv = replicate 16 3

abbrev plain_header : IkeHeader
plain_header = record {
  initiator_spi = 1;
  responder_spi = 2;
  next_payload = 0;
  version = 0x20;
  exchange = informational;
  flags = 8;
  message_id = 2;
  length = 0;
}

abbrev two_payloads : List Payload
two_payloads = fresh_nonce ∷ goodbye ∷ []

sealed_fits :
    (chain : List ℕ)
    → encode_chain two_payloads ≡ ok chain
    → 4 + sealed_len aes_cbc256 hmac_sha2_256_128 (length (pad aes_cbc256 chain)) ≤ 65535
unfolding encode_chain encode_bodies encode_headers encode_body encode_spis payload_type pad
    padding_len iv_len output_len is_aead block_len ciphertext_len
sealed_fits chain e = ground arith

open_message-seal_message_example :
    (wire : List ℕ) × (seal_message plain_crypto plain_header two_payloads aes_cbc256
        hmac_sha2_256_128 cbc_key hmac_key
      ≡ ok wire)
    × Opened plain_crypto two_payloads aes_cbc256 hmac_sha2_256_128 cbc_key hmac_key wire
unfolding encryption_key_len salt_len is_aead iv_len
open_message-seal_message_example =
    open_message-seal_message plain_crypto plain_crypto-Documented plain_header two_payloads
      aes_cbc256 hmac_sha2_256_128 cbc_key hmac_key cbc_iv payloads-IsChained (ground arith)
      (ground arith) (ground arith) refl refl refl sealed_fits

prf_plus-blocks_example :
    (output : List ℕ) × (prf_plus plain_crypto hmac_sha2_256 (1 ∷ []) (2 ∷ []) 40 ≡ ok output)
    × (output ≡ take 40 (prf_blocks plain_crypto 41 hmac_sha2_256 (1 ∷ []) (2 ∷ []) [] 1))
    × (length output ≡ 40)
prf_plus-blocks_example =
    prf_plus-blocks plain_crypto plain_crypto-Documented hmac_sha2_256 (1 ∷ []) (2 ∷ []) 40

derive-KeysFit_example :
    (k : IkeKeys) × (derive plain_crypto hmac_sha2_256
        (1 ∷ [])
        (2 ∷ [])
        (3 ∷ [])
        4
        5
        aes_gcm16_256
        no_integrity
      ≡ ok k)
    × KeysFit hmac_sha2_256 aes_gcm16_256 no_integrity k
derive-KeysFit_example =
    derive-KeysFit plain_crypto plain_crypto-Documented hmac_sha2_256 (1 ∷ []) (2 ∷ []) (3 ∷ []) 4 5
      aes_gcm16_256 no_integrity

derive_child_keys-meet_example :
    (near : ChildKeys) × (far : ChildKeys) × (derive_child_keys plain_crypto hmac_sha2_256
        (1 ∷ [])
        (2 ∷ [])
        (3 ∷ [])
        none
        initiator
        aes_cbc256
        hmac_sha2_256_128
        100
        200
        true
      ≡ ok near)
    × (derive_child_keys plain_crypto hmac_sha2_256
          (1 ∷ [])
          (2 ∷ [])
          (3 ∷ [])
          none
          (peer initiator)
          aes_cbc256
          hmac_sha2_256_128
          200
          100
          true
        ≡ ok far)
    × ChildKeysMeet near far
    × (length near.outbound_key ≡ encryption_key_len aes_cbc256 + salt_len aes_cbc256)
derive_child_keys-meet_example =
    derive_child_keys-meet plain_crypto plain_crypto-Documented hmac_sha2_256 (1 ∷ []) (2 ∷ [])
      (3 ∷ []) none initiator aes_cbc256 hmac_sha2_256_128 100 200 true

-- An SK payload with no payloads in it: an IV, a block of padding and an ICV.
abbrev empty_octets : List ℕ
empty_octets = cbc_iv ++ (replicate 15 0 ++ (15 ∷ replicate 16 7))

opened_empty :
    open_message plain_crypto plain_header
      (encrypted 0 empty_octets)
      aes_cbc256
      hmac_sha2_256_128
      cbc_key
      hmac_key
    ≡ ok []
unfolding open_message open_octets check_icv verify_integrity integrity unpad decrypt decrypt_cbc
    decode_chain decode_chain_loop slice_to slice_from output_len iv_len is_aead encryption_key_len
    prf_key_len
opened_empty = refl

hmac_is_integrity : is_no_integrity hmac_sha2_256_128 ≡ false
hmac_is_integrity = refl

open_message-Authentic_example :
    Authentic plain_crypto plain_header 0 empty_octets hmac_sha2_256_128 hmac_key
open_message-Authentic_example =
    open_message-Authentic plain_crypto plain_header 0 empty_octets hmac_sha2_256_128 hmac_key
      hmac_is_integrity aes_cbc256 cbc_key [] opened_empty
