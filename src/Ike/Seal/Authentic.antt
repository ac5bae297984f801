-- ===== src/Ike/Seal/Authentic.antt =====
-- What a message that `open_message` opened shows: its ICV is the one that the key gives.
use shuli.Base.{
  ℕ, ◌+◌, ◌-◌, ◌≤◌, ◌≡◌, false, List, ◌++◌, arith, length, take, drop, length-drop, ltb,
  take-append-drop, sym,
}
use shuli.Base.Outcome.{ok, >>=-eq-ok, refuse_if}
use shuli.Base.Bytes.{slice_to-eq-ok, slice_from-eq-ok}
use shuli.Ike.Types.{IkeHeader, Payload, encrypted, ike}
use shuli.Ike.Algorithm.{
  EncryptionAlgorithm, IntegrityAlgorithm, is_no_integrity, output_len, iv_len,
}
use shuli.Ike.Header
use shuli.Ike.Crypto.{Primitives, integrity}
use shuli.Ike.Crypto.Laws.{verify_integrity_iff}
use shuli.Ike.Seal.{sk_header, check_icv, open_octets, open_message}

-- The octets of an SK payload end in the ICV of the message up to it.
pub record Authentic (c : Primitives) (header : IkeHeader) (next : ℕ) (octets : List ℕ)
    (a : IntegrityAlgorithm) (key_a : List ℕ) : Type 0 where
  pub body : List ℕ
  pub icv : List ℕ
  pub parts : octets ≡ body ++ icv
  pub icv_len : length icv ≡ output_len a
  pub computed :
      integrity c a key_a (Header.encode header ++ (sk_header next (4 + length octets) ++ body))
      ≡ ok icv

module _ (c : Primitives) (header : IkeHeader) (next : ℕ) (octets : List ℕ) (a : IntegrityAlgorithm)
    (key_a : List ℕ) (h : is_no_integrity a ≡ false) where
  check_icv-Authentic :
      output_len a ≤ length octets
      → check_icv c header next octets a key_a ≡ ok tt
      → Authentic c header next octets a key_a
  unfolding check_icv
  check_icv-Authentic fits e =
      let split = length octets - output_len a in
      record {
        body = take split octets;
        icv = drop split octets;
        parts = sym (take-append-drop split octets);
        icv_len = omega (arith, length-drop split octets);
        computed = (verify_integrity_iff c a key_a _ (drop split octets)).1 (
            rw
              (
                h,
                slice_to-eq-ok octets split (omega arith),
                slice_from-eq-ok octets split (omega arith),
              )
              at e);
      }

  -- An SK payload that is opened under an integrity algorithm other than NONE ends in the ICV that
  -- the key gives to the message's header and the SK payload up to the ICV.
  pub open_message-Authentic :
      (e : EncryptionAlgorithm) (key_e : List ℕ) (payloads : List Payload)
      → open_message c header (encrypted next octets) e a key_e key_a ≡ ok payloads
      → Authentic c header next octets a key_a
  unfolding open_message open_octets
  open_message-Authentic e key_e payloads opened =
      let (_, fits, rest) =
        >>=-eq-ok (refuse_if (ltb (length octets) (iv_len e + output_len a)) ike) _ opened in
      let (_, checked, _) = >>=-eq-ok (check_icv c header next octets a key_a) _ rest in
      check_icv-Authentic (ground arith) checked
