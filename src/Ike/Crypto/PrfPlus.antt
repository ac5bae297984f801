-- ===== src/Ike/Crypto/PrfPlus.antt =====
-- `prf_plus` against RFC 7296, section 2.13: the blocks T1, T2, … one after another, cut to length.
use shuli.Base.{
  ℕ, zero, suc, ◌+◌, ◌-◌, ◌%◌, ◌^◌, ◌≤◌, ◌<◌, ◌≡◌, refl, min, List, [], ◌∷◌, ◌++◌, arith, length,
  take, length-append, length-take, append-nil, append_assoc, ltb, Bool-cases, inl, inr, ltb→lt,
  ltb-false→le, ap, ◌∙◌,
}
use native.Mathlib.Nat.{sub-zero}
use shuli.Base.Outcome.{ok}
use shuli.Base.Bytes.{slice_to-eq-ok}
use shuli.Ike.Algorithm.{PrfAlgorithm, hmac_sha1, hmac_sha2_256, prf_key_len}
use shuli.Ike.Crypto.{Primitives, prf, prf_plus_loop, prf_plus}
use shuli.Ike.Crypto.Laws.{Documented}

-- A prefix of two lists is taken from the first, and what is missing from the second.
take-parts :
    (n m : ℕ) (xs ys : List ℕ)
    → m ≡ n - length xs
    → take (min n (length xs)) xs ++ take m ys ≡ take n (xs ++ ys)
take-parts zero m [] ys e = let nothing : m ≡ zero = omega arith in rw nothing
take-parts (suc n) m [] ys e =
    let none_left : min (suc n) zero ≡ zero = omega arith in
    let all : m ≡ suc n = omega arith in rw (none_left, all)
take-parts zero m (x ∷ xs) ys e =
    let none_left : min zero (suc (length xs)) ≡ zero = omega arith in
    let nothing : m ≡ zero = omega arith in rw (none_left, nothing)
take-parts (suc n) m (x ∷ xs) ys e =
    let both : min (suc n) (suc (length xs)) ≡ suc (min n (length xs)) = omega arith in
    rw both (ap (λ (t : List ℕ). x ∷ t) (take-parts n m xs ys (omega arith)))

module _ (c : Primitives) where
  -- So many blocks, from the previous block and the counter on.
  unfoldable pub prf_blocks : ℕ → PrfAlgorithm → List ℕ → List ℕ → List ℕ → ℕ → List ℕ
  prf_blocks zero a key seed previous counter = []
  prf_blocks (suc n) a key seed previous counter =
      let block = prf c a key (previous ++ (seed ++ (counter ∷ []))) in
      block ++ prf_blocks n a key seed block ((counter + 1) % 2 ^ 8)

  module _ (d : Documented c) where
    block-nonempty : (a : PrfAlgorithm) (key octets : List ℕ) → 1 ≤ length (prf c a key octets)
    unfolding prf prf_key_len
    block-nonempty hmac_sha1 key octets = omega (arith, d.hmac_len hmac_sha1 key octets)
    block-nonempty hmac_sha2_256 key octets = omega (arith, d.hmac_len hmac_sha2_256 key octets)

    prf_plus_loop-blocks :
        (fuel : ℕ) (a : PrfAlgorithm) (key seed : List ℕ) (n : ℕ) (output previous : List ℕ)
        (counter : ℕ)
        → length output ≤ n
        → n < length output + fuel
        → prf_plus_loop c fuel a key seed n output previous counter
          ≡ ok (output ++ take (n - length output) (prf_blocks fuel a key seed previous counter))
    unfolding prf_plus_loop prf_blocks
    prf_plus_loop-blocks zero a key seed n output previous counter h k = absurd (omega arith)
    prf_plus_loop-blocks (suc fuel) a key seed n output previous counter h k =
        elim (Bool-cases (ltb (length output) n)) [
          | inl more ↦
              let block = prf c a key (previous ++ (seed ++ (counter ∷ []))) in
              let lt = ltb→lt (length output) n more in
              let part = min (n - length output) (length block) in
              let some_octets = block-nonempty a key (previous ++ (seed ++ (counter ∷ []))) in
              let lp = length-take part block in
              let la = length-append output (take part block) in
              let rest = prf_blocks fuel a key seed block ((counter + 1) % 2 ^ 8) in
              rw (more, slice_to-eq-ok block part (omega arith))
                (prf_plus_loop-blocks fuel a key seed n (output ++ take part block) block
                    ((counter + 1) % 2 ^ 8) (omega arith) (omega arith)
                  ∙ rw append_assoc (
                      ap (λ (t : List ℕ). ok (output ++ t))
                        (take-parts (n - length output) (n - length (output ++ take part block))
                          block rest (omega arith))))
          | inr done ↦
              let full : n - length output ≡ zero =
                omega (arith, ltb-false→le (length output) n done) in
              rw (done, full, append-nil)
        ]

    length-prf_blocks :
        (n : ℕ) (a : PrfAlgorithm) (key seed previous : List ℕ) (counter : ℕ)
        → n ≤ length (prf_blocks n a key seed previous counter)
    unfolding prf_blocks
    length-prf_blocks zero a key seed previous counter = omega arith
    length-prf_blocks (suc n) a key seed previous counter =
        let input = previous ++ (seed ++ (counter ∷ [])) in
        let block = prf c a key input in
        omega (
          arith,
          length-append block (prf_blocks n a key seed block ((counter + 1) % 2 ^ 8)),
          block-nonempty a key input,
          length-prf_blocks n a key seed block ((counter + 1) % 2 ^ 8),
        )

    -- Where the crates keep what they document, `prf_plus` ends, and gives so many octets of the
    -- blocks T1 | T2 | ….
    pub prf_plus-blocks :
        (a : PrfAlgorithm) (key seed : List ℕ) (n : ℕ)
        → (output : List ℕ) × (prf_plus c a key seed n ≡ ok output)
          × (output ≡ take n (prf_blocks (suc n) a key seed [] 1))
          × (length output ≡ n)
    unfolding prf_plus
    prf_plus-blocks a key seed n =
        let blocks = prf_blocks (suc n) a key seed [] 1 in
        (
          take n blocks,
          rw sub-zero at
              (prf_plus_loop-blocks (suc n) a key seed n [] [] 1 (omega arith) (omega arith)),
          refl,
          omega (arith, length-take n blocks, length-prf_blocks (suc n) a key seed [] 1),
        )
