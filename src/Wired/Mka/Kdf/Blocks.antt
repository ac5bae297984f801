-- ===== src/Wired/Mka/Kdf/Blocks.antt =====
-- The KDF's loop computes the blocks of NIST SP 800-108 in counter mode, cut to the length asked
-- for, and it ends.
use shuli.Base.{
  ℕ, zero, suc, ◌+◌, ◌-◌, ◌*◌, ◌≤◌, ◌<◌, ◌≡◌, refl, sym, ap, ◌∙◌, min, List, [], ◌∷◌, ◌++◌, arith,
  length, take, drop, length-take, length-drop, length-append, take-length_append, take_all,
  append-nil, leb, leb→le, true, ltb, inl, inr, Bool-cases, ltb→lt, ltb-false→le, append_assoc,
  if◌then◌else◌,
}
use shuli.Base.Outcome.{ok, err}
use shuli.Base.Bytes.{slice_to-eq-ok}
use shuli.Core.Types.{ErrorKind, handshake_failed}
use shuli.Wired.Mka.Kdf.{
  Primitives, Documented, is_aes_key, overwrite, kdf_message, cmac_aes, kdf_loop, aes_kdf,
}

take-append : (n : ℕ) (xs ys : List ℕ) → take n (xs ++ ys) ≡ take n xs ++ take (n - length xs) ys
take-append zero xs ys = let none_left : 0 - length xs ≡ 0 = omega arith in rw none_left
take-append (suc n) [] ys = let all_left : suc n - 0 ≡ suc n = omega arith in rw all_left
take-append (suc n) (x ∷ xs) ys =
    let step : suc n - suc (length xs) ≡ n - length xs = omega arith in
    rw (step, take-append n xs ys)

take-min-length : (n : ℕ) (xs : List ℕ) → take (min n (length xs)) xs ≡ take n xs
take-min-length zero xs = let least : min 0 (length xs) ≡ 0 = omega arith in rw least
take-min-length (suc n) [] = let least : min (suc n) 0 ≡ 0 = omega arith in rw least
take-min-length (suc n) (x ∷ xs) =
    let step : min (suc n) (suc (length xs)) ≡ suc (min n (length xs)) = omega arith in
    rw (step, take-min-length n xs)

-- What was written stays, and the part follows it.
take-overwrite :
    (out : List ℕ) (offset : ℕ) (part : List ℕ)
    → offset ≤ length out
    → take (offset + length part) (overwrite out offset part) ≡ take offset out ++ part
unfolding overwrite
take-overwrite out offset part h =
    let front : length (take offset out ++ part) ≡ offset + length part =
      omega (arith, length-append (take offset out) part, length-take offset out) in
    let cut = take-length_append (take offset out ++ part) (drop (offset + length part) out) in
    let joined = append_assoc (take offset out) part (drop (offset + length part) out) in
    ap (λ n. take n (overwrite out offset part)) (sym front)
    ∙ (ap (take (length (take offset out ++ part))) (sym joined) ∙ cut)

length-overwrite :
    (out : List ℕ) (offset : ℕ) (part : List ℕ)
    → offset + length part ≤ length out
    → length (overwrite out offset part) ≡ length out
unfolding overwrite
length-overwrite out offset part h = omega (
  arith,
  length-append (take offset out) (part ++ drop (offset + length part) out),
  length-append part (drop (offset + length part) out),
  length-take offset out,
  length-drop (offset + length part) out,
)

take-part :
    (n : ℕ) (xs ys : List ℕ) → take n xs ++ take (n - length (take n xs)) ys ≡ take n (xs ++ ys)
take-part n xs ys =
    let same : n - length (take n xs) ≡ n - length xs = omega (arith, length-take n xs) in
    rw (same, take-append n xs ys)

-- A part written and the rest to come are the whole, cut to the length.
written-rest :
    (out : List ℕ) (offset : ℕ) (part tag rest : List ℕ)
    → offset ≤ length out
    → part ≡ take (length out - offset) tag
    → take (offset + length part) (overwrite out offset part)
        ++ take (length (overwrite out offset part) - (offset + length part)) rest
      ≡ take offset out ++ take (length out - offset) (tag ++ rest)
written-rest out offset part tag rest inside is_part =
    let measured : length part ≡ min (length out - offset) (length tag) =
      rw is_part (length-take (length out - offset) tag) in
    let kept = length-overwrite out offset part (omega arith) in
    let left : length (overwrite out offset part) - (offset + length part)
        ≡ (length out - offset) - length part =
      omega arith in
    let joined : part ++ take ((length out - offset) - length part) rest
        ≡ take (length out - offset) (tag ++ rest) =
      rw is_part (take-part (length out - offset) tag rest) in
    rw (take-overwrite out offset part inside, left)
      (append_assoc (take offset out) part (take ((length out - offset) - length part) rest)
        ∙ ap (λ xs. take offset out ++ xs) joined)

-- The blocks of SP 800-108, from a counter on.
unfoldable pub blocks : Primitives → List ℕ → List ℕ → List ℕ → ℕ → ℕ → ℕ → List ℕ
blocks c key label context length_bits zero counter = []
blocks c key label context length_bits (suc n) counter =
    c.cmac key (kdf_message label context length_bits counter)
    ++ blocks c key label context length_bits n (counter + 1)

module _ (c : Primitives) (d : Documented c) (key label context : List ℕ) (length_bits : ℕ) where
  -- One round writes the tag, or what is left to write of it, behind what was written.
  kdf_loop-round :
      (fuel : ℕ) (out : List ℕ) (offset counter : ℕ)
      → is_aes_key key ≡ true
      → offset < length out
      → counter + 1 < 256
      → (part : List ℕ) × (part
          ≡ take (length out - offset) (c.cmac key (kdf_message label context length_bits counter)))
        × (kdf_loop c (suc fuel) key label context length_bits out offset counter
            ≡ kdf_loop c fuel key label context length_bits
                (overwrite out offset part)
                (offset + length part)
                (counter + 1))
  unfolding kdf_loop cmac_aes
  kdf_loop-round fuel out offset counter aes more small =
      let tag = c.cmac key (kdf_message label context length_bits counter) in
      let sixteen = d.cmac-length key (kdf_message label context length_bits counter) in
      let all = length out - offset in
      let cut = slice_to-eq-ok {E = ErrorKind} tag (min all (length tag)) (omega arith) in
      (take all tag, refl, ground (arith, cut, take-min-length all tag))

  -- Where nothing is left to write, the loop ends with what was written.
  kdf_loop-end :
      (n fuel : ℕ) (out : List ℕ) (offset counter : ℕ)
      → offset ≡ length out
      → kdf_loop c (suc fuel) key label context length_bits out offset counter
        ≡ ok (
            take offset out
            ++ take (length out - offset) (blocks c key label context length_bits n counter))
  unfolding kdf_loop
  kdf_loop-end n fuel out offset counter same =
      let nothing : length out - offset ≡ 0 = omega arith in
      rw nothing (ground (arith, take_all offset out, append-nil (take offset out)))

  kdf_loop-blocks :
      (n fuel : ℕ) (out : List ℕ) (offset counter : ℕ)
      → is_aes_key key ≡ true
      → offset ≤ length out
      → length out ≤ offset + 16 * n
      → counter + n ≤ 255
      → n < fuel
      → kdf_loop c fuel key label context length_bits out offset counter
        ≡ ok (
            take offset out
            ++ take (length out - offset) (blocks c key label context length_bits n counter))
  unfolding blocks
  kdf_loop-blocks n zero out offset counter aes inside fits small enough = absurd (omega arith)
  kdf_loop-blocks zero (suc fuel) out offset counter aes inside fits small enough =
      kdf_loop-end zero fuel out offset counter (omega arith)
  kdf_loop-blocks (suc n) (suc fuel) out offset counter aes inside fits small enough =
      elim (Bool-cases (ltb offset (length out))) [
        | inr done ↦
            kdf_loop-end (suc n) fuel out offset counter
              (omega (arith, ltb-false→le offset (length out) done))
        | inl left ↦
            let more = ltb→lt offset (length out) left in
            let (part, is_part, step) =
              kdf_loop-round fuel out offset counter aes more (omega arith) in
            let tag = c.cmac key (kdf_message label context length_bits counter) in
            let sixteen = d.cmac-length key (kdf_message label context length_bits counter) in
            let measured : length part ≡ min (length out - offset) (length tag) =
              rw is_part (length-take (length out - offset) tag) in
            let kept = length-overwrite out offset part (omega arith) in
            let rest =
              kdf_loop-blocks n fuel (overwrite out offset part) (offset + length part)
                (counter + 1) aes (omega arith) (omega arith) (omega arith) (omega arith) in
            step ∙ (rest ∙ ap ok (written-rest out offset part tag _ inside is_part))
      ]

  -- The counter passes 255 before the buffer is full.
  kdf_loop-overflow :
      (n fuel : ℕ) (out : List ℕ) (offset counter : ℕ)
      → is_aes_key key ≡ true
      → offset + 16 * n < length out
      → counter + n ≡ 255
      → n < fuel
      → kdf_loop c fuel key label context length_bits out offset counter ≡ err handshake_failed
  unfolding kdf_loop cmac_aes
  kdf_loop-overflow n zero out offset counter aes long last enough = absurd (omega arith)
  kdf_loop-overflow zero (suc fuel) out offset counter aes long last enough =
      let tag = c.cmac key (kdf_message label context length_bits counter) in
      let least = min (length out - offset) (length tag) in
      ground (arith, slice_to-eq-ok {E = ErrorKind} tag least (omega arith))
  kdf_loop-overflow (suc n) (suc fuel) out offset counter aes long last enough =
      let (part, is_part, step) =
        kdf_loop-round fuel out offset counter aes (omega arith) (omega arith) in
      let tag = c.cmac key (kdf_message label context length_bits counter) in
      let sixteen = d.cmac-length key (kdf_message label context length_bits counter) in
      let measured : length part ≡ min (length out - offset) (length tag) =
        rw is_part (length-take (length out - offset) tag) in
      let kept = length-overwrite out offset part (omega arith) in
      step
      ∙ kdf_loop-overflow n fuel (overwrite out offset part) (offset + length part) (counter + 1)
          aes (omega arith) (omega arith) (omega arith)

module _ (c : Primitives) (d : Documented c) (key label context out : List ℕ) where
  -- Where a tag of AES-CMAC has 16 octets, a key of 16 or 32 octets fills a buffer of up to 4064
  -- octets with the first octets of the blocks of SP 800-108 in counter mode, and a longer buffer
  -- is refused: the counter would pass 255.
  pub aes_kdf-blocks :
      is_aes_key key ≡ true
      → aes_kdf c key label context out ≡ (
          if leb (length out) 4064
          then ok (take (length out) (blocks c key label context (length out * 8) 254 1))
          else err handshake_failed)
  unfolding aes_kdf
  aes_kdf-blocks aes = elim (Bool-cases (leb (length out) 4064)) [
    | inl fits ↦
        let short = leb→le (length out) 4064 fits in
        let loop =
          kdf_loop-blocks c d key label context (length out * 8) 254 256 out 0 1 aes (omega arith)
            (omega arith) (omega arith) (omega arith) in
        rw fits (ground (arith, loop))
    | inr long ↦
        let loop = kdf_loop-overflow c d key label context (length out * 8) 254 256 out 0 1 aes in
        rw long (ground (arith, loop))
  ]
