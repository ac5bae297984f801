-- ===== src/Ike/Seal/Padding.antt =====
-- The padding of an encrypted payload.
use shuli.Base.{
  ℕ, zero, ◌+◌, ◌%◌, ◌<◌, ◌≡◌, refl, false, some, List, [], ◌∷◌, ◌++◌, arith, length, take,
  replicate, length-append, length-replicate, take-length_append, append_assoc,
}
use shuli.Base.Outcome.{ok}
use shuli.Base.Bytes.{as_u8, slice_to}
use shuli.Ike.Algorithm.{EncryptionAlgorithm, is_aead, block_len}
use shuli.Ike.Seal.{padding_len, pad, last_octet, unpad}

last_octet-append : (xs : List ℕ) (n : ℕ) → last_octet (xs ++ (n ∷ [])) ≡ some n
last_octet-append [] n = refl
last_octet-append (x ∷ []) n = refl
last_octet-append (x ∷ y ∷ xs) n = last_octet-append (y ∷ xs) n

padding_len-lt : (e : EncryptionAlgorithm) (n : ℕ) → padding_len e n < 16
unfolding padding_len block_len
padding_len-lt e n = ground arith

pub length-pad :
    (e : EncryptionAlgorithm) (chain : List ℕ)
    → length (pad e chain) ≡ length chain + padding_len e (length chain) + 1
unfolding pad
length-pad e chain =
    let p = padding_len e (length chain) in
    omega (
      arith,
      length-append chain (replicate p 0 ++ (as_u8 p ∷ [])),
      length-append (replicate p 0) (as_u8 p ∷ []),
      length-replicate p (zero),
    )

-- A cipher in CBC mode is given whole blocks.
pub pad_blocks :
    (e : EncryptionAlgorithm) (chain : List ℕ) → is_aead e ≡ false → length (pad e chain) % 16 ≡ 0
unfolding padding_len block_len
pad_blocks e chain h = rw length-pad (ground arith)

last_octet-pad :
    (e : EncryptionAlgorithm) (chain : List ℕ)
    → last_octet (pad e chain) ≡ some (padding_len e (length chain))
unfolding pad
last_octet-pad e chain =
    let p = padding_len e (length chain) in
    let small : as_u8 p ≡ p = omega (arith, padding_len-lt e (length chain)) in
    rw (small, ← append_assoc chain (replicate p 0) (p ∷ []))
      (last_octet-append (chain ++ replicate p 0) p)

take-pad : (e : EncryptionAlgorithm) (chain : List ℕ) → take (length chain) (pad e chain) ≡ chain
unfolding pad
take-pad e chain = take-length_append chain _

-- Padding is taken off again, whatever the chain ends in.
pub unpad-pad : (e : EncryptionAlgorithm) (chain : List ℕ) → unpad (pad e chain) ≡ ok chain
unfolding unpad slice_to
unpad-pad e chain = ground (arith, length-pad e chain, last_octet-pad e chain, take-pad e chain)
