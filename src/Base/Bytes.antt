-- ===== src/Base/Bytes.antt =====
-- Byte buffers as lists of numbers: Rust's indexing and slicing, which panic out of range, and the
-- big-endian conversions of u16, u32 and u64.
use Prim.Native.Nat.{ℕ, zero, suc, ◌+◌, ◌-◌, ◌*◌, ◌/◌, ◌%◌, ◌^◌, ◌≤◌, ◌<◌}
use mathlib.Core.Path.{◌≡◌, refl}
use mathlib.Core.Bool.{Bool, ◌&&◌}
use mathlib.Core.List.{List, [], ◌∷◌, ◌++◌}
use native.Mathlib.Omega.{arith}
use shuli.Base.Tests.{leb, ◌==◌, if◌then◌else◌}
use shuli.Base.Lists.{
  length, take, drop, length-take, length-drop, length-append, take-length_append,
  drop-length_append,
}
use shuli.Base.Outcome.{Outcome, ok, panic, ◌>>=◌, Returns, Returns-bind, Returns-refuse_if}

abbrev pub IsU8 : ℕ → Type 0
IsU8 n = n < 2 ^ 8

abbrev pub IsU16 : ℕ → Type 0
IsU16 n = n < 2 ^ 16

abbrev pub IsU32 : ℕ → Type 0
IsU32 n = n < 2 ^ 32

abbrev pub IsU64 : ℕ → Type 0
IsU64 n = n < 2 ^ 64

-- The casts `as u8`, `as u16` and `as u32`.
abbrev pub as_u8 : ℕ → ℕ
as_u8 n = n % 2 ^ 8

abbrev pub as_u16 : ℕ → ℕ
as_u16 n = n % 2 ^ 16

abbrev pub as_u32 : ℕ → ℕ
as_u32 n = n % 2 ^ 32

-- `n & (1 << k) != 0`
abbrev pub has_bit : ℕ → ℕ → Bool
has_bit n k = n / 2 ^ k % 2 == 1

-- `to_be_bytes` of a u16, a u32 and a u64.
abbrev pub be16 : ℕ → List ℕ
be16 n = (n / 2 ^ 8 % 2 ^ 8) ∷ (n % 2 ^ 8) ∷ []

abbrev pub be32 : ℕ → List ℕ
be32 n = (n / 2 ^ 24 % 2 ^ 8) ∷ (n / 2 ^ 16 % 2 ^ 8) ∷ (n / 2 ^ 8 % 2 ^ 8) ∷ (n % 2 ^ 8) ∷ []

abbrev pub be64 : ℕ → List ℕ
be64 n = be32 (n / 2 ^ 32) ++ be32 (n % 2 ^ 32)

-- `from_be_bytes` of a u16 and a u32.
abbrev pub from_be16 : ℕ → ℕ → ℕ
from_be16 a b = a * 2 ^ 8 + b

abbrev pub from_be32 : ℕ → ℕ → ℕ → ℕ → ℕ
from_be32 a b c d = a * 2 ^ 24 + b * 2 ^ 16 + c * 2 ^ 8 + d

-- `buffer[i]`
abbrev pub byte : {E : Type 0} → List ℕ → ℕ → Outcome E ℕ
byte [] i = panic
byte (x ∷ xs) zero = ok x
byte (x ∷ xs) (suc i) = byte xs i

-- `buffer[a..b]`, `buffer[..b]` and `buffer[a..]`
unfoldable pub slice : {E : Type 0} → List ℕ → ℕ → ℕ → Outcome E (List ℕ)
slice xs a b = if leb a b && leb b (length xs) then ok (take (b - a) (drop a xs)) else panic

unfoldable pub slice_to : {E : Type 0} → List ℕ → ℕ → Outcome E (List ℕ)
slice_to xs b = if leb b (length xs) then ok (take b xs) else panic

unfoldable pub slice_from : {E : Type 0} → List ℕ → ℕ → Outcome E (List ℕ)
slice_from xs a = if leb a (length xs) then ok (drop a xs) else panic

-- `u16::from_be_bytes([buffer[i], buffer[i + 1]])`, and the same for u32 and u64.
abbrev pub u16_at : {E : Type 0} → List ℕ → ℕ → Outcome E ℕ
u16_at xs i = do a ← byte xs i; b ← byte xs (i + 1); ok (from_be16 a b)

abbrev pub u32_at : {E : Type 0} → List ℕ → ℕ → Outcome E ℕ
u32_at xs i = do
  a ← byte xs i
  b ← byte xs (i + 1)
  c ← byte xs (i + 2)
  d ← byte xs (i + 3)
  ok (from_be32 a b c d)

abbrev pub u64_at : {E : Type 0} → List ℕ → ℕ → Outcome E ℕ
u64_at xs i = do high ← u32_at xs i; low ← u32_at xs (i + 4); ok (high * 2 ^ 32 + low)

pub from_be16-be16 : (n : ℕ) → IsU16 n → from_be16 (n / 2 ^ 8 % 2 ^ 8) (n % 2 ^ 8) ≡ n
from_be16-be16 n h = omega arith

pub from_be32-be32 :
    (n : ℕ)
    → IsU32 n
    → from_be32 (n / 2 ^ 24 % 2 ^ 8) (n / 2 ^ 16 % 2 ^ 8) (n / 2 ^ 8 % 2 ^ 8) (n % 2 ^ 8) ≡ n
from_be32-be32 n h = omega arith

module _ {E : Type 0} where
  pub slice_from-append : (xs ys : List ℕ) → slice_from {E = E} (xs ++ ys) (length xs) ≡ ok ys
  unfolding slice_from
  slice_from-append xs ys = ground (arith, length-append xs ys, drop-length_append xs ys)

  pub slice_to-append : (xs ys : List ℕ) → slice_to {E = E} (xs ++ ys) (length xs) ≡ ok xs
  unfolding slice_to
  slice_to-append xs ys = ground (arith, length-append xs ys, take-length_append xs ys)

  pub slice-append :
      (front middle back : List ℕ)
      → slice {E = E} (front ++ (middle ++ back)) (length front) (length front + length middle)
        ≡ ok middle
  unfolding slice
  slice-append front middle back = rw (drop-length_append front (middle ++ back)) (
      ground (
        arith,
        length-append front (middle ++ back),
        length-append middle back,
        take-length_append middle back,
      ))

  -- In range, an index and a slice give a value.
  pub byte-eq-ok : (xs : List ℕ) (i : ℕ) → i < length xs → (b : ℕ) × (byte {E = E} xs i ≡ ok b)
  byte-eq-ok [] i h = absurd (omega arith)
  byte-eq-ok (x ∷ xs) zero h = (x, refl)
  byte-eq-ok (x ∷ xs) (suc i) h = byte-eq-ok xs i (omega arith)

  pub slice_from-eq-ok :
      (xs : List ℕ) (a : ℕ) → a ≤ length xs → slice_from {E = E} xs a ≡ ok (drop a xs)
  unfolding slice_from
  slice_from-eq-ok xs a h = ground arith

  pub slice_to-eq-ok :
      (xs : List ℕ) (b : ℕ) → b ≤ length xs → slice_to {E = E} xs b ≡ ok (take b xs)
  unfolding slice_to
  slice_to-eq-ok xs b h = ground arith

  pub slice-eq-ok :
      (xs : List ℕ) (a b : ℕ)
      → a ≤ b
      → b ≤ length xs
      → slice {E = E} xs a b ≡ ok (take (b - a) (drop a xs))
  unfolding slice
  slice-eq-ok xs a b h k = ground arith

module _ (E : Type 0) where
  pub Returns-byte : (xs : List ℕ) (i : ℕ) → i < length xs → Returns (byte {E = E} xs i)
  Returns-byte [] i h = absurd (omega arith)
  Returns-byte (x ∷ xs) zero h = tt
  Returns-byte (x ∷ xs) (suc i) h = Returns-byte xs i (omega arith)

  pub Returns-slice_from : (xs : List ℕ) (a : ℕ) → a ≤ length xs → Returns (slice_from {E = E} xs a)
  Returns-slice_from xs a h = rw (slice_from-eq-ok xs a h) tt

  pub Returns-slice_to : (xs : List ℕ) (b : ℕ) → b ≤ length xs → Returns (slice_to {E = E} xs b)
  Returns-slice_to xs b h = rw (slice_to-eq-ok xs b h) tt

  pub Returns-slice :
      (xs : List ℕ) (a b : ℕ) → a ≤ b → b ≤ length xs → Returns (slice {E = E} xs a b)
  Returns-slice xs a b h k = rw (slice-eq-ok xs a b h k) tt

module _ {ℓ} {E : Type 0} {B : Type ℓ} where
  pub Returns-slice-bind :
      (xs : List ℕ) (a b : ℕ) (f : List ℕ → Outcome E B)
      → a ≤ b
      → b ≤ length xs
      → ((ys : List ℕ) → length ys ≡ b - a → Returns (f ys))
      → Returns (slice xs a b >>= f)
  Returns-slice-bind xs a b f h k r =
      rw (slice-eq-ok xs a b h k)
        (r _ (omega (arith, length-take (b - a) (drop a xs), length-drop a xs)))

  pub Returns-slice_to-bind :
      (xs : List ℕ) (b : ℕ) (f : List ℕ → Outcome E B)
      → b ≤ length xs
      → ((ys : List ℕ) → length ys ≡ b → Returns (f ys))
      → Returns (slice_to xs b >>= f)
  Returns-slice_to-bind xs b f k r =
      rw (slice_to-eq-ok xs b k) (r _ (omega (arith, length-take b xs)))

-- A routine of reads and slices, each in range by the tests before it, returns.
pub ruleset returns_rules = (
  Returns-slice-bind, Returns-slice_to-bind, Returns-bind, Returns-refuse_if, Returns-byte,
  Returns-slice_from, Returns-slice_to, Returns-slice,
)
