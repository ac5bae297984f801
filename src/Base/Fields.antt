-- ===== src/Base/Fields.antt =====
-- Reading a field behind the octets in front of it.
use Prim.Native.Nat.{ℕ, suc, ◌+◌}
use mathlib.Core.Path.{◌≡◌, refl, ap}
use mathlib.Core.List.{List, [], ◌∷◌, ◌++◌}
use native.Mathlib.Omega.{arith}
use shuli.Base.Lists.{length}
use shuli.Base.Outcome.{ok}
use shuli.Base.Bytes.{byte, u32_at, slice, be32, IsU32, from_be32-be32, slice-append}

module _ {E : Type 0} where
  pub byte-append :
      (xs ys : List ℕ) (i n : ℕ) → n ≡ length xs + i → byte {E = E} (xs ++ ys) n ≡ byte ys i
  byte-append [] ys i n e = let same : n ≡ i = omega arith in rw same
  byte-append (x ∷ xs) ys i n e =
      let step : n ≡ suc (length xs + i) = omega arith in rw step (byte-append xs ys i _ refl)

  pub u32_at-append :
      (xs : List ℕ) (value : ℕ) (ys : List ℕ) (n : ℕ)
      → IsU32 value
      → n ≡ length xs
      → u32_at {E = E} (xs ++ (be32 value ++ ys)) n ≡ ok value
  u32_at-append xs value ys n small e =
      rw
        (
          byte-append xs (be32 value ++ ys) 0 n (omega arith),
          byte-append xs (be32 value ++ ys) 1 (n + 1) (omega arith),
          byte-append xs (be32 value ++ ys) 2 (n + 2) (omega arith),
          byte-append xs (be32 value ++ ys) 3 (n + 3) (omega arith),
        )
        (ap ok (from_be32-be32 value small))

  pub slice-between :
      (front middle back : List ℕ) (a b : ℕ)
      → a ≡ length front
      → b ≡ length front + length middle
      → slice {E = E} (front ++ (middle ++ back)) a b ≡ ok middle
  slice-between front middle back a b h k = rw (h, k) (slice-append front middle back)
