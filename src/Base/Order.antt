-- ===== src/Base/Order.antt =====
-- The order of Rust's octet arrays: by the first octet that differs.
use Prim.Native.Nat.{ℕ}
use mathlib.Core.Path.{◌≡◌, refl}
use mathlib.Core.Bool.{Bool, true, false, not, ◌&&◌, ◌||◌}
use mathlib.Core.List.{List, [], ◌∷◌}
use native.Mathlib.Omega.{arith}
use shuli.Base.Tests.{ltb, ◌==◌}

abbrev pub bytes_lt : List ℕ → List ℕ → Bool
bytes_lt [] [] = false
bytes_lt [] (y ∷ ys) = true
bytes_lt (x ∷ xs) [] = false
bytes_lt (x ∷ xs) (y ∷ ys) = ltb x y || (x == y && bytes_lt xs ys)

abbrev pub bytes_le : List ℕ → List ℕ → Bool
bytes_le xs ys = not (bytes_lt ys xs)

pub bytes_lt-irreflexive : (xs : List ℕ) → bytes_lt xs xs ≡ false
bytes_lt-irreflexive [] = refl
bytes_lt-irreflexive (x ∷ xs) = ground (arith, bytes_lt-irreflexive xs)

pub bytes_lt-asymmetric : (xs ys : List ℕ) → bytes_lt xs ys ≡ true → bytes_lt ys xs ≡ false
bytes_lt-asymmetric [] [] h = refl
bytes_lt-asymmetric [] (y ∷ ys) h = refl
bytes_lt-asymmetric (x ∷ xs) [] h = cc
bytes_lt-asymmetric (x ∷ xs) (y ∷ ys) h = ground (arith, bytes_lt-asymmetric xs ys)

pub bytes_lt-transitive :
    (xs ys zs : List ℕ) → bytes_lt xs ys ≡ true → bytes_lt ys zs ≡ true → bytes_lt xs zs ≡ true
bytes_lt-transitive xs [] [] h k = cc
bytes_lt-transitive [] [] (z ∷ zs) h k = refl
bytes_lt-transitive (x ∷ xs) [] (z ∷ zs) h k = cc
bytes_lt-transitive xs (y ∷ ys) [] h k = cc
bytes_lt-transitive [] (y ∷ ys) (z ∷ zs) h k = refl
bytes_lt-transitive (x ∷ xs) (y ∷ ys) (z ∷ zs) h k = ground (arith, bytes_lt-transitive xs ys zs)

-- Of two arrays neither of which is below the other, one is the other.
pub bytes_lt-connected :
    (xs ys : List ℕ) → bytes_lt xs ys ≡ false → bytes_lt ys xs ≡ false → xs ≡ ys
bytes_lt-connected [] [] h k = refl
bytes_lt-connected [] (y ∷ ys) h k = cc
bytes_lt-connected (x ∷ xs) [] h k = cc
bytes_lt-connected (x ∷ xs) (y ∷ ys) h k = ground (arith, bytes_lt-connected xs ys)
