-- ===== src/Base/Outcome.antt =====
-- What a fallible Rust routine comes to: a value, an error, a panic (an index or a slice out of
-- range), or, in this model alone, a loop that used up its fuel.
use mathlib.Core.Path.{◌≡◌, refl}
use mathlib.Core.Bool.{Bool, true, false}
use shuli.Base.Tests.{if◌then◌else◌}

pub data Outcome {ℓ} (E : Type 0) (A : Type ℓ) : Type ℓ where
  ok : A → Outcome E A
  err : E → Outcome E A
  panic : Outcome E A
  out_of_fuel : Outcome E A

infixl 5 ◌>>=◌ ◌>>◌
abbrev pub ◌>>=◌ {ℓ κ} :
    {E : Type 0} {A : Type ℓ} {B : Type κ} → Outcome E A → (A → Outcome E B) → Outcome E B
ok a >>= f = f a
err e >>= f = err e
panic >>= f = panic
out_of_fuel >>= f = out_of_fuel

abbrev pub ◌>>◌ {ℓ} : {E : Type 0} {B : Type ℓ} → Outcome E (Unit {0}) → Outcome E B → Outcome E B
m >> k = m >>= λ _. k

-- `if refused { return Err(e); }`
abbrev pub refuse_if : {E : Type 0} → Bool → E → Outcome E (Unit {0})
refuse_if true e = err e
refuse_if false e = ok tt

-- The routine returned: it neither panicked nor ran out of fuel.
abbrev pub Returns {ℓ} : {E : Type 0} {A : Type ℓ} → Outcome E A → Type 0
Returns (ok a) = Unit
Returns (err e) = Unit
Returns panic = ⊥
Returns out_of_fuel = ⊥

module _ {ℓ κ} {E : Type 0} {A : Type ℓ} {B : Type κ} where
  pub Returns-bind :
      (m : Outcome E A) (f : A → Outcome E B)
      → Returns m
      → ((a : A) → m ≡ ok a → Returns (f a))
      → Returns (m >>= f)
  Returns-bind (ok a) f h k = k a refl
  Returns-bind (err e) f h k = tt
  Returns-bind panic f h k = h
  Returns-bind out_of_fuel f h k = h

  -- Where a bind succeeds, its first part does, and the second succeeds with its value.
  pub >>=-eq-ok :
      (first : Outcome E A) (next : A → Outcome E B) {b : B}
      → (first >>= next) ≡ ok b
      → (a : A) × (first ≡ ok a) × (next a ≡ ok b)
  >>=-eq-ok (err e) next refused = cc
  >>=-eq-ok panic next refused = cc
  >>=-eq-ok out_of_fuel next refused = cc
  >>=-eq-ok (ok a) next done = (a, refl, done)

module _ {ℓ} {E : Type 0} {B : Type ℓ} where
  pub Returns-refuse_if :
      (refused : Bool) (e : E) (k : Outcome E B)
      → (refused ≡ false → Returns k)
      → Returns (refuse_if refused e >> k)
  Returns-refuse_if true e k h = tt
  Returns-refuse_if false e k h = h refl

  pub Returns-if :
      (test : Bool) (m n : Outcome E B) → Returns m → Returns n → Returns (if test then m else n)
  Returns-if true m n h k = h
  Returns-if false m n h k = k

  pub Returns-cases :
      (test : Bool) (m n : Outcome E B)
      → (test ≡ true → Returns m)
      → (test ≡ false → Returns n)
      → Returns (if test then m else n)
  Returns-cases true m n h k = h refl
  Returns-cases false m n h k = k refl

  -- Where a guarded routine succeeds, the guard did not refuse.
  pub refuse_if-eq-ok :
      (refused : Bool) (e : E) (k : Outcome E B) {b : B}
      → (refuse_if refused e >> k) ≡ ok b
      → (refused ≡ false) × (k ≡ ok b)
  refuse_if-eq-ok true e k done = cc
  refuse_if-eq-ok false e k done = (refl, done)

-- The routine's value, where it gives one, has the property.
abbrev pub Ensures {ℓ} : {E : Type 0} {A : Type ℓ} → (A → Type 0) → Outcome E A → Type 0
Ensures P (ok a) = P a
Ensures P (err e) = Unit {0}
Ensures P panic = Unit {0}
Ensures P out_of_fuel = Unit {0}

module _ {ℓ κ} {E : Type 0} {A : Type ℓ} {B : Type κ} (Q : B → Type 0) where
  -- A routine that calls another has a property if what follows the call has it, at any value, or
  -- at any value that has the other's property.
  pub Ensures-next :
      (m : Outcome E A) (f : A → Outcome E B) → ((a : A) → Ensures Q (f a)) → Ensures Q (m >>= f)
  Ensures-next (ok a) f h = h a
  Ensures-next (err e) f h = tt
  Ensures-next panic f h = tt
  Ensures-next out_of_fuel f h = tt

  pub Ensures-bind :
      (P : A → Type 0) (m : Outcome E A) (f : A → Outcome E B)
      → Ensures P m
      → ((a : A) → P a → Ensures Q (f a))
      → Ensures Q (m >>= f)
  Ensures-bind P (ok a) f h k = k a h
  Ensures-bind P (err e) f h k = tt
  Ensures-bind P panic f h k = tt
  Ensures-bind P out_of_fuel f h k = tt

module _ {ℓ} {E : Type 0} {B : Type ℓ} (Q : B → Type 0) where
  pub Ensures-if :
      (test : Bool) (m n : Outcome E B)
      → (test ≡ true → Ensures Q m)
      → (test ≡ false → Ensures Q n)
      → Ensures Q (if test then m else n)
  Ensures-if true m n h k = h refl
  Ensures-if false m n h k = k refl

  pub Ensures-ok : (m : Outcome E B) {b : B} → Ensures Q m → m ≡ ok b → Q b
  Ensures-ok (ok a) {b} h e = let same : b ≡ a = cc in rw same h
  Ensures-ok (err kind) h e = cc
  Ensures-ok panic h e = cc
  Ensures-ok out_of_fuel h e = cc
