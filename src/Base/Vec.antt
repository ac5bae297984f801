-- ===== src/Base/Vec.antt =====
-- Operations of Rust's `Vec` and of its iterators, over lists, and how many elements pass a test.
use Prim.Native.Nat.{ℕ, zero, suc, ◌+◌, ◌≤◌, ◌<◌}
use mathlib.Core.Path.{◌≡◌, refl, ap}
use mathlib.Core.Logic.{inl, inr}
use mathlib.Core.Bool.{Bool, true, false, ◌&&◌}
use mathlib.Core.Option.{Option, none, some}
use mathlib.Core.List.{List, [], ◌∷◌, ◌++◌, Memᴰ}
use native.Mathlib.Omega.{arith}
use shuli.Base.Tests.{if◌then◌else◌, Bool-cases, Option-cases}
use shuli.Base.Lists.{length, any, find, retain}

abbrev pub one : Bool → ℕ
one true = 1
one false = 0

module _ {ℓ} {A : Type ℓ} where
  -- `iter().filter(p).count()`
  abbrev pub count : (A → Bool) → List A → ℕ
  count p [] = 0
  count p (x ∷ xs) = one (p x) + count p xs

  -- `iter().position(p)`
  abbrev pub position : (A → Bool) → List A → Option ℕ
  position p [] = none
  position p (x ∷ xs) =
      let later = position p xs in
      if p x then some 0 else elim later [ none ↦ none | some i ↦ some (suc i) ]

  -- `*slot = a` for the slot that `iter_mut().find(p)` gives; `none` where it gives none.
  abbrev pub replace_first : (A → Bool) → A → List A → Option (List A)
  replace_first p a [] = none
  replace_first p a (x ∷ xs) =
      let later = replace_first p a xs in
      if p x then some (a ∷ xs) else elim later [ none ↦ none | some ys ↦ some (x ∷ ys) ]

  -- The last element of `x ∷ xs`, and the others.
  abbrev pub last_of : A → List A → A
  last_of x [] = x
  last_of x (y ∷ ys) = last_of y ys

  abbrev pub but_last : A → List A → List A
  but_last x [] = []
  but_last x (y ∷ ys) = x ∷ but_last y ys

  -- The last element takes the place of the one removed. The source panics out of range.
  abbrev pub swap_remove : ℕ → List A → List A
  swap_remove i [] = []
  swap_remove zero (x ∷ []) = []
  swap_remove zero (x ∷ y ∷ ys) = last_of y ys ∷ but_last y ys
  swap_remove (suc i) (x ∷ xs) = x ∷ swap_remove i xs

  length-but_last : (x : A) (xs : List A) → length (but_last x xs) ≡ length xs
  length-but_last x [] = refl
  length-but_last x (y ∷ ys) = ap suc (length-but_last y ys)

  pub length-swap_remove :
      (i : ℕ) (xs : List A) → i < length xs → suc (length (swap_remove i xs)) ≡ length xs
  length-swap_remove i [] h = absurd (omega arith)
  length-swap_remove zero (x ∷ []) h = refl
  length-swap_remove zero (x ∷ y ∷ ys) h = omega (arith, length-but_last y ys)
  length-swap_remove (suc i) (x ∷ xs) h = ap suc (length-swap_remove i xs (omega arith))

  pub length-swap_remove_le : (i : ℕ) (xs : List A) → length (swap_remove i xs) ≤ length xs
  length-swap_remove_le i [] = omega arith
  length-swap_remove_le zero (x ∷ []) = omega arith
  length-swap_remove_le zero (x ∷ y ∷ ys) = omega (arith, length-but_last y ys)
  length-swap_remove_le (suc i) (x ∷ xs) = omega (arith, length-swap_remove_le i xs)

  pub position-none : (p : A → Bool) (xs : List A) → position p xs ≡ none → count p xs ≡ 0
  position-none p [] e = refl
  position-none p (x ∷ xs) e = elim (Bool-cases (p x)) [
    | inl h ↦ cc (rw h at e)
    | inr h ↦ elim (Option-cases (position p xs)) [
      | inl nothing ↦ rw h (omega (arith, position-none p xs nothing))
      | inr (i, found) ↦ cc (rw (h, found) at e)
    ]
  ]

  count-but_last :
      (p : A → Bool) (x : A) (xs : List A)
      → one (p (last_of x xs)) + count p (but_last x xs) ≡ one (p x) + count p xs
  count-but_last p x [] = refl
  count-but_last p x (y ∷ ys) = omega (arith, count-but_last p y ys)

  pub count-swap_remove :
      (p : A → Bool) (i : ℕ) (xs : List A) → count p (swap_remove i xs) ≤ count p xs
  count-swap_remove p i [] = omega arith
  count-swap_remove p zero (x ∷ []) = omega arith
  count-swap_remove p zero (x ∷ y ∷ ys) = omega (arith, count-but_last p y ys)
  count-swap_remove p (suc i) (x ∷ xs) = omega (arith, count-swap_remove p i xs)

  count-swap_remove_head :
      (p : A → Bool) (x : A) (xs : List A) → count p (swap_remove zero (x ∷ xs)) ≡ count p xs
  count-swap_remove_head p x [] = refl
  count-swap_remove_head p x (y ∷ ys) = count-but_last p y ys

  -- Removing the first element that passes the test leaves one fewer of those.
  pub count-position :
      (p : A → Bool) (xs : List A) (i : ℕ)
      → position p xs ≡ some i
      → suc (count p (swap_remove i xs)) ≡ count p xs
  count-position p [] i e = cc
  count-position p (x ∷ xs) i e = elim (Bool-cases (p x)) [
    | inl h ↦
        let same : i ≡ zero = cc (rw h at e) in
        rw (same, h) (omega (arith, count-swap_remove_head p x xs))
    | inr h ↦ elim (Option-cases (position p xs)) [
      | inl nothing ↦ cc (rw (h, nothing) at e)
      | inr (j, found) ↦
          let same : i ≡ suc j = cc (rw (h, found) at e) in
          rw (same, h) (omega (arith, count-position p xs j found))
    ]
  ]

  pub count-retain : (p q : A → Bool) (xs : List A) → count p (retain q xs) ≤ count p xs
  count-retain p q [] = omega arith
  count-retain p q (x ∷ xs) = ground (arith, count-retain p q xs)

  pub length-retain : (q : A → Bool) (xs : List A) → length (retain q xs) ≤ length xs
  length-retain q [] = omega arith
  length-retain q (x ∷ xs) = ground (arith, length-retain q xs)

  pub count-append : (p : A → Bool) (xs ys : List A) → count p (xs ++ ys) ≡ count p xs + count p ys
  count-append p [] ys = omega arith
  count-append p (x ∷ xs) ys = omega (arith, count-append p xs ys)

  pub replace_first-none :
      (p : A → Bool) (a : A) (xs : List A) → replace_first p a xs ≡ none → count p xs ≡ 0
  replace_first-none p a [] e = refl
  replace_first-none p a (x ∷ xs) e = elim (Bool-cases (p x)) [
    | inl h ↦ cc (rw h at e)
    | inr h ↦ elim (Option-cases (replace_first p a xs)) [
      | inl nothing ↦ rw h (omega (arith, replace_first-none p a xs nothing))
      | inr (ys, found) ↦ cc (rw (h, found) at e)
    ]
  ]

  pub any-count : (p : A → Bool) (xs : List A) → count p xs ≡ 0 → any p xs ≡ false
  any-count p [] e = refl
  any-count p (x ∷ xs) e = ground (arith, any-count p xs)

  pub count-ext : (p q : A → Bool) (xs : List A) → ((x : A) → p x ≡ q x) → count p xs ≡ count q xs
  count-ext p q [] h = refl
  count-ext p q (x ∷ xs) h = rw (h x) (ap (λ n. one (q x) + n) (count-ext p q xs h))

  -- Replacing an element by one that passes the same test changes neither length nor count.
  pub count-replace_first :
      (p q : A → Bool) (a : A) (xs ys : List A)
      → ((x : A) → p x ≡ true → q x ≡ q a)
      → replace_first p a xs ≡ some ys
      → (length ys ≡ length xs) × (count q ys ≡ count q xs)
  count-replace_first p q a [] ys h e = cc
  count-replace_first p q a (x ∷ xs) ys h e = elim (Bool-cases (p x)) [
    | inl t ↦ let same : ys ≡ a ∷ xs = cc (rw t at e) in rw same (refl, rw (h x t) refl)
    | inr f ↦ elim (Option-cases (replace_first p a xs)) [
      | inl nothing ↦ cc (rw (f, nothing) at e)
      | inr (zs, found) ↦
          let same : ys ≡ x ∷ zs = cc (rw (f, found) at e) in
          let (len, n) = count-replace_first p q a xs zs h found in
          rw same (ap suc len, ap (λ k. one (q x) + k) n)
    ]
  ]

  -- What was replaced or pushed is the first to pass two tests, and survives `retain`.
  pub find-replace_first :
      (p q r : A → Bool) (a : A) (xs ys : List A)
      → p a ≡ true
      → q a ≡ true
      → r a ≡ true
      → replace_first p a xs ≡ some ys
      → find (λ x. p x && q x) (retain r ys) ≡ some a
  find-replace_first p q r a [] ys hp hq hr e = cc
  find-replace_first p q r a (x ∷ xs) ys hp hq hr e = elim (Bool-cases (p x)) [
    | inl t ↦ let same : ys ≡ a ∷ xs = cc (rw t at e) in rw (same, hr, hp, hq)
    | inr f ↦ elim (Option-cases (replace_first p a xs)) [
      | inl nothing ↦ cc (rw (f, nothing) at e)
      | inr (zs, found) ↦
          let same : ys ≡ x ∷ zs = cc (rw (f, found) at e) in
          let rest = find-replace_first p q r a xs zs hp hq hr found in
          rw same (elim (Bool-cases (r x)) [ inl k ↦ rw (k, f) rest | inr k ↦ rw k rest ])
    ]
  ]

  pub find-push :
      (p q r : A → Bool) (a : A) (xs : List A)
      → p a ≡ true
      → q a ≡ true
      → r a ≡ true
      → count p xs ≡ 0
      → find (λ x. p x && q x) (retain r (xs ++ (a ∷ []))) ≡ some a
  find-push p q r a [] hp hq hr e = rw (hr, hp, hq)
  find-push p q r a (x ∷ xs) hp hq hr e =
      let rest = find-push p q r a xs hp hq hr (omega arith) in
      elim (Bool-cases (p x)) [
        | inl t ↦ absurd (omega (arith, rw t at e))
        | inr f ↦ elim (Bool-cases (r x)) [ inl k ↦ rw (k, f) rest | inr k ↦ rw k rest ]
      ]

  mem-cons :
      (r : A → Bool) (x : A) (xs kept : List A) {a : A}
      → r x ≡ true
      → (Memᴰ a kept → Memᴰ a xs × (r a ≡ true))
      → Memᴰ a (x ∷ kept)
      → Memᴰ a (x ∷ xs) × (r a ≡ true)
  mem-cons r x xs kept t h (Memᴰ.head same) = (Memᴰ.head same, rw same t)
  mem-cons r x xs kept t h (Memᴰ.tail m) = let (n, k) = h m in (Memᴰ.tail n, k)

  -- What `find` finds behind a `retain` stood in the list and passes both tests.
  pub retain-mem :
      (r : A → Bool) (xs : List A) {a : A} → Memᴰ a (retain r xs) → Memᴰ a xs × (r a ≡ true)
  retain-mem r [] m = elim m [ ]
  retain-mem r (x ∷ xs) m = elim (Bool-cases (r x)) [
    | inl t ↦ mem-cons r x xs (retain r xs) t (retain-mem r xs) (rw t at m)
    | inr f ↦ let (n, h) = retain-mem r xs (rw f at m) in (Memᴰ.tail n, h)
  ]
