-- ===== src/Wired/Macsec/Lists.antt =====
-- Lists of SAs with different ANs and without packet numbers.
use shuli.Base.{
  AllOption, ℕ, ◌≡◌, refl, arith, Bool, true, false, none, List, [], ◌∷◌, ◌++◌, All, find, is_some,
  Bool-cases, ==_iff, inl, inr,
}
use shuli.Wired.Macsec.Desired.{
  MacsecSaConfig, update_first, remove_first, is_an, forget_pn, activate, new_sa,
}

-- No SA of the list has the AN.
abbrev pub Lacks : ℕ → List MacsecSaConfig → Type 0
Lacks an sas = All (λ sa. is_an an sa ≡ false) sas

-- The SAs carry no packet number, and have different ANs.
abbrev pub AreSettled : List MacsecSaConfig → Type 0
AreSettled [] = Unit {0}
AreSettled (sa ∷ sas) = (sa.pn ≡ none) × Lacks sa.an sas × AreSettled sas

remove_first-All :
    (P : MacsecSaConfig → Type 0) (p : MacsecSaConfig → Bool) (sas : List MacsecSaConfig)
    → All P sas
    → All P (remove_first p sas)
unfolding remove_first
remove_first-All P p [] h = tt
remove_first-All P p (sa ∷ sas) (here, h) = elim (Bool-cases (p sa)) [
  | inl found ↦ rw found h
  | inr other ↦ rw other (here, remove_first-All P p sas h)
]

pub remove_first-AreSettled :
    (an : ℕ) (sas : List MacsecSaConfig)
    → AreSettled sas
    → AreSettled (remove_first (is_an an) sas) × Lacks an (remove_first (is_an an) sas)
unfolding remove_first
remove_first-AreSettled an [] h = (tt, tt)
remove_first-AreSettled an (sa ∷ sas) (pn, lacks, h) = elim (Bool-cases (is_an an sa)) [
  | inl found ↦ let same : sa.an ≡ an = (==_iff sa.an an).0 found in rw found (h, rw same at lacks)
  | inr other ↦
      let (settled, lack) = remove_first-AreSettled an sas h in
      rw other ((pn, remove_first-All _ (is_an an) sas lacks, settled), (other, lack))
]

pub find-Lacks :
    (an : ℕ) (sas : List MacsecSaConfig) → is_some (find (is_an an) sas) ≡ false → Lacks an sas
find-Lacks an [] h = tt
find-Lacks an (sa ∷ sas) h = elim (Bool-cases (is_an an sa)) [
  | inl found ↦ cc (rw found at h)
  | inr other ↦ (other, find-Lacks an sas (rw other at h))
]

update_first-Lacks :
    (an : ℕ) (f : MacsecSaConfig → MacsecSaConfig) (sas : List MacsecSaConfig) (sa : MacsecSaConfig)
    → Lacks an sas
    → is_an an sa ≡ true
    → update_first (is_an an) f (sas ++ (sa ∷ [])) ≡ sas ++ (f sa ∷ [])
unfolding update_first
update_first-Lacks an f [] sa h is = rw is refl
update_first-Lacks an f (other ∷ sas) sa (not_an, h) is =
    rw (not_an, update_first-Lacks an f sas sa h is) refl

append-Lacks :
    (an : ℕ) (sas : List MacsecSaConfig) (sa : MacsecSaConfig)
    → Lacks an sas
    → is_an an sa ≡ false
    → Lacks an (sas ++ (sa ∷ []))
append-Lacks an [] sa h other = (other, tt)
append-Lacks an (first ∷ sas) sa (here, h) other = (here, append-Lacks an sas sa h other)

append-AreSettled :
    (sas : List MacsecSaConfig) (sa : MacsecSaConfig)
    → AreSettled sas
    → Lacks sa.an sas
    → sa.pn ≡ none
    → AreSettled (sas ++ (sa ∷ []))
append-AreSettled [] sa h lacks pn = (pn, tt, tt)
append-AreSettled (first ∷ sas) sa (pn1, apart, h) (here, lacks) pn =
    (pn1, append-Lacks first.an sas sa apart (ground arith), append-AreSettled sas sa h lacks pn)

-- A new SA at the end loses its packet number.
pub placed-AreSettled :
    (an : ℕ) (active : Bool) (key_id sak : List ℕ) (sas : List MacsecSaConfig)
    → AreSettled sas
    → Lacks an sas
    → AreSettled (update_first (is_an an) forget_pn (sas ++ (new_sa an active key_id sak ∷ [])))
unfolding new_sa
placed-AreSettled an active key_id sak sas h lacks =
    rw (update_first-Lacks an forget_pn sas (new_sa an active key_id sak) lacks (ground arith))
      (append-AreSettled sas (forget_pn (new_sa an active key_id sak)) h lacks refl)

activate-Lacks :
    (k an : ℕ) (sas : List MacsecSaConfig)
    → Lacks k sas
    → Lacks k (update_first (is_an an) activate sas)
unfolding update_first
activate-Lacks k an [] h = tt
activate-Lacks k an (sa ∷ sas) (here, h) = elim (Bool-cases (is_an an sa)) [
  | inl found ↦ rw found (here, h)
  | inr other ↦ rw other (here, activate-Lacks k an sas h)
]

pub activate-AreSettled :
    (an : ℕ) (sas : List MacsecSaConfig)
    → AreSettled sas
    → AreSettled (update_first (is_an an) activate sas)
unfolding update_first
activate-AreSettled an [] h = tt
activate-AreSettled an (sa ∷ sas) (pn, apart, h) = elim (Bool-cases (is_an an sa)) [
  | inl found ↦ rw found (pn, apart, h)
  | inr other ↦ rw other (pn, activate-Lacks sa.an an sas apart, activate-AreSettled an sas h)
]

-- A change of the first match keeps a property that it gives to the match.
pub update_first-All :
    {A : Type 0} (P Q : A → Type 0) (p : A → Bool) (f : A → A) (xs : List A)
    → All P xs
    → AllOption Q (find p xs)
    → ((x : A) → P x → Q x → P (f x))
    → All P (update_first p f xs)
unfolding update_first
update_first-All P Q p f [] h q k = tt
update_first-All P Q p f (x ∷ xs) (here, h) q k = elim (Bool-cases (p x)) [
  | inl found ↦ rw found (k x here (rw found at q), h)
  | inr other ↦ rw other (here, update_first-All P Q p f xs h (rw other at q) k)
]

-- Two changes of the first match are one, and the match stays the match.
pub update_first-update_first :
    {A : Type 0} (p : A → Bool) (f g : A → A) (xs : List A)
    → ((x : A) → p (f x) ≡ p x)
    → update_first p g (update_first p f xs) ≡ update_first p (λ x. g (f x)) xs
unfolding update_first
update_first-update_first p f g [] same = refl
update_first-update_first p f g (x ∷ xs) same = elim (Bool-cases (p x)) [
  | inl found ↦ rw (found, same x, found) refl
  | inr other ↦ rw (other, other, update_first-update_first p f g xs same) refl
]

pub find-update_first :
    {A : Type 0} (P Q : A → Type 0) (p : A → Bool) (f : A → A) (xs : List A)
    → All P xs
    → ((x : A) → p (f x) ≡ p x)
    → ((x : A) → P x → Q (f x))
    → AllOption Q (find p (update_first p f xs))
unfolding update_first
find-update_first P Q p f [] h same q = tt
find-update_first P Q p f (x ∷ xs) (here, h) same q = elim (Bool-cases (p x)) [
  | inl found ↦ rw (found, same x, found) (q x here)
  | inr other ↦ rw (other, other) (find-update_first P Q p f xs h same q)
]
