-- ===== src/Prelude/Lists.antt =====
-- Lists measured by native numbers, sums over a list, and predicates on every element.
use Prim.Native.Nat.{ℕ, suc, ◌+◌}
use mathlib.Core.Path.{◌≡◌, refl}
use mathlib.Core.Bool.{Bool, true, false, ◌&&◌, ◌||◌}
use mathlib.Core.Option.{Option, none, some}
use mathlib.Core.List.{List, [], ◌∷◌, ◌++◌, map}
use mathlib.Core.Option.{some-injective}
use mathlib.Core.Path.{subst}
use mathlib.Core.Logic.{◌⊎◌, inl, inr}
use native.Mathlib.Omega.{arith}
use construct_fin.Prelude.Tests.{◌==◌, Bool-cases, if◌then◌else◌}
use construct_fin.Prelude.Int.{ℤ, pos, ◌+ℤ◌, ◌≤ℤ◌, int_laws}

module _ {ℓ} {A : Type ℓ} where
  abbrev pub length : List A → ℕ
  length [] = 0
  length (x ∷ xs) = suc (length xs)

  pub length-append : (xs ys : List A) → length (xs ++ ys) ≡ length xs + length ys
  length-append [] ys = omega arith
  length-append (x ∷ xs) ys = omega (arith, length-append xs ys)

  abbrev pub All {κ} : (A → Type κ) → List A → Type κ
  All P [] = Unit
  All P (x ∷ xs) = P x × All P xs

  abbrev pub AnyOf : (A → Type 0) → List A → Type 0
  AnyOf P [] = ⊥
  AnyOf P (x ∷ xs) = P x ⊎ AnyOf P xs

  pub All-append {κ} : (P : A → Type κ) (xs ys : List A) → All P xs → All P ys → All P (xs ++ ys)
  All-append P [] ys _ q = q
  All-append P (x ∷ xs) ys (p, ps) q = (p, All-append P xs ys ps q)

  pub All-map {κ μ} :
      (P : A → Type κ) (Q : A → Type μ)
      → ((x : A) → P x → Q x)
      → (xs : List A) → All P xs
      → All Q xs
  All-map P Q f [] h = tt
  All-map P Q f (x ∷ xs) (p, ps) = (f x p, All-map P Q f xs ps)

  pub All-map₂ {κ μ ν} :
      (P : A → Type κ) (Q : A → Type μ) (R : A → Type ν)
      → ((x : A) → P x → Q x → R x)
      → (xs : List A) → All P xs
      → All Q xs
      → All R xs
  All-map₂ P Q R f [] h k = tt
  All-map₂ P Q R f (x ∷ xs) (p, ps) (q, qs) = (f x p q, All-map₂ P Q R f xs ps qs)

  -- `Array.prototype.filter`, `some` and `every`, with a Boolean test.
  abbrev pub keep : (A → Bool) → List A → List A
  keep p [] = []
  keep p (x ∷ xs) = if p x then x ∷ keep p xs else keep p xs

  abbrev pub any : (A → Bool) → List A → Bool
  any p [] = false
  any p (x ∷ xs) = p x || any p xs

  abbrev pub every : (A → Bool) → List A → Bool
  every p [] = true
  every p (x ∷ xs) = p x && every p xs

  abbrev pub find : (A → Bool) → List A → Option A
  find p [] = none
  find p (x ∷ xs) = if p x then some x else find p xs

  -- Σ f over a list.
  abbrev pub sum_by : (A → ℤ) → List A → ℤ
  sum_by f [] = pos 0
  sum_by f (x ∷ xs) = f x +ℤ sum_by f xs

  pub sum_by-append :
      (f : A → ℤ) (xs ys : List A) → sum_by f (xs ++ ys) ≡ sum_by f xs +ℤ sum_by f ys
  sum_by-append f [] ys = omega int_laws
  sum_by-append f (x ∷ xs) ys = rw (sum_by-append f xs ys) (omega int_laws)

  pub sum_by_nonneg : (f : A → ℤ) (xs : List A) → All (λ x. pos 0 ≤ℤ f x) xs → pos 0 ≤ℤ sum_by f xs
  sum_by_nonneg f [] h = omega arith
  sum_by_nonneg f (x ∷ xs) (p, ps) = omega (int_laws, sum_by_nonneg f xs ps)

pub sum_by-map {ℓ κ} :
    {A : Type ℓ} {B : Type κ} (f : B → ℤ) (g : A → B) (xs : List A)
    → sum_by f (map g xs) ≡ sum_by (λ x. f (g x)) xs
sum_by-map f g [] = refl
sum_by-map f g (x ∷ xs) = rw (sum_by-map f g xs)

-- Membership of an id in a `Set` of ids, kept as the list of what was added.
abbrev pub has : ℕ → List ℕ → Bool
has x [] = false
has x (y ∷ ys) = x == y || has x ys

module _ {A : Type 0} (p : A → Bool) where
  -- What `find` finds passes the test, and has what every element has.
  pub find_passes : (xs : List A) {x : A} → find p xs ≡ some x → p x ≡ true
  find_passes [] e = cc
  find_passes (y ∷ ys) {x} e = elim (Bool-cases (p y)) [
    | inl found ↦ rw (some-injective _ _ (rw found at e)) at found
    | inr other ↦ find_passes ys (rw other at e)
  ]

  pub find_has : (P : A → Type 0) (xs : List A) {x : A} → All P xs → find p xs ≡ some x → P x
  find_has P [] h e = cc
  find_has P (y ∷ ys) {x} (q, qs) e = elim (Bool-cases (p y)) [
    | inl found ↦ subst P (some-injective _ _ (rw found at e)) q
    | inr other ↦ find_has P ys qs (rw other at e)
  ]

  -- What is found is there, and where nothing is found nothing is there that passes the test.
  pub find-AnyOf :
      (P : A → Type 0)
      → ((x : A) → p x ≡ true → P x)
      → (xs : List A) {x : A} → find p xs ≡ some x
      → AnyOf P xs
  find-AnyOf P f [] e = cc
  find-AnyOf P f (y ∷ ys) e = elim (Bool-cases (p y)) [
    | inl found ↦ inl (f y found)
    | inr other ↦ inr (find-AnyOf P f ys (rw other at e))
  ]

  pub find-not-AnyOf :
      (P : A → Type 0)
      → ((x : A) → P x → p x ≡ true)
      → (xs : List A) → find p xs ≡ none
      → ¬ AnyOf P xs
  find-not-AnyOf P f [] e h = h
  find-not-AnyOf P f (y ∷ ys) e (inl q) = let t = f y q in absurd (ground (arith, t, e))
  find-not-AnyOf P f (y ∷ ys) e (inr h) = elim (Bool-cases (p y)) [
    | inl found ↦ absurd (ground (arith, found, e))
    | inr other ↦ find-not-AnyOf P f ys (rw other at e) h
  ]

-- What is kept has what the test promises.
pub keep_has :
    {A : Type 0} (p : A → Bool) (P : A → Type 0)
    → ((x : A) → p x ≡ true → P x)
    → (xs : List A) → All P (keep p xs)
keep_has p P f [] = tt
keep_has p P f (x ∷ xs) = elim (Bool-cases (p x)) [
  | inl kept ↦ rw kept (f x kept, keep_has p P f xs)
  | inr dropped ↦ rw dropped (keep_has p P f xs)
]

pub All-map_of :
    {A B : Type 0} (f : A → B) (P : B → Type 0) (xs : List A)
    → All (λ x. P (f x)) xs
    → All P (map f xs)
All-map_of f P [] h = tt
All-map_of f P (x ∷ xs) (p, h) = (p, All-map_of f P xs h)

pub All-hold : {A : Type 0} (P : A → Type 0) → ((x : A) → P x) → (xs : List A) → All P xs
All-hold P f [] = tt
All-hold P f (x ∷ xs) = (f x, All-hold P f xs)
