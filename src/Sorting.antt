-- ===== src/Sorting.antt =====
-- `Array.prototype.sort` with a comparator, as the code calls it (apps/api/src/rule/engine.ts,
-- apps/api/src/integrations/transfer-match.ts, apps/api/src/orders/payment-schedule.ts, ...): stable,
-- and ordered where the comparator is a total preorder.
pub mod Comparators
use mathlib.Core.List.{Perm}
use mathlib.Core.List.Perm
use construct_fin.Prelude.{
  length, suc, ℕ, ◌≡◌, refl, sym, ◌∙◌, inl, inr, Bool, true, false, List, [], ◌∷◌, ◌++◌, arith, ℤ,
  pos, neg, ◌+ℤ◌, ◌-ℤ◌, ◌≤ℤ◌, leb_ℤ, eqb_ℤ, if◌then◌else◌, All, All-map, Bool-cases, int_laws,
  sum_by, ap,
}

-- A comparator answers below 0, 0, or above 0.
abbrev pub Comparator : Type 0 → Type 0
Comparator A = A → A → ℤ

-- `a || b` on the answers of comparators.
infixr 4 ◌or_else◌
abbrev pub ◌or_else◌ : ℤ → ℤ → ℤ
a or_else b = if eqb_ℤ a (pos 0) then b else a

module _ {A : Type 0} (compare : Comparator A) where
  unfoldable pub insert : A → List A → List A
  insert x [] = x ∷ []
  insert x (y ∷ ys) =
      let rest = insert x ys in if leb_ℤ (compare x y) (pos 0) then x ∷ y ∷ ys else y ∷ rest

  unfoldable pub sort : List A → List A
  unfolding insert
  sort [] = []
  sort (x ∷ xs) = insert x (sort xs)

  -- What is asked of a comparator: it orders, and its answer turns its sign with the arguments.
  pub record IsPreorder : Type 0 where
    pub turned : (x y : A) → compare x y ≤ℤ pos 0 → pos 0 ≤ℤ compare y x
    pub back : (x y : A) → pos 0 ≤ℤ compare y x → compare x y ≤ℤ pos 0
    pub transitive :
        (x y z : A) → compare x y ≤ℤ pos 0 → compare y z ≤ℤ pos 0 → compare x z ≤ℤ pos 0

  pub reflexive : IsPreorder → (x : A) → compare x x ≤ℤ pos 0
  reflexive pre x = elim (Bool-cases (leb_ℤ (compare x x) (pos 0))) [
    | inl le ↦ ground (arith, le)
    | inr gt ↦ pre.back x x (ground (arith, gt))
  ]

  total : IsPreorder → (x y : A) → leb_ℤ (compare x y) (pos 0) ≡ false → compare y x ≤ℤ pos 0
  total pre x y gt = pre.back y x (ground (arith, gt))

  abbrev pub IsOrdered : List A → Type 0
  IsOrdered [] = Unit
  IsOrdered (x ∷ xs) = All (λ y. compare x y ≤ℤ pos 0) xs × IsOrdered xs

  pub All-insert : (P : A → Type 0) (x : A) (ys : List A) → P x → All P ys → All P (insert x ys)
  unfolding insert
  All-insert P x [] p h = (p, tt)
  All-insert P x (y ∷ ys) p (q, h) = elim (Bool-cases (leb_ℤ (compare x y) (pos 0))) [
    | inl first ↦ rw first (p, (q, h))
    | inr later ↦ rw later (q, All-insert P x ys p h)
  ]

  pub All-sort : (P : A → Type 0) (xs : List A) → All P xs → All P (sort xs)
  unfolding sort
  All-sort P [] h = tt
  All-sort P (x ∷ xs) (p, h) = All-insert P x (sort xs) p (All-sort P xs h)

  sum_by-insert : (f : A → ℤ) (x : A) (ys : List A) → sum_by f (insert x ys) ≡ f x +ℤ sum_by f ys
  unfolding insert
  sum_by-insert f x [] = refl
  sum_by-insert f x (y ∷ ys) = elim (Bool-cases (leb_ℤ (compare x y) (pos 0))) [
    | inl first ↦ rw first refl
    | inr later ↦ rw (later, sum_by-insert f x ys) (omega int_laws)
  ]

  pub sum_by-sort : (f : A → ℤ) (xs : List A) → sum_by f (sort xs) ≡ sum_by f xs
  unfolding sort
  sum_by-sort f [] = refl
  sum_by-sort f (x ∷ xs) = sum_by-insert f x (sort xs) ∙ ap (λ n. f x +ℤ n) (sum_by-sort f xs)

  length-insert : (x : A) (ys : List A) → length (insert x ys) ≡ suc (length ys)
  unfolding insert
  length-insert x [] = refl
  length-insert x (y ∷ ys) = elim (Bool-cases (leb_ℤ (compare x y) (pos 0))) [
    | inl first ↦ rw first refl
    | inr later ↦ rw (later, length-insert x ys) refl
  ]

  pub length-sort : (xs : List A) → length (sort xs) ≡ length xs
  unfolding sort
  length-sort [] = refl
  length-sort (x ∷ xs) = length-insert x (sort xs) ∙ ap suc (length-sort xs)

  insert-Perm : (x : A) (ys : List A) → Perm (insert x ys) (x ∷ ys)
  unfolding insert
  insert-Perm x [] = Perm.refl _
  insert-Perm x (y ∷ ys) = elim (Bool-cases (leb_ℤ (compare x y) (pos 0))) [
    | inl first ↦ rw first (Perm.refl _)
    | inr later ↦ rw later (Perm.trans (Perm.cons y (insert-Perm x ys)) (Perm.swap x y ys))
  ]

  -- The elements stay the same.
  pub sort-Perm : (xs : List A) → Perm (sort xs) xs
  unfolding sort
  sort-Perm [] = Perm.refl _
  sort-Perm (x ∷ xs) = Perm.trans (insert-Perm x (sort xs)) (Perm.cons x (sort-Perm xs))

  -- What holds of every element that was sorted held before.
  insert-All : (P : A → Type 0) (x : A) (ys : List A) → All P (insert x ys) → P x × All P ys
  unfolding insert
  insert-All P x [] h = h
  insert-All P x (y ∷ ys) h = elim (Bool-cases (leb_ℤ (compare x y) (pos 0))) [
    | inl first ↦ rw first at h
    | inr later ↦ let k = rw later at h in let (q, hs) = insert-All P x ys k.1 in (q, (k.0, hs))
  ]

  pub sort-All : (P : A → Type 0) (xs : List A) → All P (sort xs) → All P xs
  unfolding sort
  sort-All P [] h = tt
  sort-All P (x ∷ xs) h = let (p, hs) = insert-All P x (sort xs) h in (p, sort-All P xs hs)

  module _ (pre : IsPreorder) where
    insert-IsOrdered : (x : A) (ys : List A) → IsOrdered ys → IsOrdered (insert x ys)
    unfolding insert
    insert-IsOrdered x [] h = (tt, tt)
    insert-IsOrdered x (y ∷ ys) (le, h) = elim (Bool-cases (leb_ℤ (compare x y) (pos 0))) [
      | inl first ↦
          let here : compare x y ≤ℤ pos 0 = ground (arith, first) in
          rw first ((here, All-map _ _ (λ z q. pre.transitive x y z here q) ys le), (le, h))
      | inr later ↦ rw later (
        All-insert (λ z. compare y z ≤ℤ pos 0) x ys (total pre x y later) le,
        insert-IsOrdered x ys h,
      )
    ]

    pub sort-IsOrdered : (xs : List A) → IsOrdered (sort xs)
    unfolding sort
    sort-IsOrdered [] = tt
    sort-IsOrdered (x ∷ xs) = insert-IsOrdered x (sort xs) (sort-IsOrdered xs)
