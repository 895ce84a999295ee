-- ===== src/Matching/Greedy.antt =====
-- What a greedy one-to-one matching promises: the matches share no side, and a candidate that is not
-- taken shares a side with a match that stands before it in the order.
use construct_fin.Prelude.{
  ◌≡◌, sym, ap, keep, ◌∙◌, inl, inr, ◌⊎◌, Bool, true, false, ◌||◌, List, [], ◌∷◌, arith, pos, ◌≤ℤ◌,
  All, All-map, All-map₂, Bool-cases,
}
use mathlib.Core.Path.{subst}
use construct_fin.Sorting.{Comparator, IsOrdered, IsPreorder, reflexive}
use construct_fin.Matching.{greedy}

-- Some element of the list has `P`.
abbrev pub Some : {A : Type 0} → (A → Type 0) → List A → Type 0
Some P [] = ⊥
Some P (x ∷ xs) = P x ⊎ Some P xs

pub all_at :
    {A : Type 0} (P : A → Type 0) (xs : List A) (a : A) → All P xs → Some (λ x. x ≡ a) xs → P a
all_at P [] a h m = absurd m
all_at P (x ∷ xs) a (p, h) (inl here) = subst P here p
all_at P (x ∷ xs) a (p, h) (inr there) = all_at P xs a h there

pub Some-kept :
    {A : Type 0} (p : A → Bool) (xs : List A) (a : A)
    → p a ≡ true
    → Some (λ x. x ≡ a) xs
    → Some (λ x. x ≡ a) (keep p xs)
Some-kept p [] a e m = absurd m
Some-kept p (x ∷ xs) a e (inl here) = rw (ap p here ∙ e) (inl here)
Some-kept p (x ∷ xs) a e (inr there) = elim (Bool-cases (p x)) [
  | inl kept ↦ rw kept (inr (Some-kept p xs a e there))
  | inr dropped ↦ rw dropped (Some-kept p xs a e there)
]

-- No two elements of the list share a side.
abbrev pub Apart : {C : Type 0} → (C → C → Bool) → List C → Type 0
Apart shares [] = Unit
Apart shares (c ∷ cs) = All (λ k. shares c k ≡ false) cs × Apart shares cs

-- A match that shares a side with `c` and does not stand behind it.
abbrev pub Prevents : {C : Type 0} → (C → C → Bool) → Comparator C → C → C → Type 0
Prevents shares compare c p = (shares p c ≡ true) × (compare p c ≤ℤ pos 0)

-- To take a match blocks what shares a side with it, and nothing else.
abbrev pub Blocks : {U C : Type 0} → (U → C → Bool) → (C → U → U) → (C → C → Bool) → Type 0
Blocks {U} {C} blocked add shares =
    (u : U) (x c : C) → blocked (add x u) c ≡ shares x c || blocked u c

module _ {U C : Type 0} (blocked : U → C → Bool) (add : C → U → U) (shares : C → C → Bool)
    (law : Blocks blocked add shares) where
  -- Every match was free.
  greedy_free : (u : U) (cs : List C) → All (λ c. blocked u c ≡ false) (greedy blocked add u cs)
  unfolding greedy
  greedy_free u [] = tt
  greedy_free u (c ∷ cs) = elim (Bool-cases (blocked u c)) [
    | inl taken ↦ rw taken (greedy_free u cs)
    | inr free ↦ rw free (
      free,
      All-map _ _ (λ k h. ground (arith, law u c k, h)) (greedy blocked add (add c u) cs)
          (greedy_free (add c u) cs),
    )
  ]

  pub greedy-Apart : (u : U) (cs : List C) → Apart shares (greedy blocked add u cs)
  unfolding greedy
  greedy-Apart u [] = tt
  greedy-Apart u (c ∷ cs) = elim (Bool-cases (blocked u c)) [
    | inl taken ↦ rw taken (greedy-Apart u cs)
    | inr free ↦ rw free (
      All-map _ _ (λ k h. ground (arith, law u c k, h)) (greedy blocked add (add c u) cs)
          (greedy_free (add c u) cs),
      greedy-Apart (add c u) cs,
    )
  ]

  pub All-greedy :
      (P : C → Type 0) (u : U) (cs : List C) → All P cs → All P (greedy blocked add u cs)
  unfolding greedy
  All-greedy P u [] h = tt
  All-greedy P u (c ∷ cs) (p, h) = elim (Bool-cases (blocked u c)) [
    | inl taken ↦ rw taken (All-greedy P u cs h)
    | inr free ↦ rw free (p, All-greedy P (add c u) cs h)
  ]

  greedy_over :
      (u : U) (c : C) (cs : List C)
      → blocked u c ≡ true
      → greedy blocked add u (c ∷ cs) ≡ greedy blocked add u cs
  unfolding greedy
  greedy_over u c cs taken = ground (arith, taken)

  greedy_take :
      (u : U) (c : C) (cs : List C)
      → blocked u c ≡ false
      → greedy blocked add u (c ∷ cs) ≡ c ∷ greedy blocked add (add c u) cs
  unfolding greedy
  greedy_take u c cs free = ground (arith, free)

  module _ (compare : Comparator C) (pre : IsPreorder compare)
      (self : (c : C) → shares c c ≡ true) where
    abbrev Settled : U → List C → C → Type 0
    Settled u ms c = (blocked u c ≡ true) ⊎ Some (Prevents shares compare c) ms

    behind :
        (u : U) (c k : C) (ms : List C)
        → compare c k ≤ℤ pos 0
        → Settled (add c u) ms k
        → Settled u (c ∷ ms) k
    behind u c k ms before (inr found) = inr (inr found)
    behind u c k ms before (inl now) = elim (Bool-cases (shares c k)) [
      | inl shared ↦ inr (inl (shared, before))
      | inr other ↦ inl (ground (arith, law u c k, other, now))
    ]

    pub greedy-Prevents :
        (u : U) (cs : List C)
        → IsOrdered compare cs
        → All
            (λ c. (blocked u c ≡ true) ⊎ Some (Prevents shares compare c) (greedy blocked add u cs))
            cs
    greedy-Prevents u [] h = tt
    greedy-Prevents u (c ∷ cs) (le, h) = elim (Bool-cases (blocked u c)) [
      | inl taken ↦
          subst (λ ms. All (Settled u ms) (c ∷ cs)) (sym (greedy_over u c cs taken))
            (inl taken, greedy-Prevents u cs h)
      | inr free ↦
          subst (λ ms. All (Settled u ms) (c ∷ cs)) (sym (greedy_take u c cs free))
            (
              inr (inl (self c, reflexive compare pre c)),
              All-map₂ _ _ _ (λ k. behind u c k (greedy blocked add (add c u) cs)) cs le
                  (greedy-Prevents (add c u) cs h),
            )
    ]
