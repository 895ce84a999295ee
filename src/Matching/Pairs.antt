-- ===== src/Matching/Pairs.antt =====
-- The nested loops collect the candidate of every pair, and no other.
use construct_fin.Prelude.{
  ◌≡◌, sym, ◌∙◌, inl, inr, Option, some, List, [], ◌∷◌, ◌++◌, All, All-append, Option-cases,
}
use mathlib.Core.Path.{subst}
use mathlib.Core.Option.{some-injective}
use construct_fin.Matching.{row, pairs}

append-All : {C : Type 0} (P : C → Type 0) (xs ys : List C) → All P (xs ++ ys) → All P xs × All P ys
append-All P [] ys h = (tt, h)
append-All P (x ∷ xs) ys (p, h) = let (l, r) = append-All P xs ys h in ((p, l), r)

module _ {A B C : Type 0} (candidate : A → B → Option C) (P : C → Type 0) where
  row-All :
      (a : A) (ys : List B)
      → All P (row candidate a ys)
      → All (λ b. (c : C) → candidate a b ≡ some c → P c) ys
  row-All a [] h = tt
  row-All a (b ∷ ys) h = elim (Option-cases (candidate a b)) [
    | inl missing ↦ ((λ c e. cc), row-All a ys (rw missing at h))
    | inr (k, found) ↦
        let both = rw found at h in
        ((λ c e. subst P (some-injective k c (sym found ∙ e)) both.0), row-All a ys both.1)
  ]

  pub pairs-All :
      (xs : List A) (ys : List B)
      → All P (pairs candidate xs ys)
      → All (λ a. All (λ b. (c : C) → candidate a b ≡ some c → P c) ys) xs
  pairs-All [] ys h = tt
  pairs-All (a ∷ xs) ys h =
      let (l, r) = append-All P (row candidate a ys) (pairs candidate xs ys) h in
      (row-All a ys l, pairs-All xs ys r)

  module _ (Q : A → Type 0) (R : B → Type 0)
      (gives : (a : A) (b : B) (c : C) → Q a → R b → candidate a b ≡ some c → P c) where
    All-row : (a : A) (ys : List B) → Q a → All R ys → All P (row candidate a ys)
    All-row a [] q h = tt
    All-row a (b ∷ ys) q (r, h) = elim (Option-cases (candidate a b)) [
      | inl missing ↦ rw missing (All-row a ys q h)
      | inr (k, found) ↦ rw found (gives a b k q r found, All-row a ys q h)
    ]

    pub All-pairs :
        (xs : List A) (ys : List B) → All Q xs → All R ys → All P (pairs candidate xs ys)
    All-pairs [] ys q h = tt
    All-pairs (a ∷ xs) ys (q, qs) h =
        All-append P (row candidate a ys) _ (All-row a ys q h) (All-pairs xs ys qs h)
