-- ===== src/Fifo/Drain.antt =====
-- The loop of consumePlan and reversePlan (apps/api/src/common/fifo.ts): what it takes in all, what
-- that costs, and how it splits over two runs of sources.
use construct_fin.Prelude.{
  ◌≡◌, inl, inr, List, [], ◌∷◌, arith, ℤ, pos, ◌+ℤ◌, ◌-ℤ◌, ◌*ℤ◌, ◌≤ℤ◌, ◌<ℤ◌, ltb_ℤ, min_ℤ, max_ℤ,
  int_laws, zero_+ℤ, sum_by, Bool-cases, if◌then◌else◌,
}
use construct_fin.Fifo.{drain, taken}

take_more :
    (need a s : ℤ)
    → pos 0 <ℤ need
    → pos 0 <ℤ a
    → pos 0 ≤ℤ s
    → let t = if ltb_ℤ need a then need else a in
      (t +ℤ min_ℤ (need -ℤ t) s ≡ min_ℤ need (a +ℤ s)) × (pos 0 ≤ℤ need -ℤ t)
unfolding ◌+ℤ◌ ◌-ℤ◌
take_more need a s hn ha hs = (ground arith, ground arith)

take_none : (need s : ℤ) → min_ℤ need s ≡ min_ℤ need (pos 0 +ℤ s)
take_none need s = rw (zero_+ℤ s)

take_nothing :
    (need a s : ℤ)
    → pos 0 ≤ℤ need
    → need ≤ℤ pos 0
    → pos 0 ≤ℤ s
    → pos 0 ≡ min_ℤ need (max_ℤ (pos 0) a +ℤ s)
unfolding ◌+ℤ◌
take_nothing need a s h k hs = ground arith

-- The steps come from the sources in order, each source giving a positive part of what it holds.
pub data Draws {A S : Type 0} (amount : A → ℤ) (step : A → ℤ → S) : List A → List S → Type 0 where
  end : (xs : List A) → Draws amount step xs []
  pass :
      (a : A) {xs : List A} {ss : List S} → Draws amount step xs ss → Draws amount step (a ∷ xs) ss
  draw :
      (a : A) (t : ℤ) {xs : List A} {ss : List S}
      → pos 0 <ℤ t
      → t ≤ℤ amount a
      → Draws amount step xs ss
      → Draws amount step (a ∷ xs) (step a t ∷ ss)

-- What the sources hold, an amount below zero counting as none.
module _ {A : Type 0} (amount : A → ℤ) where
  abbrev pub stock : List A → ℤ
  stock = sum_by (λ a. max_ℤ (pos 0) (amount a))

  pub stock_nonneg : (xs : List A) → pos 0 ≤ℤ stock xs
  stock_nonneg [] = omega arith
  stock_nonneg (a ∷ xs) = grind (int_laws, stock_nonneg xs)

  pub sum_by-le-stock : (xs : List A) → sum_by amount xs ≤ℤ stock xs
  sum_by-le-stock [] = omega arith
  sum_by-le-stock (a ∷ xs) = grind (int_laws, sum_by-le-stock xs)

module _ {A S : Type 0} (amount price : A → ℤ) (step : A → ℤ → S) where
  pub drain-Draws :
      (xs : List A) (need c : ℤ) → Draws amount step xs (drain amount price step xs need c).0
  unfolding drain
  drain-Draws [] need c = end []
  drain-Draws (a ∷ xs) need c =
      let t = taken amount price step a need in
      elim (Bool-cases (ltb_ℤ (pos 0) need)) [
        | inl wanted ↦ elim (Bool-cases (ltb_ℤ (pos 0) (amount a))) [
          | inl full ↦
              rw (wanted, full)
                (draw a t (ground arith) (ground arith)
                  (drain-Draws xs (need -ℤ t) (c +ℤ t *ℤ price a)))
          | inr empty ↦ rw (wanted, empty) (pass a (drain-Draws xs need c))
        ]
        | inr done ↦ rw done (end (a ∷ xs))
      ]

  module _ (qty cost : S → ℤ) (step_qty : (a : A) (t : ℤ) → qty (step a t) ≡ t)
      (step_cost : (a : A) (t : ℤ) → cost (step a t) ≡ t *ℤ price a) where
    -- The loop takes what is needed, or all there is.
    pub drain_qty :
        (xs : List A) (need c : ℤ)
        → pos 0 ≤ℤ need
        → sum_by qty (drain amount price step xs need c).0 ≡ min_ℤ need (stock amount xs)
    unfolding drain
    drain_qty [] need c h = ground arith
    drain_qty (a ∷ xs) need c h =
        let t = taken amount price step a need in
        let s = stock_nonneg amount xs in
        elim (Bool-cases (ltb_ℤ (pos 0) need)) [
          | inl wanted ↦ elim (Bool-cases (ltb_ℤ (pos 0) (amount a))) [
            | inl full ↦
                let (same, rest) =
                  take_more need (amount a) (stock amount xs) (ground arith) (ground arith) s in
                rw (wanted, full, step_qty a t, drain_qty xs (need -ℤ t) (c +ℤ t *ℤ price a) rest)
                  same
            | inr empty ↦
                rw (wanted, empty, drain_qty xs need c h) (take_none need (stock amount xs))
          ]
          | inr done ↦ rw done (take_nothing need (amount a) (stock amount xs) h (ground arith) s)
        ]

    pub drain_cost :
        (xs : List A) (need c : ℤ)
        → let out = drain amount price step xs need c in out.1 ≡ c +ℤ sum_by cost out.0
    unfolding drain
    drain_cost [] need c = omega int_laws
    drain_cost (a ∷ xs) need c =
        let t = taken amount price step a need in
        elim (Bool-cases (ltb_ℤ (pos 0) need)) [
          | inl wanted ↦ elim (Bool-cases (ltb_ℤ (pos 0) (amount a))) [
            | inl full ↦
                rw (wanted, full, step_cost a t, drain_cost xs (need -ℤ t) (c +ℤ t *ℤ price a))
                  (omega int_laws)
            | inr empty ↦ rw (wanted, empty) (drain_cost xs need c)
          ]
          | inr done ↦ rw done (omega int_laws)
        ]
