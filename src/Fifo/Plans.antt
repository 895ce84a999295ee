-- ===== src/Fifo/Plans.antt =====
-- consumePlan and reversePlan (apps/api/src/common/fifo.ts): every outcome, the FIFO order of what
-- is taken, and the reversal of all that was consumed.
use construct_fin.Prelude.{
  ◌≡◌, refl, ◌∙◌, sym, inl, inr, List, [], ◌∷◌, ◌++◌, arith, ℤ, pos, ◌+ℤ◌, ◌-ℤ◌, ◌*ℤ◌, ◌≤ℤ◌, ◌<ℤ◌,
  ltb_ℤ, min_ℤ, zero_+ℤ, sum_by, Bool-cases,
}
use construct_fin.Prelude.Result.{Result, ok, err}
use construct_fin.Fifo.{
  OpenLot, ConsumeStep, ReversibleConsumption, ReverseStep, Plan, FifoError, not_positive,
  insufficient_stock, insufficient_reversible, drain, taken, plan, consume_plan, reverse_plan,
  consume_step, reverse_step,
}
use construct_fin.Fifo.Drain.{
  Draws, end, stock, sum_by-le-stock, drain-Draws, drain_qty, drain_cost,
}

-- A plan that covers a request: its steps draw on the sources in order, and their quantities and
-- costs add up.
pub record Covers {A S : Type 0} (amount : A → ℤ) (step : A → ℤ → S) (qty cost : S → ℤ)
    (sources : List A) (need : ℤ) (p : Plan S) : Type 0 where
  pub total : p.total_qty ≡ need
  pub sum_qty : sum_by qty p.steps ≡ need
  pub sum_cost : sum_by cost p.steps ≡ p.total_cost
  pub in_order : Draws amount step sources p.steps

abbrev pub step_cost : ConsumeStep → ℤ
step_cost s = s.qty *ℤ s.unit_cost

abbrev pub reverse_cost : ReverseStep → ℤ
reverse_cost s = s.qty *ℤ s.unit_cost

abbrev pub held : List OpenLot → ℤ
held = sum_by (λ l. l.qty_remaining)

abbrev pub left_of : List ReversibleConsumption → ℤ
left_of = sum_by (λ c. c.remaining)

-- What a call of consumePlan has done, by how it ended.
abbrev pub Consumed : List OpenLot → ℤ → Result FifoError (Plan ConsumeStep) → Type 0
Consumed lots need (ok p) =
    (pos 0 <ℤ need)
    × (need ≤ℤ held lots)
    × Covers (λ l. l.qty_remaining) consume_step (λ s. s.qty) step_cost lots need p
Consumed lots need (err not_positive) = need ≤ℤ pos 0
Consumed lots need (err (insufficient_stock a r)) =
    (pos 0 <ℤ need) × (held lots <ℤ need) × (a ≡ held lots) × (r ≡ need)
Consumed lots need (err (insufficient_reversible a r)) = ⊥

abbrev pub Reversed : List ReversibleConsumption → ℤ → Result FifoError (Plan ReverseStep) → Type 0
Reversed cs need (ok p) =
    (pos 0 <ℤ need)
    × (need ≤ℤ left_of cs)
    × Covers (λ c. c.remaining) reverse_step (λ s. s.qty) reverse_cost cs need p
Reversed cs need (err not_positive) = need ≤ℤ pos 0
Reversed cs need (err (insufficient_stock a r)) = ⊥
Reversed cs need (err (insufficient_reversible a r)) =
    (pos 0 <ℤ need) × (left_of cs <ℤ need) × (a ≡ left_of cs) × (r ≡ need)

module _ {A S : Type 0} (amount price : A → ℤ) (step : A → ℤ → S) (qty cost : S → ℤ)
    (step_qty : (a : A) (t : ℤ) → qty (step a t) ≡ t)
    (step_price : (a : A) (t : ℤ) → cost (step a t) ≡ t *ℤ price a) where
  drain-Covers :
      (xs : List A) (need : ℤ)
      → pos 0 <ℤ need
      → need ≤ℤ sum_by amount xs
      → let out = drain amount price step xs need (pos 0) in
        Covers amount step qty cost xs need
          (record { steps = out.0; total_qty = need; total_cost = out.1 })
  drain-Covers xs need h k = record {
    total = refl;
    sum_qty =
        drain_qty amount price step qty cost step_qty step_price xs need (pos 0) (omega arith)
        ∙ enough;
    sum_cost =
        sym (drain_cost amount price step qty cost step_qty step_price xs need (pos 0) ∙ zero_+ℤ _);
    in_order = drain-Draws amount price step xs need (pos 0);
  }
    where
      enough : min_ℤ need (stock amount xs) ≡ need
      enough = ground (arith, sum_by-le-stock amount xs)

-- consumePlan refuses a request that is not positive and one above the sum of the remainders, naming
-- the sum and the request; any other request is covered exactly, by positive parts of lots in order,
-- and the total cost is the sum of the parts at their lots' costs.
pub consume_plan_outcome :
    (lots : List OpenLot) (need : ℤ) → Consumed lots need (consume_plan lots need)
unfolding consume_plan
consume_plan_outcome lots need = elim (Bool-cases (ltb_ℤ (pos 0) need)) [
  | inl wanted ↦ elim (Bool-cases (ltb_ℤ (held lots) need)) [
    | inl short ↦ rw (wanted, short) (ground arith, ground arith, refl, refl)
    | inr enough ↦
        rw (wanted, enough)
          (
            ground arith,
            ground arith,
            drain-Covers (λ l. l.qty_remaining) (λ l. l.unit_cost) consume_step (λ s. s.qty)
                step_cost (λ a t. refl) (λ a t. refl) lots need (ground arith) (ground arith),
          )
  ]
  | inr refused ↦ rw refused (ground arith)
]

-- reversePlan refuses a request that is not positive and one above what is left to reverse; any other
-- request is covered exactly, by positive parts of the consumptions in order, at their recorded costs.
pub reverse_plan_outcome :
    (cs : List ReversibleConsumption) (need : ℤ) → Reversed cs need (reverse_plan cs need)
unfolding reverse_plan
reverse_plan_outcome cs need = elim (Bool-cases (ltb_ℤ (pos 0) need)) [
  | inl wanted ↦ elim (Bool-cases (ltb_ℤ (left_of cs) need)) [
    | inl short ↦ rw (wanted, short) (ground arith, ground arith, refl, refl)
    | inr enough ↦
        rw (wanted, enough)
          (
            ground arith,
            ground arith,
            drain-Covers (λ c. c.remaining) (λ c. c.unit_cost) reverse_step (λ s. s.qty)
                reverse_cost (λ a t. refl) (λ a t. refl) cs need (ground arith) (ground arith),
          )
  ]
  | inr refused ↦ rw refused (ground arith)
]

module _ {A S : Type 0} (amount price : A → ℤ) (step : A → ℤ → S) where
  -- A run over two groups of sources begins with the run over the first group alone.
  drain-append :
      (xs ys : List A) (need c : ℤ)
      → (rest : List S) × ((drain amount price step (xs ++ ys) need c).0
          ≡ (drain amount price step xs need c).0 ++ rest)
        × Draws amount step ys rest
  unfolding drain
  drain-append [] ys need c =
      ((drain amount price step ys need c).0, refl, drain-Draws amount price step ys need c)
  drain-append (a ∷ xs) ys need c =
      let t = taken amount price step a need in
      elim (Bool-cases (ltb_ℤ (pos 0) need)) [
        | inl wanted ↦ elim (Bool-cases (ltb_ℤ (pos 0) (amount a))) [
          | inl full ↦
              let (rest, same, drawn) = drain-append xs ys (need -ℤ t) (c +ℤ t *ℤ price a) in
              (rest, rw (wanted, full, same), drawn)
          | inr empty ↦
              let (rest, same, drawn) = drain-append xs ys need c in
              (rest, rw (wanted, empty) same, drawn)
        ]
        | inr done ↦ ([], rw done, end ys)
      ]

  plan-eq-ok :
      (shortage : ℤ → ℤ → FifoError) (xs : List A) (need : ℤ) {p : Plan S}
      → plan amount price step shortage xs need ≡ ok p
      → (pos 0 <ℤ need) × (p.steps ≡ (drain amount price step xs need (pos 0)).0)
  unfolding plan
  plan-eq-ok shortage xs need e = ground arith

-- FIFO: however the open lots of a plan split into older and newer ones, it begins with the steps on the
-- older lots, and these take all that is asked or all that the older lots hold.
pub consume_plan_fifo :
    (older newer : List OpenLot) (need : ℤ) {p : Plan ConsumeStep}
    → consume_plan (older ++ newer) need ≡ ok p
    → (first rest : List ConsumeStep) × (p.steps ≡ first ++ rest)
      × Draws (λ l. l.qty_remaining) consume_step older first
      × Draws (λ l. l.qty_remaining) consume_step newer rest
      × (sum_by (λ s. s.qty) first ≡ min_ℤ need (stock (λ l. l.qty_remaining) older))
unfolding consume_plan
consume_plan_fifo older newer need e =
    let qty = λ (l : OpenLot). l.qty_remaining in
    let price = λ (l : OpenLot). l.unit_cost in
    let (wanted, steps) =
      plan-eq-ok qty price consume_step insufficient_stock (older ++ newer) need e in
    let (rest, same, drawn) = drain-append qty price consume_step older newer need (pos 0) in
    (
      (drain qty price consume_step older need (pos 0)).0,
      rest,
      steps ∙ same,
      drain-Draws qty price consume_step older need (pos 0),
      drawn,
      drain_qty qty price consume_step (λ s. s.qty) step_cost (λ a t. refl) (λ a t. refl) older need
          (pos 0) (omega arith),
    )
