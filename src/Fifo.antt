-- ===== src/Fifo.antt =====
-- apps/api/src/common/fifo.ts: the pure FIFO arithmetic of the batch warehouse. Quantities are in
-- thousandths, unit costs in ten-thousandths of a rouble, and a cost total in units of 10^-7.
pub mod Drain
pub mod Plans
pub mod Reversal
mod Tests
use construct_fin.Prelude.{
  ℕ, List, [], ◌∷◌, Option, ℤ, pos, ◌+ℤ◌, ◌-ℤ◌, ◌*ℤ◌, ltb_ℤ, sum_by, not, if◌then◌else◌,
}
use construct_fin.Prelude.Result.{Result, ok, err}

-- An open lot, ready to be consumed; the list comes in FIFO order.
pub record OpenLot : Type 0 where
  pub id : ℕ
  pub qty_remaining : ℤ
  pub unit_cost : ℤ
  pub supplier : Option ℕ

pub record ConsumeStep : Type 0 where
  pub lot_id : ℕ
  pub qty : ℤ
  pub unit_cost : ℤ

-- A CONSUME row with what is left to reverse of it; the list comes in LIFO order.
pub record ReversibleConsumption : Type 0 where
  pub id : ℕ
  pub lot_id : ℕ
  pub remaining : ℤ
  pub unit_cost : ℤ

pub record ReverseStep : Type 0 where
  pub consumption_id : ℕ
  pub lot_id : ℕ
  pub qty : ℤ
  pub unit_cost : ℤ

-- `ConsumePlan` and `ReversePlan`, over their steps.
pub record Plan (S : Type 0) : Type 0 where
  pub steps : List S
  pub total_qty : ℤ
  pub total_cost : ℤ

pub data FifoError : Type 0 where
  not_positive : FifoError
  insufficient_stock insufficient_reversible : ℤ → ℤ → FifoError

-- The loop that `consumePlan` and `reversePlan` share: `take` is min(amount, need); an empty source
-- is skipped, and the loop breaks when nothing is needed any more.
module _ {A S : Type 0} (amount price : A → ℤ) (step : A → ℤ → S) where
  abbrev pub taken : A → ℤ → ℤ
  taken a need = if ltb_ℤ need (amount a) then need else amount a

  unfoldable pub drain : List A → ℤ → ℤ → List S × ℤ
  drain [] need cost = ([], cost)
  drain (a ∷ rest) need cost =
      let skip = drain rest need cost in
      let t = taken a need in
      let more = drain rest (need -ℤ t) (cost +ℤ t *ℤ price a) in
      if not (ltb_ℤ (pos 0) need)
      then ([], cost)
      else if not (ltb_ℤ (pos 0) (amount a))
      then skip
      else (step a t ∷ more.0, more.1)

  unfoldable pub plan : (ℤ → ℤ → FifoError) → List A → ℤ → Result FifoError (Plan S)
  unfolding drain
  plan shortage sources need =
      let available = sum_by amount sources in
      let out = drain sources need (pos 0) in
      if not (ltb_ℤ (pos 0) need)
      then err not_positive
      else if ltb_ℤ available need
      then err (shortage available need)
      else ok (record { steps = out.0; total_qty = need; total_cost = out.1 })

abbrev pub consume_step : OpenLot → ℤ → ConsumeStep
consume_step l take = record { lot_id = l.id; qty = take; unit_cost = l.unit_cost }

unfoldable pub consume_plan : List OpenLot → ℤ → Result FifoError (Plan ConsumeStep)
unfolding plan
consume_plan = plan (λ l. l.qty_remaining) (λ l. l.unit_cost) consume_step insufficient_stock

abbrev pub reverse_step : ReversibleConsumption → ℤ → ReverseStep
reverse_step c take = record {
  consumption_id = c.id;
  lot_id = c.lot_id;
  qty = take;
  unit_cost = c.unit_cost;
}

unfoldable pub reverse_plan : List ReversibleConsumption → ℤ → Result FifoError (Plan ReverseStep)
unfolding plan
reverse_plan = plan (λ c. c.remaining) (λ c. c.unit_cost) reverse_step insufficient_reversible
