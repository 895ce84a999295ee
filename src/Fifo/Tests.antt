-- ===== src/Fifo/Tests.antt =====
-- Runs of consumePlan and reversePlan on small warehouses, and instances of their theorems.
use construct_fin.Prelude.{
  none, ℕ, ◌≡◌, ◌++◌, refl, List, [], ◌∷◌, arith, pos, ◌+ℤ◌, ◌-ℤ◌, ◌*ℤ◌, sum_by, min_ℤ, map,
}
use construct_fin.Prelude.Result.{ok, err}
use construct_fin.Fifo.{
  OpenLot, ConsumeStep, ReversibleConsumption, ReverseStep, Plan, not_positive, insufficient_stock,
  consume_plan, reverse_plan, consume_step, reverse_step,
}
use construct_fin.Fifo.Drain.{Draws, stock}
use construct_fin.Fifo.Plans.{
  Consumed, Reversed, consume_plan_outcome, reverse_plan_outcome, consume_plan_fifo, left_of,
}
use construct_fin.Fifo.Reversal.{reverse_plan-All}

abbrev lot : ℕ → ℕ → ℕ → OpenLot
lot i q c = record { id = i; qty_remaining = pos q; unit_cost = pos c; supplier = none }

abbrev step : ℕ → ℕ → ℕ → ConsumeStep
step i q c = record { lot_id = i; qty = pos q; unit_cost = pos c }

abbrev older : List OpenLot
older = lot 1 2000 500 ∷ lot 2 0 700 ∷ []

abbrev newer : List OpenLot
newer = lot 3 5000 900 ∷ []

abbrev sale : Plan ConsumeStep
sale = record {
  steps = step 1 2000 500 ∷ step 3 1000 900 ∷ [];
  total_qty = pos 3000;
  total_cost = pos 1900000;
}

sold : consume_plan (older ++ newer) (pos 3000) ≡ ok sale
unfolding consume_plan ◌+ℤ◌ ◌-ℤ◌ ◌*ℤ◌
sold = refl

oversold : consume_plan older (pos 3000) ≡ err (insufficient_stock (pos 2000) (pos 3000))
unfolding consume_plan ◌+ℤ◌
oversold = refl

nothing_asked : consume_plan older (pos 0) ≡ err not_positive
unfolding consume_plan
nothing_asked = refl

abbrev consumed : ℕ → ℕ → ℕ → ReversibleConsumption
consumed i q c = record { id = i; lot_id = i; remaining = pos q; unit_cost = pos c }

consume_plan_outcome_example :
    Consumed (older ++ newer) (pos 3000) (consume_plan (older ++ newer) (pos 3000))
consume_plan_outcome_example = consume_plan_outcome (older ++ newer) (pos 3000)

reverse_plan_outcome_example :
    Reversed
      (consumed 8 1000 900 ∷ [])
      (pos 600)
      (reverse_plan (consumed 8 1000 900 ∷ []) (pos 600))
reverse_plan_outcome_example = reverse_plan_outcome (consumed 8 1000 900 ∷ []) (pos 600)

consume_plan_fifo_example :
    (first rest : List ConsumeStep) × (sale.steps ≡ first ++ rest)
    × Draws (λ l. l.qty_remaining) consume_step older first
    × Draws (λ l. l.qty_remaining) consume_step newer rest
    × (sum_by (λ s. s.qty) first ≡ min_ℤ (pos 3000) (stock (λ l. l.qty_remaining) older))
consume_plan_fifo_example = consume_plan_fifo older newer (pos 3000) sold

abbrev reversal : List ReversibleConsumption
reversal = consumed 9 1000 900 ∷ consumed 8 2000 500 ∷ []

reverse_plan-All_example :
    (p : Plan ReverseStep) × (reverse_plan reversal (left_of reversal) ≡ ok p)
    × (p.steps ≡ map (λ d. reverse_step d d.remaining) reversal)
    × (p.total_cost ≡ sum_by (λ d. d.remaining *ℤ d.unit_cost) reversal)
reverse_plan-All_example =
    reverse_plan-All (consumed 9 1000 900) (consumed 8 2000 500 ∷ []) (omega arith)
