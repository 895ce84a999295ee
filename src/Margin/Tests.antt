-- ===== src/Margin/Tests.antt =====
-- An order of two lines, one of them with an estimated cost.
use construct_fin.Prelude.{
  ◌≡◌, refl, none, some, List, [], ◌∷◌, arith, pos, ◌+ℤ◌, ◌-ℤ◌, ◌*ℤ◌, ◌≤ℤ◌, max_ℤ, eqb_ℤ,
  if◌then◌else◌, sum_by, any,
}
use construct_fin.Decimal.{money}
use construct_fin.Decimal.Tests.{plain, plain-IsRounding, round_quotient}
use construct_fin.Margin.{MarginItem, effective_cost, margin_sums, order_margin}
use construct_fin.Margin.Totals.{line_amount, line_cost, is_estimated, order_margin_outcome}

abbrev items : List MarginItem
items =
    record {
      qty = pos 2000;
      returned_qty = pos 1000;
      unit_price = pos 50000;
      unit_cost = none;
      unit_cost_at_sale = some (pos 3000000);
      avg_cost = none;
    }
    ∷ record {
      qty = pos 1000;
      returned_qty = pos 0;
      unit_price = pos 20000;
      unit_cost = none;
      unit_cost_at_sale = none;
      avg_cost = some (pos 1500000);
    }
    ∷ []

costs :
    (pos 0
      ≤ℤ (effective_cost (record {
        qty = pos 2000;
        returned_qty = pos 1000;
        unit_price = pos 50000;
        unit_cost = none;
        unit_cost_at_sale = some (pos 3000000);
        avg_cost = none;
      })).0)
    × ((pos 0
          ≤ℤ (effective_cost (record {
            qty = pos 1000;
            returned_qty = pos 0;
            unit_price = pos 20000;
            unit_cost = none;
            unit_cost_at_sale = none;
            avg_cost = some (pos 1500000);
          })).0)
        × Unit {0})
unfolding effective_cost
costs = (omega arith, (omega arith, tt))

margin : (order_margin plain round_quotient items (pos 10000)).margin ≡ pos 15000
unfolding order_margin margin_sums effective_cost money ◌+ℤ◌ ◌-ℤ◌ ◌*ℤ◌
margin = refl

order_margin_outcome_example :
    let m = order_margin plain round_quotient items (pos 10000) in
    (m.revenue ≡ money plain 3 (max_ℤ (sum_by line_amount items -ℤ pos 10000 *ℤ pos 1000) (pos 0)))
    × (pos 0 ≤ℤ m.revenue)
    × (m.cogs ≡ money plain 5 (sum_by line_cost items))
    × (pos 0 ≤ℤ m.cogs)
    × (m.margin +ℤ m.cogs ≡ m.revenue)
    × (m.margin_pct ≡ (
        if eqb_ℤ m.revenue (pos 0) then m.margin *ℤ pos 100 else round_quotient m.margin m.revenue))
    × (m.is_estimate ≡ any is_estimated items)
order_margin_outcome_example =
    order_margin_outcome plain plain-IsRounding round_quotient items (pos 10000) costs
