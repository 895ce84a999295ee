-- ===== src/Margin.antt =====
-- The margin of an order (apps/api/src/orders/order-margin.ts). Quantities are in thousandths, prices
-- and money in kopecks, unit costs in ten-thousandths of a rouble: the amount of a line is exact in
-- units of 10^-5 and its cost in units of 10^-7. The percentage of `marginPct`
-- (apps/api/src/common/margin.ts) divides with rounding, and what it divides with is a parameter.
pub mod Totals
mod Tests
use construct_fin.Prelude.{
  ℕ, Bool, true, false, ◌&&◌, ◌||◌, Option, none, some, List, [], ◌∷◌, ℤ, pos, ◌+ℤ◌, ◌-ℤ◌, ◌*ℤ◌,
  ltb_ℤ, eqb_ℤ, max_ℤ, if◌then◌else◌,
}
use construct_fin.Decimal.{Decimals, money}

pub data CostSource : Type 0 where
  actual manual estimate no_source : CostSource

pub record MarginItem : Type 0 where
  pub qty : ℤ
  pub returned_qty : ℤ
  pub unit_price : ℤ
  pub unit_cost : Option ℤ
  pub unit_cost_at_sale : Option ℤ
  -- `avgCost` of the warehouse item, where the line has one.
  pub avg_cost : Option ℤ

-- `netQtyOf`
abbrev pub net_qty_of : MarginItem → ℤ
net_qty_of it = max_ℤ (it.qty -ℤ it.returned_qty) (pos 0)

abbrev pub or_estimate : Option ℤ → ℤ × CostSource
or_estimate none = (pos 0, no_source)
or_estimate (some avg) = (avg, estimate)

abbrev pub or_manual : Option ℤ → Option ℤ → ℤ × CostSource
or_manual none avg = or_estimate avg
or_manual (some c) avg = (c, manual)

abbrev pub or_actual : Option ℤ → Option ℤ → Option ℤ → ℤ × CostSource
or_actual none unit_cost avg = or_manual unit_cost avg
or_actual (some c) unit_cost avg = (c, actual)

-- `effectiveCost`
unfoldable pub effective_cost : MarginItem → ℤ × CostSource
effective_cost it = or_actual it.unit_cost_at_sale it.unit_cost it.avg_cost

abbrev pub is_estimate_source : CostSource → Bool
is_estimate_source actual = false
is_estimate_source manual = false
is_estimate_source estimate = true
is_estimate_source no_source = false

pub record ItemMargin : Type 0 where
  pub revenue : ℤ
  pub cogs : ℤ
  pub margin : ℤ
  pub margin_pct : ℤ
  pub cost_source : CostSource
  pub unit_cost : ℤ

pub record OrderMarginSummary : Type 0 where
  pub revenue : ℤ
  pub cogs : ℤ
  pub margin : ℤ
  pub margin_pct : ℤ
  pub is_estimate : Bool

-- The variables of the loop of `orderMargin`.
pub record MarginSums : Type 0 where
  pub revenue_raw : ℤ
  pub cogs_raw : ℤ
  pub is_estimate : Bool

abbrev pub with_source : MarginItem → MarginSums → ℤ × CostSource → MarginSums
with_source it s (cost, source) = record {
  revenue_raw = s.revenue_raw +ℤ net_qty_of it *ℤ it.unit_price;
  cogs_raw = s.cogs_raw +ℤ net_qty_of it *ℤ cost;
  is_estimate =
      if is_estimate_source source && ltb_ℤ (pos 0) (net_qty_of it) then true else s.is_estimate;
}

unfoldable pub margin_sums : List MarginItem → MarginSums → MarginSums
unfolding effective_cost
margin_sums [] s = s
margin_sums (it ∷ items) s = margin_sums items (with_source it s (effective_cost it))

-- A percentage in hundredths; `ratio m r` is `margin.div(revenue).times(100).toFixed(2)`.
unfoldable pub margin_pct : (ℤ → ℤ → ℤ) → ℤ → ℤ → ℤ
margin_pct ratio revenue margin =
    if eqb_ℤ revenue (pos 0)
    then if ltb_ℤ margin (pos 0) then margin *ℤ pos 100 else pos 0
    else ratio margin revenue

module _ (d : Decimals) (ratio : ℤ → ℤ → ℤ) where
  unfoldable pub item_margin : MarginItem → ItemMargin
  unfolding effective_cost margin_pct
  item_margin it =
      let (cost, source) = effective_cost it in
      let revenue = money d 3 (net_qty_of it *ℤ it.unit_price) in
      let cogs = money d 5 (net_qty_of it *ℤ cost) in
      record {
        revenue = revenue;
        cogs = cogs;
        margin = revenue -ℤ cogs;
        margin_pct = margin_pct ratio revenue (revenue -ℤ cogs);
        cost_source = source;
        unit_cost = money d 2 cost;
      }

  unfoldable pub order_margin : List MarginItem → ℤ → OrderMarginSummary
  unfolding margin_sums margin_pct
  order_margin items discount =
      let sums =
        margin_sums items (record { revenue_raw = pos 0; cogs_raw = pos 0; is_estimate = false }) in
      let revenue = money d 3 (max_ℤ (sums.revenue_raw -ℤ discount *ℤ pos 1000) (pos 0)) in
      let cogs = money d 5 sums.cogs_raw in
      record {
        revenue = revenue;
        cogs = cogs;
        margin = revenue -ℤ cogs;
        margin_pct = margin_pct ratio revenue (revenue -ℤ cogs);
        is_estimate = sums.is_estimate;
      }
