-- ===== src/Margin/Totals.antt =====
-- The totals of an order's margin are those of its lines (apps/api/src/orders/order-margin.ts).
use construct_fin.Prelude.{
  ◌≡◌, refl, sym, ◌∙◌, ap, inl, inr, Bool, true, false, ◌&&◌, ◌||◌, List, [], ◌∷◌, arith, ℤ, pos,
  ◌+ℤ◌, ◌-ℤ◌, ◌*ℤ◌, ◌≤ℤ◌, ltb_ℤ, eqb_ℤ, max_ℤ, if◌then◌else◌, sum_by, sum_by_nonneg, any, All,
  All-map, Bool-cases, int_laws, +ℤ_zero, +ℤ_assoc, zero_+ℤ, *ℤ_nonneg, le_max₂,
}
use mathlib.Core.Path.{subst}
use construct_fin.Decimal.{Decimals, IsRounding, money}
use construct_fin.Decimal.Rounding.{money_nonneg}
use construct_fin.Margin.{
  MarginItem, MarginSums, net_qty_of, effective_cost, is_estimate_source, with_source, margin_sums,
  margin_pct, order_margin,
}

abbrev pub line_amount : MarginItem → ℤ
line_amount it = net_qty_of it *ℤ it.unit_price

abbrev pub line_cost : MarginItem → ℤ
unfolding effective_cost
line_cost it = net_qty_of it *ℤ (effective_cost it).0

-- A line whose cost is an estimate, and of which something was not returned.
abbrev pub is_estimated : MarginItem → Bool
unfolding effective_cost
is_estimated it = is_estimate_source ((effective_cost it).1) && ltb_ℤ (pos 0) (net_qty_of it)

estimate_step : (t s r : Bool) → (if t then true else s) || r ≡ s || (t || r)
estimate_step t s r = ground arith

sums_lem :
    (items : List MarginItem) (s : MarginSums)
    → ((margin_sums items s).revenue_raw ≡ s.revenue_raw +ℤ sum_by line_amount items)
      × ((margin_sums items s).cogs_raw ≡ s.cogs_raw +ℤ sum_by line_cost items)
      × ((margin_sums items s).is_estimate ≡ s.is_estimate || any is_estimated items)
unfolding margin_sums
sums_lem [] s = (sym (+ℤ_zero _), sym (+ℤ_zero _), ground arith)
sums_lem (it ∷ items) s =
    let (er, ec, ee) = sums_lem items (with_source it s (effective_cost it)) in
    (er ∙ +ℤ_assoc _ _ _, ec ∙ +ℤ_assoc _ _ _, ee ∙ estimate_step (is_estimated it) s.is_estimate _)

back : (a b : ℤ) → a -ℤ b +ℤ b ≡ a
back a b = omega int_laws

zero_pct :
    (c : ℤ)
    → pos 0 ≤ℤ c
    → (if ltb_ℤ (pos 0 -ℤ c) (pos 0) then (pos 0 -ℤ c) *ℤ pos 100 else pos 0)
      ≡ (pos 0 -ℤ c) *ℤ pos 100
unfolding ◌-ℤ◌ ◌*ℤ◌
zero_pct c h = ground arith

-- Without revenue the margin is not above zero, and its percentage is a loss as it stands.
loss_pct :
    (ratio : ℤ → ℤ → ℤ) (rev c : ℤ)
    → pos 0 ≤ℤ c
    → margin_pct ratio rev (rev -ℤ c)
      ≡ (if eqb_ℤ rev (pos 0) then (rev -ℤ c) *ℤ pos 100 else ratio (rev -ℤ c) rev)
unfolding margin_pct
loss_pct ratio rev c h = elim (Bool-cases (eqb_ℤ rev (pos 0))) [
  | inl zero ↦ let same : rev ≡ pos 0 = ground (arith, zero) in rw (zero, same) (zero_pct c h)
  | inr some_revenue ↦ rw some_revenue refl
]

module _ (d : Decimals) (r : IsRounding d) (ratio : ℤ → ℤ → ℤ) where
  -- The revenue is the rounded sum of the lines less the discount, and not negative; the cost is the
  -- rounded sum of their costs, and not negative where no cost is; a loss without revenue is a negative
  -- percentage; and the summary is an estimate exactly where a line is that is not fully returned.
  pub order_margin_outcome :
      (items : List MarginItem) (discount : ℤ)
      → All (λ it. pos 0 ≤ℤ (effective_cost it).0) items
      → let m = order_margin d ratio items discount in
        (m.revenue ≡ money d 3 (max_ℤ (sum_by line_amount items -ℤ discount *ℤ pos 1000) (pos 0)))
        × (pos 0 ≤ℤ m.revenue)
        × (m.cogs ≡ money d 5 (sum_by line_cost items))
        × (pos 0 ≤ℤ m.cogs)
        × (m.margin +ℤ m.cogs ≡ m.revenue)
        × (m.margin_pct
            ≡ (if eqb_ℤ m.revenue (pos 0) then m.margin *ℤ pos 100 else ratio m.margin m.revenue))
        × (m.is_estimate ≡ any is_estimated items)
  unfolding order_margin
  order_margin_outcome items discount h =
      let (er, ec, ee) =
        sums_lem items (record { revenue_raw = pos 0; cogs_raw = pos 0; is_estimate = false }) in
      let sums =
        margin_sums items (record { revenue_raw = pos 0; cogs_raw = pos 0; is_estimate = false }) in
      let er0 = er ∙ zero_+ℤ _ in
      let ec0 = ec ∙ zero_+ℤ _ in
      let costs = sum_by_nonneg line_cost items (
        All-map _ (λ it. pos 0 ≤ℤ line_cost it)
          (λ it p. *ℤ_nonneg (net_qty_of it) _ (le_max₂ (it.qty -ℤ it.returned_qty) (pos 0)) p)
          items h) in
      let cogs_nonneg = subst (λ z. pos 0 ≤ℤ money d 5 z) (sym ec0) (money_nonneg d r 5 _ costs) in
      (
        ap (λ z. money d 3 (max_ℤ (z -ℤ discount *ℤ pos 1000) (pos 0))) er0,
        money_nonneg d r 3 _ (le_max₂ (sums.revenue_raw -ℤ discount *ℤ pos 1000) (pos 0)),
        ap (money d 5) ec0,
        cogs_nonneg,
        back (money d 3 (max_ℤ (sums.revenue_raw -ℤ discount *ℤ pos 1000) (pos 0)))
            (money d 5 sums.cogs_raw),
        loss_pct ratio (money d 3 (max_ℤ (sums.revenue_raw -ℤ discount *ℤ pos 1000) (pos 0)))
            (money d 5 sums.cogs_raw) cogs_nonneg,
        ee,
      )
