-- ===== src/Tax/Bounds.antt =====
-- The shares that the tax of a month is made of, and its bounds (`ausnMonthTax` of
-- apps/api/src/reports/ausn-tax.ts).
use construct_fin.Prelude.{
  ℕ, ◌+◌, ◌*◌, ◌/◌, ◌^◌, ◌≡◌, Option, arith, ℤ, pos, negsuc, ◌+ℤ◌, ◌-ℤ◌, ◌*ℤ◌, ◌≤ℤ◌, max_ℤ,
  int_laws, *ℤ_nonneg, le_max₂,
}
use mathlib.Core.Path.{subst}
use construct_fin.Decimal.{Decimals, IsRounding, money}
use construct_fin.Decimal.Rounding.{money_mono, money_nonneg, money_exact}
use construct_fin.Tax.Sums.{MonthSums, or_no_sums, MonthTax, ausn_month_tax}

max_le : (a b c : ℤ) → a ≤ℤ c → b ≤ℤ c → max_ℤ a b ≤ℤ c
max_le a b c h k = ground arith

le_trans : (a b c : ℤ) → a ≤ℤ b → b ≤ℤ c → a ≤ℤ c
le_trans a b c h k = omega arith

fifth_le : (a b : ℤ) → pos 0 ≤ℤ b → a ≤ℤ b → a *ℤ pos 2 ≤ℤ b *ℤ pos 10
unfolding ◌*ℤ◌
fifth_le a b z h = ground arith

share_le : (b : ℤ) → pos 0 ≤ℤ b → b *ℤ pos 3 ≤ℤ b *ℤ pos 100
unfolding ◌*ℤ◌
share_le b z = ground arith

-- `tax` is the share of `whole` of so many hundredths, to the kopeck.
abbrev pub IsShare : ℤ → ℕ → ℤ → Type 0
IsShare whole hundredths tax =
    (tax *ℤ pos 100 ≤ℤ whole *ℤ pos hundredths +ℤ pos 100)
    × (whole *ℤ pos hundredths ≤ℤ tax *ℤ pos 100 +ℤ pos 100)

pub record Within (sums : Option MonthSums) (t : MonthTax) : Type 0 where
  pub income : t.income ≡ max_ℤ ((or_no_sums sums).income) (pos 0)
  pub expense : t.expense ≡ max_ℤ ((or_no_sums sums).expense) (pos 0)
  pub base : t.base ≡ max_ℤ (t.income -ℤ t.expense) (pos 0)
  pub fifth : IsShare t.base 20 t.tax_calc
  pub share : IsShare t.income 3 t.tax_min
  pub calc_nonneg : pos 0 ≤ℤ t.tax_calc
  pub min_nonneg : pos 0 ≤ℤ t.tax_min
  pub larger : t.tax_due ≡ max_ℤ t.tax_calc t.tax_min
  pub at_most_income : t.tax_due ≤ℤ t.income

between_fifths : (c : ℤ) (m : ℕ) → pos (m / 5) ≤ℤ c → c ≤ℤ pos (m / 5 + 1) → IsShare (pos m) 20 c
unfolding ◌*ℤ◌ ◌+ℤ◌
between_fifths c m h k = ground (arith, h, k)

between_hundredths :
    (c : ℤ) (m : ℕ) → pos (m * 3 / 100) ≤ℤ c → c ≤ℤ pos (m * 3 / 100 + 1) → IsShare (pos m) 3 c
unfolding ◌*ℤ◌ ◌+ℤ◌
between_hundredths c m h k = ground (arith, h, k)

fifths :
    (m : ℕ)
    → (pos (m / 5) *ℤ pos 10 ≤ℤ pos m *ℤ pos 2) × (pos m *ℤ pos 2 ≤ℤ pos (m / 5 + 1) *ℤ pos 10)
unfolding ◌*ℤ◌
fifths m = ground arith

hundredths :
    (m : ℕ)
    → (pos (m * 3 / 100) *ℤ pos 100 ≤ℤ pos m *ℤ pos 3)
      × (pos m *ℤ pos 3 ≤ℤ pos (m * 3 / 100 + 1) *ℤ pos 100)
unfolding ◌*ℤ◌
hundredths m = ground arith

module _ (d : Decimals) (r : IsRounding d) where
  exact_at : (k : ℕ) (x : ℤ) → money d k (x *ℤ pos (10 ^ k)) ≡ x
  unfolding money
  exact_at k x = r.exact k x

  clamp-nonneg : (x : ℤ) → pos 0 ≤ℤ money d 0 (max_ℤ x (pos 0))
  clamp-nonneg x = money_nonneg d r 0 (max_ℤ x (pos 0)) (le_max₂ x (pos 0))

  squeezed :
      (k : ℕ) (low x high : ℤ)
      → low *ℤ pos (10 ^ k) ≤ℤ x
      → x ≤ℤ high *ℤ pos (10 ^ k)
      → (low ≤ℤ money d k x) × (money d k x ≤ℤ high)
  squeezed k low x high h l = (
    subst (λ z. z ≤ℤ money d k x) (exact_at k low) (money_mono d r k _ x h),
    subst (λ z. money d k x ≤ℤ z) (exact_at k high) (money_mono d r k x _ l),
  )

  fifth-IsShare : (base : ℤ) → pos 0 ≤ℤ base → IsShare base 20 (money d 1 (base *ℤ pos 2))
  fifth-IsShare (pos m) h =
      let (low, high) = fifths m in
      let (above, below) = squeezed 1 (pos (m / 5)) (pos m *ℤ pos 2) (pos (m / 5 + 1)) low high in
      between_fifths _ m above below
  fifth-IsShare (negsuc m) h = absurd (omega (arith, h))

  hundredths-IsShare :
      (income : ℤ) → pos 0 ≤ℤ income → IsShare income 3 (money d 2 (income *ℤ pos 3))
  hundredths-IsShare (pos m) h =
      let (low, high) = hundredths m in
      let (above, below) =
        squeezed 2 (pos (m * 3 / 100)) (pos m *ℤ pos 3) (pos (m * 3 / 100 + 1)) low high in
      between_hundredths _ m above below
  hundredths-IsShare (negsuc m) h = absurd (omega (arith, h))

  -- Whatever the sums of the month, income and expense are those of the sums, clamped at zero, and the
  -- base is the first less the second, clamped at zero; the tax on the base is a fifth of it and the
  -- minimal tax three hundredths of the income, each to the kopeck and not negative; and the tax due is
  -- the larger of the two, which is at most the income.
  pub ausn_month_tax-Within : (sums : Option MonthSums) → Within sums (ausn_month_tax d sums)
  unfolding ausn_month_tax
  ausn_month_tax-Within sums =
      let income = money d 0 (max_ℤ ((or_no_sums sums).income) (pos 0)) in
      let expense = money d 0 (max_ℤ ((or_no_sums sums).expense) (pos 0)) in
      let base = money d 0 (max_ℤ (income -ℤ expense) (pos 0)) in
      let calc = money d 1 (base *ℤ pos 2) in
      let least = money d 2 (income *ℤ pos 3) in
      let i0 = clamp-nonneg ((or_no_sums sums).income) in
      let e0 = clamp-nonneg ((or_no_sums sums).expense) in
      let b0 = clamp-nonneg (income -ℤ expense) in
      let bi : base ≤ℤ income =
        rw (money_exact d r (max_ℤ (income -ℤ expense) (pos 0)))
          (max_le (income -ℤ expense) (pos 0) income (omega (int_laws, e0)) i0) in
      let m0 = money_nonneg d r 2 (income *ℤ pos 3) (*ℤ_nonneg income (pos 3) i0 (omega arith)) in
      let due = money_exact d r (max_ℤ calc least) in
      let ci : calc ≤ℤ income =
        subst (λ z. calc ≤ℤ z) (exact_at 1 income)
          (money_mono d r 1 (base *ℤ pos 2) (income *ℤ pos 10) (fifth_le base income i0 bi)) in
      let li : least ≤ℤ income =
        subst (λ z. least ≤ℤ z) (exact_at 2 income)
          (money_mono d r 2 (income *ℤ pos 3) (income *ℤ pos 100) (share_le income i0)) in
      record {
        income = money_exact d r (max_ℤ ((or_no_sums sums).income) (pos 0));
        expense = money_exact d r (max_ℤ ((or_no_sums sums).expense) (pos 0));
        base = money_exact d r (max_ℤ (income -ℤ expense) (pos 0));
        fifth = fifth-IsShare base b0;
        share = hundredths-IsShare income i0;
        calc_nonneg = money_nonneg d r 1 (base *ℤ pos 2) (*ℤ_nonneg base (pos 2) b0 (omega arith));
        min_nonneg = m0;
        larger = due;
        at_most_income = rw due (max_le calc least income ci li);
      }
