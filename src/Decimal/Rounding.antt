-- ===== src/Decimal/Rounding.antt =====
-- Consequences of the laws of rounding that the clients of apps/api/src/common/money.ts use.
use construct_fin.Prelude.{ℕ, ◌^◌, ◌≡◌, sym, ap, ◌∙◌, zero_*ℤ, *ℤ_one, ℤ, pos, ◌≤ℤ◌}
use construct_fin.Decimal.{Decimals, IsRounding, money}

module _ (d : Decimals) (r : IsRounding d) where
  pub money_zero : (k : ℕ) → money d k (pos 0) ≡ pos 0
  unfolding money
  money_zero k = ap (d.half_up k) (sym (zero_*ℤ (pos (10 ^ k)))) ∙ r.exact k (pos 0)

  pub money_mono : (k : ℕ) (x y : ℤ) → x ≤ℤ y → money d k x ≤ℤ money d k y
  unfolding money
  money_mono k x y h = r.mono k x y h

  pub money_nonneg : (k : ℕ) (x : ℤ) → pos 0 ≤ℤ x → pos 0 ≤ℤ money d k x
  money_nonneg k x h = let low = money_mono k (pos 0) x h in rw (money_zero k) at low

  pub money_exact : (x : ℤ) → money d 0 x ≡ x
  unfolding money
  money_exact x = ap (d.half_up 0) (sym (*ℤ_one x)) ∙ r.exact 0 x
