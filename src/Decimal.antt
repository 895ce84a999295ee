-- ===== src/Decimal.antt =====
-- apps/api/src/common/money.ts. A Decimal at a fixed scale is the integer count of its smallest units,
-- and sums, differences, products and comparisons are those of the integers: the Decimal library is
-- exact while a result has at most 20 significant digits. Its two operations that round are a parameter.
pub mod Rounding
pub mod Tests
use construct_fin.Prelude.{ℕ, ◌+◌, ◌*◌, ◌^◌, ◌≤◌, ◌≡◌, ℤ, pos, ◌*ℤ◌, ◌≤ℤ◌, ◌<ℤ◌}

pub record Decimals : Type 0 where
  -- `half_up k x` is `toDecimalPlaces` with ROUND_HALF_UP where `x` has `k` digits more than are kept.
  pub half_up : ℕ → ℤ → ℤ
  -- `quotient v q` is `cost(v.div(q))` for a value in units of 10^-7 and a quantity in thousandths.
  pub quotient : ℤ → ℤ → ℤ

-- What the program relies on of the rounding: it is monotone, and exact on what needs no rounding.
pub record IsRounding (d : Decimals) : Type 0 where
  pub mono : (k : ℕ) (x y : ℤ) → x ≤ℤ y → d.half_up k x ≤ℤ d.half_up k y
  pub exact : (k : ℕ) (x : ℤ) → d.half_up k (x *ℤ pos (10 ^ k)) ≡ x
  pub quotient_nonneg : (v q : ℤ) → pos 0 ≤ℤ v → pos 0 <ℤ q → pos 0 ≤ℤ d.quotient v q

-- `money` and `cost` of a value that has `k` digits too many.
unfoldable pub money : Decimals → ℕ → ℤ → ℤ
money d k x = d.half_up k x
