-- ===== src/Orders/NewLines.antt =====
-- The lines that a call of apps/api/src/orders/order.service.ts adds to an order.
use construct_fin.Prelude.{
  ℕ, suc, ◌+◌, ◌<◌, ◌≤◌, length, ◌≢◌, refl, Bool, List, [], ◌∷◌, ◌++◌, map, arith, int_laws, pos,
  ◌*ℤ◌, ◌≤ℤ◌, All, All-append, Bool-cases, inl, inr, keep, sum_by, *ℤ_nonneg,
}
use construct_fin.Decimal.Rounding.{money_nonneg}
use construct_fin.Decimal.{Decimals, IsRounding}
use construct_fin.Orders.State.{open_order, OrderItem}
use construct_fin.Orders.Edit.{ItemInput, new_items, outside}
use construct_fin.Warehouse.OpenLots.{All-keep}
use construct_fin.Orders.Sound.{LineSound, DistinctLines}

-- What the schemas of order.dto.ts check of a line.
abbrev pub InputValid : ItemInput → Type 0
InputValid i = (pos 0 ≤ℤ i.qty) × (pos 0 ≤ℤ i.unit_price)

module _ (d : Decimals) where
  -- New lines are whole, and their keys are those handed out last.
  pub new_items-LineSound :
      (key : ℕ) (is : List ItemInput)
      → All InputValid is
      → All (LineSound open_order) (new_items d key is)
  new_items-LineSound key [] h = tt
  new_items-LineSound key (i ∷ is) ((q, p), h) =
      ((refl, omega arith, ground (arith, q)), new_items-LineSound (suc key) is h)

  new_items-above :
      (n key : ℕ) (is : List ItemInput) → n < key → All (λ i. i.id ≢ n) (new_items d key is)
  new_items-above n key [] le = tt
  new_items-above n key (i ∷ is) le =
      ((λ e. omega (arith, e, le)), new_items-above n (suc key) is (omega arith))

  pub new_items-DistinctLines : (key : ℕ) (is : List ItemInput) → DistinctLines (new_items d key is)
  new_items-DistinctLines key [] = tt
  new_items-DistinctLines key (i ∷ is) =
      (new_items-above key (suc key) is (omega arith), new_items-DistinctLines (suc key) is)

  pub new_items-below :
      (n key : ℕ) (is : List ItemInput)
      → key + length is ≤ n
      → All (λ i. i.id < n) (new_items d key is)
  new_items-below n key [] le = tt
  new_items-below n key (i ∷ is) le = (omega arith, new_items-below n (suc key) is (omega arith))

  -- The lines of a receipt.
  pub outside_below :
      (n key : ℕ) (is : List ItemInput)
      → key + length is ≤ n
      → All (λ i. i.id < n) (new_items d key (map outside is))
  outside_below n key [] le = tt
  outside_below n key (i ∷ is) le = (omega arith, outside_below n (suc key) is (omega arith))

  pub outside_lines :
      (key : ℕ) (is : List ItemInput)
      → All InputValid is
      → All (LineSound open_order) (new_items d key (map outside is))
  outside_lines key [] h = tt
  outside_lines key (i ∷ is) ((q, p), h) =
      ((refl, omega arith, ground (arith, q)), outside_lines (suc key) is h)

  pub line_totals_nonneg :
      (key : ℕ) (is : List ItemInput)
      → IsRounding d
      → All InputValid is
      → pos 0 ≤ℤ sum_by (λ l. l.line_total) (new_items d key (map outside is))
  line_totals_nonneg key [] rounding h = omega arith
  line_totals_nonneg key (i ∷ is) rounding ((q, p), h) = omega (
    int_laws,
    money_nonneg d rounding 3 (i.qty *ℤ i.unit_price) (*ℤ_nonneg i.qty i.unit_price q p),
    line_totals_nonneg (suc key) is rounding h,
  )

  apart_from :
      (n key : ℕ) (is : List ItemInput) (old : List OrderItem)
      → n < key
      → All (λ j. j.id ≢ n) old
      → All (λ j. j.id ≢ n) (old ++ new_items d key is)
  apart_from n key is old lt h = All-append _ old _ h (new_items-above n key is lt)

  -- Old keys and new ones stay apart.
  pub appended :
      (key : ℕ) (old : List OrderItem) (is : List ItemInput)
      → All (λ i. i.id < key) old
      → DistinctLines old
      → DistinctLines (old ++ new_items d key is)
  appended key [] is h k = new_items-DistinctLines key is
  appended key (i ∷ old) is (lt, h) (fresh, k) =
      (apart_from i.id key is old lt fresh, appended key old is h k)

pub kept_distinct :
    (p : OrderItem → Bool) (is : List OrderItem) → DistinctLines is → DistinctLines (keep p is)
kept_distinct p [] k = tt
kept_distinct p (i ∷ is) (fresh, k) = elim (Bool-cases (p i)) [
  | inl stays ↦ rw stays (All-keep p _ is fresh, kept_distinct p is k)
  | inr goes ↦ rw goes (kept_distinct p is k)
]
