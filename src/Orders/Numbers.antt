-- ===== src/Orders/Numbers.antt =====
-- The number of a new order (apps/api/src/orders/order.repository.ts, `nextNumber`) is a new one.
use construct_fin.Prelude.{
  ℕ, ◌≤◌, ◌≡◌, ◌≢◌, ap, inl, inr, Option, List, [], ◌∷◌, arith, ℤ, ltb, ◌==◌, ◌&&◌, All, All-map,
  Bool-cases,
}
use construct_fin.Prelude.Result.{ok}
use construct_fin.Decimal.{Decimals}
use construct_fin.Warehouse.State.{Caller}
use construct_fin.Orders.State.{Order, Books, discount_above_subtotal}
use construct_fin.Orders.Repository.{max_seq, next_number}
use construct_fin.Orders.Edit.{ItemInput, create_order}
use construct_fin.Orders.Rows.{Ensures, and_then, gets_known, modify_ends, after_guard, after_check}
use construct_fin.Orders.Changing.{assert_order_refs-LooksOnly}

-- No two orders of a workspace have one number, deleted ones among them.
abbrev pub DistinctNumbers : List Order → Type 0
DistinctNumbers [] = Unit
DistinctNumbers (o ∷ os) =
    All (λ p. p.workspace ≡ o.workspace → p.number ≢ o.number) os × DistinctNumbers os

abbrev UpTo : ℕ → ℕ → ℕ → Order → Type 0
UpTo ws year n o = o.workspace ≡ ws → o.number.0 ≡ year → o.number.1 ≤ n

module _ (ws year : ℕ) (o : Order) (os : List Order) where
  grows : max_seq ws year os ≤ max_seq ws year (o ∷ os)
  grows =
      elim (Bool-cases
        (o.workspace == ws && o.number.0 == year && ltb (max_seq ws year os) o.number.1)) [
          | inl larger ↦ rw larger (ground (arith, larger))
          | inr not_so ↦ rw not_so (omega arith)
        ]

  own-UpTo : UpTo ws year (max_seq ws year (o ∷ os)) o
  own-UpTo home at =
      elim (Bool-cases
        (o.workspace == ws && o.number.0 == year && ltb (max_seq ws year os) o.number.1)) [
          | inl larger ↦ rw larger (omega arith)
          | inr not_so ↦ rw not_so (ground (arith, not_so, home, at))
        ]

max_seq-UpTo : (ws year : ℕ) (os : List Order) → All (UpTo ws year (max_seq ws year os)) os
max_seq-UpTo ws year [] = tt
max_seq-UpTo ws year (o ∷ os) =
    let more = grows ws year o os in
    (
      own-UpTo ws year o os,
      All-map (UpTo ws year (max_seq ws year os)) (UpTo ws year (max_seq ws year (o ∷ os)))
          (λ p h home at. ground (arith, more, h home at)) os (max_seq-UpTo ws year os),
    )

-- The next number is that of no order of the workspace.
next_number_new :
    (ws year : ℕ) (b : Books)
    → All (λ p. p.workspace ≡ ws → p.number ≢ next_number ws year b) b.orders
unfolding next_number
next_number_new ws year b =
    All-map (UpTo ws year (max_seq ws year b.orders)) _
      (λ p h home same.
        ground (arith, h home (ap (λ (n : ℕ × ℕ). n.0) same), ap (λ (n : ℕ × ℕ). n.1) same))
      b.orders (max_seq-UpTo ws year b.orders)

module _ (d : Decimals) (c : Caller) (a b : Books) (r : Unit {0}) where
  takes_number :
      (year : ℕ) (client : Option ℕ) (discount : Option ℤ) (items : List ItemInput)
      → Ensures
          (λ e. DistinctNumbers e.orders)
          (create_order d c year client discount items)
          (λ _ e. DistinctNumbers e.orders)
  unfolding create_order
  takes_number year client discount items =
      after_check _ _ (assert_order_refs-LooksOnly c.workspace client items) (
        after_guard _ discount_above_subtotal _ λ _.
          and_then
            (λ number e.
              All (λ p. p.workspace ≡ c.workspace → p.number ≢ number) e.orders
              × DistinctNumbers e.orders)
            _ _
            (gets_known _ (next_number c.workspace year)
              (λ e p. (next_number_new c.workspace year e, p)))
            λ number. modify_ends (λ e. DistinctNumbers e.orders) _ (λ e p. p))

  -- Where no two orders of a workspace have one number, this is so after a new order has been taken.
  pub create_order-DistinctNumbers :
      (year : ℕ) (client : Option ℕ) (discount : Option ℤ) (items : List ItemInput)
      → DistinctNumbers a.orders
      → create_order d c year client discount items a ≡ ok (r, b)
      → DistinctNumbers b.orders
  create_order-DistinctNumbers year client discount items p e =
      (takes_number year client discount items).at a r b p e
