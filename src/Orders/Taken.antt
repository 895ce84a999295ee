-- ===== src/Orders/Taken.antt =====
-- The order that `create` (apps/api/src/orders/order.service.ts) leaves.
use construct_fin.Prelude.{
  ℕ, suc, ◌≡◌, refl, Option, List, ◌∷◌, arith, int_laws, ℤ, pos, ◌-ℤ◌, ◌≤ℤ◌, ◌<ℤ◌, ltb_ℤ→le, ap,
}
use construct_fin.Prelude.Result.{ok}
use construct_fin.Decimal.{Decimals, IsRounding, money}
use construct_fin.Warehouse.State.{Caller}
use construct_fin.Warehouse.Stock.{or_kept}
use construct_fin.Orders.State.{open_order, unpaid, paid_up, Order, Books, discount_above_subtotal}
use construct_fin.Orders.Payments.{resolve_payment_state, net_revenue, returned_value}
use construct_fin.Orders.Edit.{ItemInput, subtotal_of, create_order}
use construct_fin.Orders.Rows.{Ensures, after_guard, after_check, after_gets, modify_ends}
use construct_fin.Orders.Changing.{assert_order_refs-LooksOnly, net_total, new_returned}

-- A new order is open and unpaid. Where it costs something, that is the payment state of nothing paid;
-- where it costs nothing, the payment state of nothing paid is another.
abbrev pub NewOrder : Decimals → Order → Type 0
NewOrder d o =
    (o.status ≡ open_order)
    × (o.payment_status ≡ unpaid)
    × (pos 0 ≤ℤ o.total_amount)
    × (pos 0 <ℤ o.total_amount → resolve_payment_state o.paid_amount (net_revenue d o) ≡ unpaid)
    × (o.total_amount ≡ pos 0 → resolve_payment_state o.paid_amount (net_revenue d o) ≡ paid_up)

priced : (total : ℤ) → pos 0 <ℤ total → resolve_payment_state (pos 0) total ≡ unpaid
unfolding resolve_payment_state
priced total h = ground (arith, h)

free : (total : ℤ) → total ≡ pos 0 → resolve_payment_state (pos 0) total ≡ paid_up
unfolding resolve_payment_state
free total h = ground (arith, h)

new_order :
    (d : Decimals) (o : Order)
    → IsRounding d
    → o.status ≡ open_order
    → o.payment_status ≡ unpaid
    → o.paid_amount ≡ pos 0
    → returned_value o.items ≡ pos 0
    → pos 0 ≤ℤ o.total_amount
    → NewOrder d o
new_order d o rounding is_open state paid back total =
    let net = net_total d o rounding back total in
    (
      is_open,
      state,
      total,
      (λ h. rw (net, paid) (priced o.total_amount h)),
      (λ h. rw (net, paid) (free o.total_amount h)),
    )

difference : (a b : ℤ) → b ≤ℤ a → pos 0 ≤ℤ a -ℤ b
difference a b le = omega (int_laws, le)

in_front : {o : Order} {xs ys : List Order} → xs ≡ ys → ◌≡◌ {A = List Order} (o ∷ xs) (o ∷ ys)
in_front {o} same = ap (λ (zs : List Order). o ∷ zs) same

module _ (d : Decimals) (c : Caller) (a b : Books) (r : Unit {0}) where
  -- Where taking an order goes through, one order is added in front of the others, open
  -- and unpaid, of a total that is not negative. Unpaid is the state that resolvePaymentState gives it
  -- where its total is above 0; where its total is 0, resolvePaymentState gives it the state of an order
  -- that is paid.
  pub create_order_outcome :
      (year : ℕ) (client : Option ℕ) (discount : Option ℤ) (items : List ItemInput)
      → IsRounding d
      → create_order d c year client discount items a ≡ ok (r, b)
      → (o : Order) × (b.orders ≡ o ∷ a.orders) × NewOrder d o
  unfolding create_order
  create_order_outcome year client discount items rounding e =
      let takes : Ensures (λ x. x.orders ≡ a.orders) (create_order d c year client discount items)
          (λ _ x. (o : Order) × (x.orders ≡ o ∷ a.orders) × NewOrder d o) =
        after_check _ _ (assert_order_refs-LooksOnly c.workspace client items) (
          after_guard _ discount_above_subtotal _ λ covered. after_gets _ _ λ number.
            modify_ends _ _ (λ x same. (
              _,
              in_front same,
              new_order d _ rounding refl refl refl (new_returned d (suc x.next_id) items) (
                  difference (money d 3 (subtotal_of items)) (or_kept discount (pos 0))
                    (ltb_ℤ→le (money d 3 (subtotal_of items)) (or_kept discount (pos 0)) covered)),
            ))) in
      takes.at a r b refl e
