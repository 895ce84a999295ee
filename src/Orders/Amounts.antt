-- ===== src/Orders/Amounts.antt =====
-- What is paid on an order (apps/api/src/orders/order.service.ts: resolvePaymentState, addPayment).
use construct_fin.Prelude.{
  ℕ, ◌≡◌, ◌≢◌, ◌↔◌, refl, Option, some, arith, int_laws, ℤ, pos, ◌+ℤ◌, ◌<ℤ◌, ◌≤ℤ◌,
}
use mathlib.Core.Path.{subst}
use construct_fin.Prelude.Result.{ok}
use construct_fin.Decimal.{Decimals}
use construct_fin.Warehouse.State.{Caller}
use construct_fin.Warehouse.Trade.{or_now}
use construct_fin.Orders.State.{
  OrderPaymentState, unpaid, partial, paid_up, overpaid, refunded, order_payment, Order, Books,
  amount_not_positive, in_the_future, order_cancelled,
}
use construct_fin.Orders.Repository.{find_order}
use construct_fin.Orders.Payments.{
  resolve_payment_state, net_revenue, synced, sync_payment_state, sum_of, payment_of, add_payment,
}
use construct_fin.Orders.Rows.{Rows, after_guard, after_check, after_load_of, weaken}
use construct_fin.Orders.Writes.{
  Leaves, with_tx, after_tx, write_ends, assert_order_account-LooksOnly,
}
use construct_fin.Orders.Sound.{Sound, SoundIfLive, live-Sound, synced-Sound}
use construct_fin.Orders.Taking.{Leaves-synced, synced-KeepsKeys}

-- What each payment state says of the amount paid and of the net revenue.
abbrev pub StateOf : OrderPaymentState → ℤ → ℤ → Type 0
StateOf unpaid paid total = (paid ≡ pos 0) × (total ≢ pos 0)
StateOf partial paid total = (pos 0 <ℤ paid) × (paid <ℤ total)
StateOf paid_up paid total = (pos 0 ≤ℤ paid) × (paid ≡ total)
StateOf overpaid paid total = (pos 0 <ℤ paid) × (total <ℤ paid)
StateOf refunded paid total = paid <ℤ pos 0

resolved : (paid total : ℤ) → StateOf (resolve_payment_state paid total) paid total
unfolding resolve_payment_state
resolved paid total = ground arith

described :
    (paid total : ℤ) (s : OrderPaymentState)
    → StateOf s paid total
    → resolve_payment_state paid total ≡ s
unfolding resolve_payment_state
described paid total unpaid h = ground (arith, h)
described paid total partial h = ground (arith, h)
described paid total paid_up h = ground (arith, h)
described paid total overpaid h = ground (arith, h)
described paid total refunded h = ground (arith, h)

-- The payment state of an amount and of a net revenue is a state exactly where its description fits
-- them, so that the five descriptions cover all amounts and exclude each other.
pub resolve_payment_state_lem :
    (paid total : ℤ) (s : OrderPaymentState)
    → (resolve_payment_state paid total ≡ s) ↔ StateOf s paid total
resolve_payment_state_lem paid total s =
    ((λ e. subst (λ t. StateOf t paid total) e (resolved paid total)), described paid total s)

-- What a payment leaves of an order: the amount is added to what is paid.
abbrev pub PaidMore : Decimals → ℤ → Order → Order → Type 0
PaidMore d amount o p =
    (p.paid_amount ≡ o.paid_amount +ℤ amount)
    × (p.payment_status ≡ resolve_payment_state p.paid_amount (net_revenue d p))
    × (p.status ≡ o.status)
    × (p.items ≡ o.items)

paid_more :
    (d : Decimals) (o : Order) (key account : ℕ) (at amount : ℤ)
    → Sound d o
    → PaidMore d amount o
        (synced d (with_tx (record (payment_of o order_payment at amount account) { id = key }) o))
unfolding synced sum_of
paid_more d o key account at amount s = (rw s.paid (omega int_laws), refl, refl, refl)

module _ (d : Decimals) (c : Caller) (id : ℕ) (o : Order) (a : Books) (r : Unit {0})
    (b : Books) where
  -- Paying on an order of books in which every live order is sound, where it goes through, leaves every
  -- live order sound, adds the amount to what is paid on this one, and sets its payment state to that of
  -- the new amount; its status and its lines stay.
  pub add_payment_outcome :
      (end_of_day amount : ℤ) (account : ℕ) (date : Option ℤ)
      → Rows (SoundIfLive d) a
      → find_order c.workspace id a ≡ some o
      → add_payment d c end_of_day id amount account date a ≡ ok (r, b)
      → Rows (SoundIfLive d) b × Leaves c.workspace id (PaidMore d amount o) b
  unfolding add_payment sync_payment_state
  add_payment_outcome end_of_day amount account date p found e =
      let pays = after_guard _ amount_not_positive _ λ _. after_guard _ in_the_future _ λ _.
        after_check _ _ (assert_order_account-LooksOnly c.workspace account) (
          after_load_of (SoundIfLive d) c.workspace id o _ λ s key home live.
            after_guard _ order_cancelled _ λ _.
              after_check _ _ (assert_order_account-LooksOnly c.workspace account) (
                after_tx (SoundIfLive d) id o _ _ λ k.
                  let v = live-Sound d o s live in
                  let paid =
                    with_tx
                      (record (payment_of o order_payment (or_now c date) amount account) {
                        id = k;
                      })
                      o in
                  weaken _ _ _ (write_ends (SoundIfLive d) id paid (synced d) (synced-KeepsKeys d))
                    (λ x y w.
                      Leaves-synced d id paid c.workspace (PaidMore d amount o) y home live
                        (synced-Sound d paid v.total v.discount v.lines v.keys)
                        (paid_more d o k account (or_now c date) amount v) w))) in
      pays.at a r b (p, found) e
