-- ===== src/Orders/Closing.antt =====
-- apps/api/src/orders/order.service.ts: an order is closed, and a closing is undone by cancelling,
-- reopening or deleting the order.
use construct_fin.Prelude.{
  ℕ, Bool, true, false, not, ◌&&◌, ◌||◌, Option, none, some, List, [], ◌∷◌, ℤ, pos, ◌+ℤ◌, ◌-ℤ◌,
  ◌*ℤ◌, ltb_ℤ, if◌then◌else◌, find, keep,
}
use construct_fin.Prelude.Result.{ok}
use construct_fin.Decimal.{Decimals, money}
use construct_fin.Sorting.{Comparator, sort}
use construct_fin.Warehouse.State.{Caller, Party}
use construct_fin.Warehouse.Valuation.{unit_cost_at_sale, first_account}
use construct_fin.Warehouse.Trade.{decrement_for_sale, or_now}
use construct_fin.Orders.State.{
  OrderStatus, open_order, done, cancelled, cogs, OrderTx, OrderItem, Order, Books, OrderAction,
  in_the_future, order_cancelled, no_cost_account, not_closed,
}
use construct_fin.Orders.Calls.{
  Call, ◌>>=◌, ◌>>◌, throw_when, unless, gets, modify, pure, throw, on_stock,
}
use construct_fin.Orders.Repository.{
  lock_and_load, update_order, update_item, create_order_tx, record_order_audit,
}
use construct_fin.Orders.Payments.{
  sync_payment_state, is_cancelled, payment_of, delete_txs, release_lines, is_payment,
}
use construct_fin.Orders.Shipping.{by_warehouse_item, is_done, is_cogs, put_back}

abbrev pub newest_first : Comparator OrderTx
newest_first x y = y.date -ℤ x.date

abbrev pub account_of : Option OrderTx → Option Party → Option ℕ
account_of (some t) other = some t.account
account_of none (some p) = some p.id
account_of none none = none

-- `resolveCostAccount`: that of the last payment, else the first that is active.
unfoldable pub resolve_cost_account : ℕ → Order → Books → Option ℕ
resolve_cost_account ws order b =
    account_of
      (find (λ t. is_payment t.kind)
        (sort newest_first (keep (λ t. not t.deleted) order.transactions)))
      (first_account ws b.stock)

abbrev pub manual_cost : OrderItem → ℤ
manual_cost item = elim item.unit_cost [ none ↦ pos 0 | some v ↦ item.qty *ℤ v ]

abbrev pub closed_order : ℤ → Order → Order
closed_order at o = record o { status = done; closed_at = some at }

-- What is still with the client of a line, before the order is undone.
abbrev pub net_out : OrderStatus → OrderItem → ℤ
net_out status item = (if is_done status then item.qty else item.shipped_qty) -ℤ item.returned_qty

abbrev pub has_cost : Option ℤ → Bool
has_cost none = false
has_cost (some v) = true

abbrev pub fresh_line : OrderItem → OrderItem
fresh_line i = record i { shipped_qty = pos 0; unit_cost_at_sale = none; returned_qty = pos 0 }

unfoldable pub reset_line : ℕ → OrderItem → Books → Books
reset_line id item b =
    if ltb_ℤ (pos 0) item.shipped_qty
      || has_cost item.unit_cost_at_sale
      || ltb_ℤ (pos 0) item.returned_qty
    then update_order id (update_item item.id fresh_line) b
    else b

module _ (d : Decimals) (c : Caller) where
  -- What `finalize` ships of a line: what `ship` has left, and nothing where that is nothing.
  unfoldable pub ship_remaining : ℕ → OrderItem → ℕ → Call (Unit {0})
  ship_remaining id item key b =
      let remaining = item.qty -ℤ item.shipped_qty in
      if ltb_ℤ (pos 0) remaining
      then (on_stock (decrement_for_sale d c key remaining (some id) (some item.id)) >> pure tt) b
      else ok (tt, b)

  -- A line of `finalize`: it answers with the cost that is to be booked, in units of 10^-7.
  unfoldable pub close_line : ℕ → OrderItem → Option ℕ → Call ℤ
  unfolding ship_remaining
  close_line id item none = do
    modify (
        update_order id (
          update_item item.id
            (λ i. record i { shipped_qty = item.qty; unit_cost_at_sale = item.unit_cost })))
    pure (manual_cost item)
  close_line id item (some key) = do
    ship_remaining id item key
    cost ← gets (λ b. unit_cost_at_sale d c.workspace item.id b.stock)
    modify (
        update_order id (
          update_item item.id (λ i. record i { shipped_qty = item.qty; unit_cost_at_sale = cost })))
    pure (pos 0)

  unfoldable pub close_lines : ℕ → List OrderItem → Call ℤ
  unfolding close_line
  close_lines id [] = pure (pos 0)
  close_lines id (item ∷ items) = do
    cost ← close_line id item item.warehouse_item
    rest ← close_lines id items
    pure (cost +ℤ rest)

  -- The cost of the lines outside the warehouse is booked as one transaction.
  unfoldable pub book_on : ℕ → Order → ℤ → ℤ → Option ℕ → Call (Unit {0})
  book_on id order manual closed_at none = throw no_cost_account
  book_on id order manual closed_at (some account) =
      modify (create_order_tx id (payment_of order cogs closed_at (money d 5 manual) account))

  unfoldable pub book_cogs : ℕ → Order → ℤ → ℤ → Call (Unit {0})
  unfolding resolve_cost_account book_on
  book_cogs id order manual closed_at b =
      if ltb_ℤ (pos 0) manual
      then book_on id order manual closed_at (resolve_cost_account c.workspace order b) b
      else ok (tt, b)

  -- The part of `finalize` behind its guards.
  unfoldable pub close_order : ℕ → Order → ℤ → Call (Unit {0})
  unfolding close_lines book_cogs
  close_order id order closed_at = do
    manual ← close_lines id (sort by_warehouse_item order.items)
    book_cogs id order manual closed_at
    modify (update_order id (closed_order closed_at))
    modify (record_order_audit OrderAction.finalize id)

  -- `finalize`; closing a closed order changes nothing.
  unfoldable pub finalize : ℤ → ℕ → Option ℤ → Call (Unit {0})
  unfolding close_order
  finalize end_of_day id closed_on = do
    throw_when (ltb_ℤ end_of_day (or_now c closed_on)) in_the_future
    order ← lock_and_load c.workspace id
    throw_when (is_cancelled order.status) order_cancelled
    unless (is_done order.status) (close_order id order (or_now c closed_on))

  unfoldable pub restore_line : ℕ → OrderStatus → OrderItem → Option ℕ → Call (Unit {0})
  unfolding put_back
  restore_line id status item none b = ok (tt, b)
  restore_line id status item (some key) b =
      if ltb_ℤ (pos 0) (net_out status item)
      then on_stock (put_back d c id item (net_out status item) key) b
      else ok (tt, b)

  unfoldable pub restore_lines : ℕ → OrderStatus → List OrderItem → Call (Unit {0})
  unfolding restore_line reset_line
  restore_lines id status [] = pure tt
  restore_lines id status (item ∷ items) = do
    restore_line id status item item.warehouse_item
    modify (reset_line id item)
    restore_lines id status items

  -- `reverseFinalization`
  unfoldable pub reverse_finalization : Order → Call (Unit {0})
  unfolding restore_lines
  reverse_finalization order = do
    restore_lines order.id order.status (sort by_warehouse_item order.items)
    modify (update_order order.id (delete_txs (λ t. is_cogs t.kind && not t.deleted)))
    modify (update_order order.id (λ o. record o { returns = [] }))

  -- `cancel`; cancelling a cancelled order changes nothing.
  unfoldable pub cancel : ℕ → Call (Unit {0})
  unfolding reverse_finalization
  cancel id = do
    order ← lock_and_load c.workspace id
    unless (is_cancelled order.status) (do
      reverse_finalization order
      modify (update_order id (λ o. record o { status = cancelled }))
      modify (record_order_audit OrderAction.cancel id))

  -- `reopen`
  unfoldable pub reopen : ℕ → Call (Unit {0})
  unfolding reverse_finalization sync_payment_state
  reopen id = do
    order ← lock_and_load c.workspace id
    throw_when (not (is_done order.status) && not (is_cancelled order.status)) not_closed
    reverse_finalization order
    modify (update_order id (λ o. record o { status = open_order; closed_at = none }))
    modify (sync_payment_state d id)
    modify (record_order_audit OrderAction.reopen id)

  -- `remove`
  unfoldable pub remove_order : ℕ → Call (Unit {0})
  unfolding reverse_finalization release_lines
  remove_order id = do
    order ← lock_and_load c.workspace id
    reverse_finalization order
    modify (update_order id (delete_txs (λ t. not t.deleted)))
    modify (release_lines c.workspace order.transactions)
    modify (update_order id (λ o. record o { deleted = true }))
    modify (record_order_audit OrderAction.delete id)
