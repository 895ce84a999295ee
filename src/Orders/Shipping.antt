-- ===== src/Orders/Shipping.antt =====
-- apps/api/src/orders/order.service.ts: goods leave and come back. The lines of an order are taken in
-- the order of their warehouse items, so that all calls lock the lots in one order.
use construct_fin.Prelude.{
  ℕ, Bool, true, false, not, ◌&&◌, Option, none, some, ◌∷◌, ℤ, pos, neg, ◌+ℤ◌, ◌-ℤ◌, ◌*ℤ◌, ltb_ℤ,
  ◌==◌, if◌then◌else◌, find,
}
use construct_fin.Decimal.{Decimals, money}
use construct_fin.Sorting.{Comparator}
use construct_fin.Warehouse.State
use construct_fin.Warehouse.State.{Caller, Db}
use construct_fin.Warehouse.Valuation.{unit_cost_at_sale}
use construct_fin.Warehouse.Trade.{decrement_for_sale, reverse_consumption, restock, or_now}
use construct_fin.Orders.State.{
  OrderStatus, open_order, done, cancelled, OrderTxKind, order_payment, order_refund, variable_cost,
  cogs, OrderTx, OrderItem, OrderReturn, Order, Books, OrderAction, line_not_found,
  qty_not_positive, not_open, above_remaining, refund_negative, in_the_future, not_done,
  refund_above_paid, above_sold,
}
use construct_fin.Orders.Calls.{
  Call, ◌>>=◌, ◌>>◌, throw_when, gets, modify, pure, or_throw, on_stock, unless_no_consumptions,
}
use construct_fin.Orders.Repository.{
  lock_and_load, update_order, update_item, create_order_tx, record_order_audit,
  assert_order_account,
}
use construct_fin.Orders.Payments.{sync_payment_state, payment_of}

abbrev pub is_open_order : OrderStatus → Bool
is_open_order open_order = true
is_open_order done = false
is_open_order cancelled = false

abbrev pub is_cogs : OrderTxKind → Bool
is_cogs order_payment = false
is_cogs order_refund = false
is_cogs variable_cost = false
is_cogs cogs = true

abbrev pub is_missing : Option ℕ → Bool
is_missing none = true
is_missing (some k) = false

abbrev pub is_done : OrderStatus → Bool
is_done open_order = false
is_done done = true
is_done cancelled = false

abbrev pub compare_keys : Option ℕ → Option ℕ → ℤ
compare_keys none none = pos 0
compare_keys none (some k) = pos 1
compare_keys (some k) none = neg (pos 1)
compare_keys (some k) (some j) = pos k -ℤ pos j

-- `sortItemsForLocking`: keys compare as their numbers, and a line without an item comes last.
abbrev pub by_warehouse_item : Comparator OrderItem
by_warehouse_item x y = compare_keys x.warehouse_item y.warehouse_item

abbrev pub or_cost : Option ℤ → Option ℤ → Option ℤ
or_cost none other = other
or_cost (some v) other = some v

abbrev pub or_zero_cost : Option ℤ → ℤ
or_zero_cost none = pos 0
or_zero_cost (some v) = v

module _ (d : Decimals) (c : Caller) where
  -- What a shipped line takes from the warehouse, and its cost at sale after that.
  unfoldable pub take_stock : ℕ → OrderItem → ℤ → ℕ → Call (Option ℤ)
  take_stock id item q key = do
    on_stock (decrement_for_sale d c key q (some id) (some item.id))
    gets (λ b. unit_cost_at_sale d c.workspace item.id b.stock)

  unfoldable pub take_if_stocked : ℕ → OrderItem → ℤ → Option ℕ → Call (Option ℤ)
  unfolding take_stock
  take_if_stocked id item q none = pure item.unit_cost_at_sale
  take_if_stocked id item q (some key) = take_stock id item q key

  -- `ship`
  unfoldable pub ship : ℕ → ℕ → ℤ → Call (Unit {0})
  unfolding take_if_stocked
  ship id line q = do
    throw_when (not (ltb_ℤ (pos 0) q)) qty_not_positive
    order ← lock_and_load c.workspace id
    throw_when (not (is_open_order order.status)) not_open
    item ← or_throw line_not_found (find (λ i. i.id == line) order.items)
    throw_when (ltb_ℤ (item.qty -ℤ item.shipped_qty) q)
        (above_remaining (item.qty -ℤ item.shipped_qty))
    cost ← take_if_stocked id item q item.warehouse_item
    modify (
        update_order id (
          update_item item.id
            (λ i. record i { shipped_qty = item.shipped_qty +ℤ q; unit_cost_at_sale = cost })))
    modify (record_order_audit OrderAction.ship id)

  -- `reverseConsumption`, or `restock` where nothing was consumed.
  unfoldable pub put_back : ℕ → OrderItem → ℤ → ℕ → State.M (Unit {0})
  put_back id item q key db =
      unless_no_consumptions (reverse_consumption d c key item.id q (some id) db)
        (restock d c key q (some id) (or_cost item.unit_cost_at_sale item.unit_cost) db)

  unfoldable pub put_back_if_stocked : ℕ → OrderItem → ℤ → Option ℕ → Call (Option ℤ)
  unfolding put_back
  put_back_if_stocked id item q none = pure item.unit_cost_at_sale
  put_back_if_stocked id item q (some key) = do
    on_stock (put_back id item q key)
    gets (λ b. unit_cost_at_sale d c.workspace item.id b.stock)

  -- The unit cost of what is still sold, after the return.
  abbrev pub cost_after : OrderItem → Option ℤ → Option ℕ → ℤ
  cost_after item cost none = or_zero_cost (or_cost item.unit_cost_at_sale item.unit_cost)
  cost_after item cost (some key) = or_zero_cost cost

  -- The event of the return; `costAmount` is by how much the recognised cost falls.
  abbrev pub return_event : OrderItem → ℤ → ℤ → ℤ → Option ℤ → OrderReturn
  return_event item q refund date cost =
      let before = item.qty -ℤ item.returned_qty in
      let unit_before = or_zero_cost (or_cost item.unit_cost_at_sale item.unit_cost) in
      record {
        order_item = item.id;
        qty = q;
        revenue_amount = money d 3 (q *ℤ item.unit_price);
        cost_amount =
            money d 5
              (before *ℤ unit_before -ℤ (before -ℤ q) *ℤ cost_after item cost item.warehouse_item);
        refund_amount = refund;
        date = date;
      }

  abbrev pub is_original_cogs : OrderTx → Bool
  is_original_cogs t = is_cogs t.kind && is_missing t.original && not t.deleted

  -- A reversal of the cost of a service, against the transaction that recognised it.
  abbrev pub cogs_reversal : ℕ → Order → ℤ → ℤ → Option OrderTx → Books → Books
  cogs_reversal id order amount date none b = b
  cogs_reversal id order amount date (some o) b =
      create_order_tx id
        (record (payment_of order cogs date (neg amount) o.account) {
          counterparty = none;
          original = some o.id;
        })
        b

  unfoldable pub reverse_cogs : ℕ → Order → ℤ → ℤ → Option ℕ → Option ℤ → Books → Books
  reverse_cogs id order q date (some key) cost b = b
  reverse_cogs id order q date none none b = b
  reverse_cogs id order q date none (some cost) b =
      let amount = money d 5 (q *ℤ cost) in
      if ltb_ℤ (pos 0) cost && ltb_ℤ (pos 0) amount
      then cogs_reversal id order amount date (find is_original_cogs order.transactions) b
      else b

module _ (d : Decimals) (c : Caller) where
  abbrev pub book_refund : ℕ → Order → ℤ → ℤ → ℕ → Books → Books
  book_refund id order refund date account b =
      if ltb_ℤ (pos 0) refund
      then create_order_tx id (payment_of order order_refund date refund account) b
      else b

  abbrev pub returned_cost : OrderItem → Option ℤ → Option ℤ
  returned_cost item cost = elim item.warehouse_item [
    | none ↦ item.unit_cost_at_sale
    | some key ↦ cost
  ]

  -- The writes of `returnItem` on the order: the line and the event.
  abbrev pub line_returned : OrderItem → ℤ → Option ℤ → Order → Order
  line_returned item q cost = update_item item.id (λ i. record i {
    returned_qty = item.returned_qty +ℤ q;
    unit_cost_at_sale = returned_cost item cost;
  })

  abbrev pub add_return : OrderReturn → Order → Order
  add_return r o = record o { returns = r ∷ o.returns }

  -- `returnItem`
  unfoldable pub return_item : ℤ → ℕ → ℕ → ℤ → ℤ → ℕ → Option ℤ → Call (Unit {0})
  unfolding put_back_if_stocked reverse_cogs sync_payment_state update_item
  return_item end_of_day id line q refund account date = do
    throw_when (not (ltb_ℤ (pos 0) q)) qty_not_positive
    throw_when (ltb_ℤ refund (pos 0)) refund_negative
    assert_order_account c.workspace account
    throw_when (ltb_ℤ end_of_day (or_now c date)) in_the_future
    order ← lock_and_load c.workspace id
    throw_when (not (is_done order.status)) not_done
    throw_when (ltb_ℤ order.paid_amount refund) (refund_above_paid refund order.paid_amount)
    item ← or_throw line_not_found (find (λ i. i.id == line) order.items)
    throw_when (ltb_ℤ (item.qty -ℤ item.returned_qty) q)
        (above_sold (item.qty -ℤ item.returned_qty))
    assert_order_account c.workspace account
    cost ← put_back_if_stocked d c id item q item.warehouse_item
    modify (update_order id (line_returned item q cost))
    modify (update_order id (add_return (return_event d c item q refund (or_now c date) cost)))
    modify (reverse_cogs d c id order q (or_now c date) item.warehouse_item item.unit_cost)
    modify (book_refund id order refund (or_now c date) account)
    modify (sync_payment_state d id)
    modify (record_order_audit OrderAction.return_item id)
