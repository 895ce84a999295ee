-- ===== src/Orders/Payments.antt =====
-- apps/api/src/orders/order.service.ts: what is paid on an order, and the calls that take and undo
-- payments. Texts are left out.
use construct_fin.Prelude.{
  ℕ, suc, length, Bool, true, false, not, ◌&&◌, ◌||◌, Option, none, some, List, [], ◌∷◌, map, ℤ,
  pos, ◌-ℤ◌, ◌*ℤ◌, ltb_ℤ, eqb_ℤ, max_ℤ, ◌==◌, if◌then◌else◌, find, keep, sum_by,
}
use construct_fin.Decimal.{Decimals, money}
use construct_fin.Schedule.{ScheduleEntry}
use construct_fin.Warehouse.State.{Caller}
use construct_fin.Warehouse.Trade.{or_now}
use construct_fin.Orders.State.{
  OrderStatus, open_order, done, cancelled, OrderPaymentState, unpaid, partial, paid_up, overpaid,
  refunded, OrderTxKind, order_payment, order_refund, variable_cost, cogs, OrderTx, OrderItem,
  Order, Books, OrderAction, payment_not_found, amount_not_positive, fee_not_below_amount,
  in_the_future, order_cancelled, not_deletable,
}
use construct_fin.Orders.Calls.{Call, ◌>>=◌, ◌>>◌, throw_when, modify, or_throw, hand_out}
use construct_fin.Orders.Repository.{
  lock_and_load, update_order, create_order_tx, record_order_audit, assert_order_account,
}

-- `resolvePaymentState`
unfoldable pub resolve_payment_state : ℤ → ℤ → OrderPaymentState
resolve_payment_state paid total =
    if ltb_ℤ paid (pos 0)
    then refunded
    else if eqb_ℤ total (pos 0)
    then if eqb_ℤ paid (pos 0) then paid_up else overpaid
    else if eqb_ℤ paid (pos 0)
    then unpaid
    else if ltb_ℤ paid total
    then partial
    else if ltb_ℤ total paid
    then overpaid
    else paid_up

abbrev pub is_payment : OrderTxKind → Bool
is_payment order_payment = true
is_payment order_refund = false
is_payment variable_cost = false
is_payment cogs = false

abbrev pub is_refund : OrderTxKind → Bool
is_refund order_payment = false
is_refund order_refund = true
is_refund variable_cost = false
is_refund cogs = false

-- `groupBy` with `_sum`: the amounts of the rows of a kind that are not deleted.
unfoldable pub sum_of : (OrderTxKind → Bool) → List OrderTx → ℤ
sum_of p ts = sum_by (λ t. t.amount) (keep (λ t. p t.kind && not t.deleted) ts)

-- What came back, at the price of each line, in units of 10^-5.
unfoldable pub returned_value : List OrderItem → ℤ
returned_value items = sum_by (λ i. i.returned_qty *ℤ i.unit_price) items

module _ (d : Decimals) where
  unfoldable pub net_revenue : Order → ℤ
  unfolding returned_value
  net_revenue o = money d 3 (max_ℤ (o.total_amount *ℤ pos 1000 -ℤ returned_value o.items) (pos 0))

  -- `syncPaymentState`, on the row.
  unfoldable pub synced : Order → Order
  unfolding net_revenue sum_of resolve_payment_state
  synced o =
      let paid = sum_of is_payment o.transactions -ℤ sum_of is_refund o.transactions in
      record o { paid_amount = paid; payment_status = resolve_payment_state paid (net_revenue o) }

  unfoldable pub sync_payment_state : ℕ → Books → Books
  unfolding synced
  sync_payment_state id = update_order id synced

abbrev pub is_cancelled : OrderStatus → Bool
is_cancelled open_order = false
is_cancelled done = false
is_cancelled cancelled = true

-- `DELETABLE_PAYMENT_KINDS`
abbrev pub is_deletable : OrderTxKind → Bool
is_deletable order_payment = true
is_deletable order_refund = true
is_deletable variable_cost = true
is_deletable cogs = false

abbrev pub payment_of : Order → OrderTxKind → ℤ → ℤ → ℕ → OrderTx
payment_of o kind date amount account = record {
  id = 0;
  kind = kind;
  date = date;
  amount = amount;
  account = account;
  counterparty = o.client;
  original = none;
  deleted = false;
}

-- The rows that a test picks are deleted, softly.
abbrev pub delete_txs : (OrderTx → Bool) → Order → Order
delete_txs p o = record o {
  transactions = map (λ t. if p t then record t { deleted = true } else t) o.transactions;
}

-- A key that may be missing is one of the list.
abbrev pub is_tx_of : List OrderTx → Option ℕ → Bool
is_tx_of ts none = false
is_tx_of [] (some k) = false
is_tx_of (t ∷ ts) (some k) = t.id == k || is_tx_of ts (some k)

-- `bankStatementLine.updateMany`: the lines of the transactions go back to the inbox.
unfoldable pub release_lines : ℕ → List OrderTx → Books → Books
release_lines ws ts b = record b {
  bank_lines =
      map
        (λ l.
          if l.workspace == ws && is_tx_of ts l.transaction
          then record l { is_new = true; transaction = none; adopted = false }
          else l)
        b.bank_lines;
}

module _ (d : Decimals) (c : Caller) (end_of_day : ℤ) where
  -- `addPayment`
  unfoldable pub add_payment : ℕ → ℤ → ℕ → Option ℤ → Call (Unit {0})
  unfolding sync_payment_state
  add_payment id amount account date = do
    throw_when (not (ltb_ℤ (pos 0) amount)) amount_not_positive
    throw_when (ltb_ℤ end_of_day (or_now c date)) in_the_future
    assert_order_account c.workspace account
    order ← lock_and_load c.workspace id
    throw_when (is_cancelled order.status) order_cancelled
    assert_order_account c.workspace account
    modify (create_order_tx id (payment_of order order_payment (or_now c date) amount account))
    modify (sync_payment_state d id)

  -- `addInstallmentPayment`: the whole sum is paid, and the fee of the bank is a cost of the order.
  unfoldable pub add_installment_payment : ℕ → ℤ → ℤ → ℕ → Option ℤ → Call (Unit {0})
  unfolding sync_payment_state
  add_installment_payment id amount fee account date = do
    throw_when (not (ltb_ℤ (pos 0) amount)) amount_not_positive
    throw_when (not (ltb_ℤ fee amount)) fee_not_below_amount
    throw_when (ltb_ℤ end_of_day (or_now c date)) in_the_future
    assert_order_account c.workspace account
    order ← lock_and_load c.workspace id
    throw_when (is_cancelled order.status) order_cancelled
    assert_order_account c.workspace account
    modify (create_order_tx id (payment_of order order_payment (or_now c date) amount account))
    modify (λ b.
        if ltb_ℤ (pos 0) fee
        then create_order_tx id (payment_of order variable_cost (or_now c date) fee account) b
        else b)
    modify (sync_payment_state d id)
    modify (record_order_audit OrderAction.installment id)

module _ (d : Decimals) (c : Caller) where
  -- `deletePayment`
  unfoldable pub delete_payment : ℕ → ℕ → Call (Unit {0})
  unfolding sync_payment_state release_lines
  delete_payment id tx = do
    order ← lock_and_load c.workspace id
    payment ←
        or_throw payment_not_found (find (λ t. t.id == tx && not t.deleted) order.transactions)
    throw_when (not (is_deletable payment.kind)) not_deletable
    modify (update_order id (delete_txs (λ t. t.id == tx)))
    modify (release_lines c.workspace (payment ∷ []))
    modify (sync_payment_state d id)
    modify (record_order_audit OrderAction.payment_delete id)

abbrev pub scheduled : ℕ → ℕ → List (ℕ × ℤ) → List ScheduleEntry
scheduled key seq [] = []
scheduled key seq ((due, amount) ∷ es) =
    record { id = key; seq = seq; due_date = due; amount = amount }
    ∷ scheduled (suc key) (suc seq) es

-- `setSchedule`: the plan is replaced.
unfoldable pub set_schedule : Caller → ℕ → List (ℕ × ℤ) → Call (Unit {0})
unfolding hand_out
set_schedule c id entries = do
  order ← lock_and_load c.workspace id
  throw_when (is_cancelled order.status) order_cancelled
  key ← hand_out (length entries)
  modify (update_order id (λ o. record o { schedule = scheduled key 1 entries }))
  modify (record_order_audit OrderAction.schedule id)
