-- ===== src/Orders/Repository.antt =====
-- apps/api/src/orders/order.repository.ts, and the reads and writes of order.service.ts that its
-- operations share. Only orders that are not deleted are found.
use construct_fin.Prelude.{
  ℕ, suc, Bool, not, ◌&&◌, Option, none, some, List, [], ◌∷◌, map, ltb, ◌==◌, find, if◌then◌else◌,
}
use construct_fin.Prelude.Result.{ok, err}
use construct_fin.Warehouse.Stock.{is_active}
use construct_fin.Orders.State.{
  Books, Order, OrderItem, OrderTx, OrderAction, account_not_found, order_not_found,
}
use construct_fin.Orders.Calls.{Call}

abbrev pub is_live_order : ℕ → ℕ → Order → Bool
is_live_order ws id o = o.id == id && o.workspace == ws && not o.deleted

-- `findById`
unfoldable pub find_order : ℕ → ℕ → Books → Option Order
find_order ws id b = find (is_live_order ws id) b.orders

-- `lockAndLoad`: the row lock is a read, since calls come one after the other.
unfoldable pub lock_and_load : ℕ → ℕ → Call Order
lock_and_load ws id b = elim (find_order ws id b) [
  | none ↦ err order_not_found
  | some o ↦ ok (o, b)
]

-- `tx.order.update({ where: { id } })`
unfoldable pub update_order : ℕ → (Order → Order) → Books → Books
update_order id f b = record b { orders = map (λ o. if o.id == id then f o else o) b.orders }

-- `tx.orderItem.update({ where: { id } })`
unfoldable pub update_item : ℕ → (OrderItem → OrderItem) → Order → Order
update_item id f o = record o { items = map (λ i. if i.id == id then f i else i) o.items }

-- `tx.transaction.create`, for a transaction of an order.
unfoldable pub create_order_tx : ℕ → OrderTx → Books → Books
unfolding update_order
create_order_tx id t b =
    record (update_order id
      (λ o. record o { transactions = record t { id = b.next_id } ∷ o.transactions }) b) {
        next_id = suc b.next_id;
      }

-- `audit.record`
abbrev pub record_order_audit : OrderAction → ℕ → Books → Books
record_order_audit action id b = record b { audit = (action, id) ∷ b.audit }

-- `assertAccount`, and `assertAccountTx` in the transaction: the same look-up again.
unfoldable pub assert_order_account : ℕ → ℕ → Call (Unit {0})
assert_order_account ws id b = elim (find (is_active ws id) b.stock.accounts) [
  | none ↦ err account_not_found
  | some a ↦ ok (tt, b)
]

abbrev pub max_seq : ℕ → ℕ → List Order → ℕ
max_seq ws year [] = 0
max_seq ws year (o ∷ os) =
    let (y, s) = o.number in
    let rest = max_seq ws year os in
    if o.workspace == ws && y == year && ltb rest s then s else rest

-- `nextNumber`: deleted orders keep their numbers.
unfoldable pub next_number : ℕ → ℕ → Books → ℕ × ℕ
next_number ws year b = (year, suc (max_seq ws year b.orders))
