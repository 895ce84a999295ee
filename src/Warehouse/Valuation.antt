-- ===== src/Warehouse/Valuation.antt =====
-- apps/api/src/warehouse/warehouse.service.ts: write-off, the cost of an opening balance, and the cost
-- snapshot of an order line.
use construct_fin.Prelude.{
  ℕ, suc, not, ◌&&◌, Option, none, some, ◌∷◌, map, ℤ, pos, ltb_ℤ, eqb_ℤ, ◌==◌, if◌then◌else◌, find,
}
use construct_fin.Prelude.Result.{ok}
use construct_fin.Decimal.{Decimals, money}
use construct_fin.Warehouse.State.{
  MovementType, RefType, Transaction, TransactionKind, Party, AuditAction, Db, Caller, not_positive,
  cost_already_set, empty_stock, cost_not_positive, no_account, M, ◌>>=◌, ◌>>◌, pure, throw,
  throw_when, gets,
}
use construct_fin.Warehouse.Repository.{
  lock_for_update, record_movement, is_open, lock_open_lots, net_qty, net_cost,
}
use construct_fin.Warehouse.Consume.{
  modify, new_movement, consuming, recompute_caches, consume_lots,
}
use construct_fin.Warehouse.Stock.{or_not_found}

abbrev pub or_no_account : Option Party → M Party
or_no_account none = throw no_account
or_no_account (some a) = pure a

-- The first account that is not archived; the accounts stand in the order of their creation.
abbrev pub first_account : ℕ → Db → Option Party
first_account ws db =
    find (λ a. a.workspace == ws && not a.deleted && not a.is_archived) db.accounts

unfoldable pub create_transaction : Transaction → Db → Db
create_transaction t db = record db {
  transactions = record t { id = db.next_id } ∷ db.transactions;
  next_id = suc db.next_id;
}

-- The loss is booked, outside the cash, only where the lots had a cost.
unfoldable pub book_loss : Caller → ℤ → M (Unit {0})
unfolding create_transaction
book_loss c loss db =
    if ltb_ℤ (pos 0) loss
    then (do
      account ← or_no_account (← gets (first_account c.workspace))
      modify (
          create_transaction (record {
            id = 0;
            workspace = c.workspace;
            date = c.now;
            amount = loss;
            kind = TransactionKind.write_off;
            account = account.id;
            counterparty = none;
          })))
        db
    else ok (tt, db)

unfoldable pub record_audit : AuditAction → ℕ → ℤ → ℤ → Db → Db
record_audit action entity q amount db = record db {
  audit = record { action = action; entity = entity; qty = q; amount = amount } ∷ db.audit;
}

-- `tx.stockLot.updateMany`: the open lots that have no cost yet.
unfoldable pub set_lot_costs : ℕ → ℕ → ℤ → Db → Db
set_lot_costs ws item cost db = record db {
  lots =
      map
        (λ l.
          if is_open ws item l && eqb_ℤ l.unit_cost (pos 0)
          then record l { unit_cost = cost }
          else l)
        db.lots;
}

module _ (d : Decimals) where
  unfoldable pub write_off : Caller → ℕ → ℤ → M (Unit {0})
  unfolding book_loss record_audit
  write_off c id q = do
    throw_when (not (ltb_ℤ (pos 0) q)) not_positive
    item ← or_not_found (← lock_for_update c.workspace id)
    lots ← gets (lock_open_lots c.workspace id)
    total ←
        consume_lots d
          (consuming c.workspace id item.qty q MovementType.write_off none RefType.write_off none)
          lots
    book_loss c (money d 5 total)
    modify (record_audit AuditAction.write_off id q (money d 5 total))

  unfoldable pub set_cost : Caller → ℕ → ℤ → M (Unit {0})
  unfolding set_lot_costs
  set_cost c id new_cost = do
    item ← or_not_found (← lock_for_update c.workspace id)
    throw_when (ltb_ℤ (pos 0) item.avg_cost) cost_already_set
    throw_when (not (ltb_ℤ (pos 0) item.qty)) empty_stock
    throw_when (not (ltb_ℤ (pos 0) new_cost)) cost_not_positive
    modify (set_lot_costs c.workspace id new_cost)
    modify (
        record_movement (
          new_movement c.workspace id MovementType.adjustment (pos 0) item.qty (some new_cost)
            (some RefType.cost_init) none))
    modify (recompute_caches d c.workspace id)

  -- `unitCostAtSaleFor`: the cost of an order line by the net ledger of what it consumed.
  unfoldable pub unit_cost_at_sale : ℕ → ℕ → Db → Option ℤ
  unit_cost_at_sale ws line db =
      let q = net_qty ws line db in
      if not (ltb_ℤ (pos 0) q) then none else some (d.quotient (net_cost ws line db) q)
