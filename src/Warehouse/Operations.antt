-- ===== src/Warehouse/Operations.antt =====
-- The operations of the warehouse keep it in balance, and move the stock of one item by a known amount
-- (apps/api/src/warehouse/warehouse.service.ts).

use construct_fin.Prelude.{ℕ, not, Option, none, ℤ, pos, neg, ltb_ℤ}
use construct_fin.Prelude.Result.{ok}
use construct_fin.Decimal.{Decimals, money}
use construct_fin.Warehouse.State.{
  MovementType, RefType, AuditAction, Db, Caller, not_positive, ◌>>◌, pure,
}
use construct_fin.Warehouse.Repository.{lock_open_lots}
use construct_fin.Warehouse.Consume.{modify, consuming, consume_lots}
use mathlib.Core.Path.{subst}
use construct_fin.Prelude.{◌≤◌, ◌≡◌, inl, inr, arith, Bool-cases, Option-cases}
use construct_fin.Warehouse.State.{bind-ok}
use construct_fin.Warehouse.Valuation.{
  first_account, write_off, book_loss, record_audit, create_transaction,
}
use construct_fin.Warehouse.Trade.{decrement_for_sale}
use construct_fin.Warehouse.OpenLots.{lock_open_lots-DistinctOpen, lock_open_lots-Backs}
use construct_fin.Warehouse.Balance.{IsBalanced}
use construct_fin.Warehouse.Keeps.{Moves, beside, consume-Moves, locked, guarded}

module _ (d : Decimals) (c : Caller) (id : ℕ) (q : ℤ) (a : Db) where
  -- On a warehouse in balance, a sale that goes through takes its quantity from the item, moves no
  -- other item, and leaves the warehouse in balance.
  pub decrement_for_sale-Moves :
      (order line : Option ℕ) (r : ℤ × ℤ) (b : Db)
      → IsBalanced a
      → decrement_for_sale d c id q order line a ≡ ok (r, b)
      → Moves c.workspace id (neg q) a b
  unfolding decrement_for_sale
  decrement_for_sale-Moves order line r b v e =
      let (it, found, go) = locked c.workspace id _ a (r, b) e in
      let c' = consuming c.workspace id it.qty q MovementType.sale line RefType.order order in
      let os = lock_open_lots c.workspace id a in
      let (total, mid, spent, done) =
        bind-ok (consume_lots d c' os) (λ (t : ℤ). pure (q, t)) {db = a} go in
      let m =
        consume-Moves d c' os a total mid v found
          (lock_open_lots-DistinctOpen c.workspace id a v.store.distinct)
          (lock_open_lots-Backs c.workspace id a v.store.distinct) spent in
      subst (Moves c.workspace id (neg q) a) (cc) m

-- Booking the loss leaves the stock alone.
book_loss_rest :
    (c : Caller) (loss : ℤ) (a b : Db) {u : Unit {0}}
    → book_loss c loss a ≡ ok (u, b)
    → (b.items ≡ a.items)
      × (b.lots ≡ a.lots)
      × (b.movements ≡ a.movements)
      × (a.next_id ≤ b.next_id)
unfolding book_loss create_transaction
book_loss_rest c loss a b e = elim (Bool-cases (ltb_ℤ (pos 0) loss)) [
  | inl some_loss ↦ elim (Option-cases (first_account c.workspace a)) [
    | inl missing ↦ absurd (ground (arith, some_loss, missing, e))
    | inr (acc, found) ↦ (
      ground (arith, some_loss, found, e),
      ground (arith, some_loss, found, e),
      ground (arith, some_loss, found, e),
      ground (arith, some_loss, found, e),
    )
  ]
  | inr no_loss ↦ (
    ground (arith, no_loss, e),
    ground (arith, no_loss, e),
    ground (arith, no_loss, e),
    ground (arith, no_loss, e),
  )
]

-- So does the booking with its entry in the audit.
loss_rest :
    (c : Caller) (id : ℕ) (q loss : ℤ) (a b : Db) {u : Unit {0}}
    → (book_loss c loss >> modify (record_audit AuditAction.write_off id q loss)) a ≡ ok (u, b)
    → (b.items ≡ a.items)
      × (b.lots ≡ a.lots)
      × (b.movements ≡ a.movements)
      × (a.next_id ≤ b.next_id)
unfolding record_audit
loss_rest c id q loss a b e =
    let (u, mid, booked, audit) =
      bind-ok (book_loss c loss) (λ _. modify (record_audit AuditAction.write_off id q loss))
        {db = a} e in
    let (ei, el, em, en) = book_loss_rest c loss a mid booked in
    (
      ground (arith, ei, audit),
      ground (arith, el, audit),
      ground (arith, em, audit),
      ground (arith, en, audit),
    )

module _ (d : Decimals) (c : Caller) (id : ℕ) (q : ℤ) (a : Db) where
  -- On a warehouse in balance, a write-off that goes through takes its quantity from the item, moves no
  -- other item, and leaves the warehouse in balance.
  pub write_off-Moves :
      (r : Unit {0}) (b : Db)
      → IsBalanced a
      → write_off d c id q a ≡ ok (r, b)
      → Moves c.workspace id (neg q) a b
  unfolding write_off record_audit
  write_off-Moves r b v e =
      let (positive, go) = guarded (not (ltb_ℤ (pos 0) q)) not_positive _ e in
      let (it, found, run) = locked c.workspace id _ a (r, b) go in
      let c' =
        consuming c.workspace id it.qty q MovementType.write_off none RefType.write_off none in
      let os = lock_open_lots c.workspace id a in
      let (total, mid, spent, more) =
        bind-ok (consume_lots d c' os)
          (λ t.
            book_loss c (money d 5 t)
            >> modify (record_audit AuditAction.write_off id q (money d 5 t)))
          {db = a} run in
      let m =
        consume-Moves d c' os a total mid v found
          (lock_open_lots-DistinctOpen c.workspace id a v.store.distinct)
          (lock_open_lots-Backs c.workspace id a v.store.distinct) spent in
      let (ei, el, em, en) = loss_rest c id q (money d 5 total) mid b more in
      beside c.workspace id (neg q) a mid b m ei el em en
