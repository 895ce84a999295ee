-- ===== src/Warehouse/Trade.antt =====
-- apps/api/src/warehouse/warehouse.service.ts: what purchases and orders do to the stock. All run
-- inside the caller's transaction.
use construct_fin.Prelude.{
  ℕ, Bool, true, false, Option, none, some, List, [], ◌∷◌, ℤ, neg, ◌+ℤ◌, ◌==◌, find,
}
use construct_fin.Prelude.Result.{ok, err}
use construct_fin.Decimal.{Decimals}
use construct_fin.Fifo.{ReverseStep, ReversibleConsumption, reverse_plan}
use construct_fin.Warehouse.State.{
  Lot, Item, LotSource, MovementType, reversal, RefType, Db, Caller, no_consumptions, M, ◌>>=◌,
  ◌>>◌, pure, throw, throw_when, gets,
}
use construct_fin.Warehouse.Repository.{
  find_by_id, lock_for_update, record_movement, create_lot, lock_open_lots, update_lot_remaining,
  record_consumption, reversible_consumptions,
}
use construct_fin.Warehouse.Consume.{
  modify, new_lot, new_movement, consuming, recompute_caches, consume_lots, weighted_unit_cost,
  Remaining, put, or_zero, of_fifo,
}
use construct_fin.Warehouse.Stock.{or_not_found}

-- Where a purchased lot comes from.
pub record LotMeta : Type 0 where
  pub supplier : Option ℕ
  pub account : Option ℕ
  pub purchase_line : Option ℕ
  pub received_at : Option ℤ

abbrev pub or_now : Caller → Option ℤ → ℤ
or_now c none = c.now
or_now c (some t) = t

module _ (d : Decimals) where
  unfoldable pub apply_purchase_line : Caller → ℕ → ℤ → ℤ → Option ℕ → LotMeta → M (Unit {0})
  apply_purchase_line c id q price ref_id meta = do
    item ← or_not_found (← lock_for_update c.workspace id)
    modify (
        create_lot
          (record (new_lot c.workspace id q price LotSource.purchase (or_now c meta.received_at)) {
            source_id = ref_id;
            purchase_line = meta.purchase_line;
            supplier = meta.supplier;
            account = meta.account;
          }))
    modify (
        record_movement (
          new_movement c.workspace id MovementType.purchase q (item.qty +ℤ q) (some price)
            (some RefType.purchase) ref_id))
    modify (recompute_caches d c.workspace id)

  unfoldable pub decrement_for_sale : Caller → ℕ → ℤ → Option ℕ → Option ℕ → M (ℤ × ℤ)
  decrement_for_sale c id q order order_item = do
    item ← or_not_found (← lock_for_update c.workspace id)
    lots ← gets (lock_open_lots c.workspace id)
    total ←
        consume_lots d
          (consuming c.workspace id item.qty q MovementType.sale order_item RefType.order order)
          lots
    pure (q, total)

-- The remainders that `findMany` reads: those of the lots of the steps.
abbrev pub left_in : Option Lot → Option ℤ
left_in none = none
left_in (some l) = some l.qty_remaining

abbrev pub lot_remaining : Db → Remaining
lot_remaining db k = left_in (find (λ l. l.id == k) db.lots)

-- The loop of `reverseConsumption` over the steps of the plan.
unfoldable pub reverse_steps : ℕ → ℕ → ℕ → List ReverseStep → Remaining → Db → Db
reverse_steps ws order_item movement [] m db = db
reverse_steps ws order_item movement (s ∷ steps) m db =
    let after = or_zero (m s.lot_id) +ℤ s.qty in
    reverse_steps ws order_item movement steps (put s.lot_id after m) (
      record_consumption
        (record {
          id = 0;
          workspace = ws;
          lot = s.lot_id;
          movement = movement;
          order_item = some order_item;
          qty = neg s.qty;
          unit_cost = s.unit_cost;
          kind = reversal;
          reversal_of = some s.consumption_id;
        })
        (update_lot_remaining s.lot_id after db))

abbrev pub or_no_consumptions : Option Item → M Item
or_no_consumptions none = throw no_consumptions
or_no_consumptions (some i) = pure i

abbrev pub is_nil : {A : Type 0} → List A → Bool
is_nil [] = true
is_nil (x ∷ xs) = false

module _ (d : Decimals) where
  -- The part of `reverseConsumption` behind its guards.
  unfoldable pub reverse_lots :
      Caller → Item → ℕ → ℤ → Option ℕ → List ReversibleConsumption → M (ℤ × ℤ)
  unfolding reverse_steps
  reverse_lots c item order_item q order cs db = elim (reverse_plan cs q) [
    | err e ↦ err (of_fifo e)
    | ok plan ↦
        let moved =
          record_movement
            (new_movement c.workspace item.id MovementType.return_customer q (item.qty +ℤ q)
              (some (weighted_unit_cost d plan.total_cost q)) (some RefType.order) order)
            db in
        let out =
          reverse_steps c.workspace order_item db.next_id plan.steps (lot_remaining db) moved in
        ok ((q, plan.total_cost), recompute_caches d c.workspace item.id out)
  ]

  unfoldable pub reverse_consumption : Caller → ℕ → ℕ → ℤ → Option ℕ → M (ℤ × ℤ)
  unfolding reverse_lots
  reverse_consumption c id order_item q order = do
    item ← or_no_consumptions (← lock_for_update c.workspace id)
    cs ← gets (reversible_consumptions c.workspace order_item)
    throw_when (is_nil cs) no_consumptions
    reverse_lots c item order_item q order cs

  abbrev pub or_average : Item → Option ℤ → ℤ
  or_average item none = item.avg_cost
  or_average item (some v) = v

  -- A return with no ledger: a new lot, or only a movement where the item is gone.
  unfoldable pub restock : Caller → ℕ → ℤ → Option ℕ → Option ℤ → Db → Db
  restock c id q order cost db = elim (find_by_id c.workspace id db) [
    | none ↦
        record_movement
          (new_movement c.workspace id MovementType.return_customer q q none (some RefType.order)
            order)
          db
    | some item ↦
        let price = or_average item cost in
        recompute_caches d c.workspace id (
          record_movement
            (new_movement c.workspace id MovementType.return_customer q (item.qty +ℤ q) (some price)
              (some RefType.order) order)
            (create_lot
              (record (new_lot c.workspace id q price LotSource.return_customer c.now) {
                source_id = order;
              })
              db))
  ]
