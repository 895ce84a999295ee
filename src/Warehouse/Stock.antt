-- ===== src/Warehouse/Stock.antt =====
-- apps/api/src/warehouse/warehouse.service.ts: items, stock-taking, write-off and the cost of an
-- opening balance.
use construct_fin.Prelude.{
  ℕ, suc, Bool, true, false, not, ◌&&◌, Option, none, some, [], ◌∷◌, ◌++◌, map, ℤ, pos, neg, ◌-ℤ◌,
  ltb_ℤ, eqb_ℤ, ◌==◌, if◌then◌else◌, find,
}
use construct_fin.Prelude.Result.{ok, err}
use construct_fin.Decimal.{Decimals}
use construct_fin.Warehouse.State.{
  Item, LotSource, MovementType, RefType, Party, Db, Caller, item_not_found, supplier_not_found,
  cost_required, stock_left, M, ◌>>=◌, ◌>>◌, pure, throw, throw_when, gets,
}
use construct_fin.Warehouse.Repository.{
  find_by_id, lock_for_update, record_movement, create_lot, lock_open_lots, lot_qty,
}
use construct_fin.Warehouse.Consume.{
  modify, new_lot, new_movement, consuming, recompute_caches, consume_lots,
}

-- `if (!item) throw new NotFoundException`
abbrev pub or_not_found : Option Item → M Item
or_not_found none = throw item_not_found
or_not_found (some i) = pure i

abbrev pub is_active : ℕ → ℕ → Party → Bool
is_active ws id p = p.id == id && p.workspace == ws && not p.deleted

-- `assertSupplier`: a supplier that is named must be one of the workspace.
unfoldable pub assert_supplier : ℕ → Option ℕ → M (Unit {0})
assert_supplier ws none db = ok (tt, db)
assert_supplier ws (some id) db = elim (find (is_active ws id) db.suppliers) [
  | none ↦ err supplier_not_found
  | some p ↦ ok (tt, db)
]

-- What an update leaves out stays; a supplier is set, or taken off with `some none`.
abbrev pub or_kept : {A : Type 0} → Option A → A → A
or_kept none kept = kept
or_kept (some a) kept = a

-- `update`: an item with stock is not archived.
unfoldable pub update : Caller → ℕ → Option Bool → Option (Option ℕ) → M (Unit {0})
update c id archived supplier = do
  item ← or_not_found (← gets (find_by_id c.workspace id))
  throw_when (or_kept archived false && (not item.is_archived && ltb_ℤ (pos 0) item.qty))
      (stock_left item.qty)
  assert_supplier c.workspace (or_kept supplier none)
  modify (λ db. record db {
    items =
        map
          (λ i.
            if i.id == id
            then record i {
              is_archived = or_kept archived i.is_archived;
              default_supplier = or_kept supplier i.default_supplier;
            }
            else i)
          db.items;
  })

-- `remove`: a soft delete, of an item without stock.
unfoldable pub remove : Caller → ℕ → M (Unit {0})
remove c id = do
  item ← or_not_found (← gets (find_by_id c.workspace id))
  throw_when (ltb_ℤ (pos 0) item.qty) (stock_left item.qty)
  modify (λ db. record db {
    items = map (λ i. if i.id == id then record i { deleted = true } else i) db.items;
  })

-- `openingLot`
unfoldable pub opening_lot : Caller → ℕ → ℤ → ℤ → Db → Db
opening_lot c item q cost db =
    record_movement
      (new_movement c.workspace item MovementType.opening q q (some cost) (some RefType.opening)
        none)
      (create_lot (new_lot c.workspace item q cost LotSource.opening c.now) db)

unfoldable pub create_item : Caller → Option ℕ → Db → Db
create_item c supplier db = record db {
  items =
      db.items
      ++ record {
        id = db.next_id;
        workspace = c.workspace;
        qty = pos 0;
        avg_cost = pos 0;
        default_supplier = supplier;
        is_archived = false;
        deleted = false;
      }
        ∷ [];
  next_id = suc db.next_id;
}

module _ (d : Decimals) where
  -- `create`, with the opening balance and its cost already read from the input (0 if left out).
  unfoldable pub create : Caller → Option ℕ → ℤ → ℤ → M ℕ
  unfolding create_item
  create c supplier opening_qty opening_cost = do
    assert_supplier c.workspace supplier
    id ← gets (λ db. db.next_id)
    modify (create_item c supplier)
    modify (λ db.
        if ltb_ℤ (pos 0) opening_qty
        then recompute_caches d c.workspace id (opening_lot c id opening_qty opening_cost db)
        else db)
    pure id

  -- The surplus of a stock-taking becomes a lot of its own.
  unfoldable pub add_surplus : Caller → ℕ → ℤ → ℤ → ℤ → Db → Db
  add_surplus c id delta new_qty cost db = recompute_caches d c.workspace id (
      record_movement
        (new_movement c.workspace id MovementType.adjustment delta new_qty (some cost)
          (some RefType.adjust) none)
        (create_lot (new_lot c.workspace id delta cost LotSource.adjustment c.now) db))

  -- The cost of a surplus: as given, or the average of the open lots, or none.
  unfoldable pub surplus_cost : Caller → ℕ → Item → Option ℤ → Db → Option ℤ
  surplus_cost c id item (some cost) db = some cost
  surplus_cost c id item none db =
      if ltb_ℤ (pos 0) (lot_qty c.workspace id db) then some item.avg_cost else none

  abbrev pub or_cost_required : Option ℤ → M ℤ
  or_cost_required none = throw cost_required
  or_cost_required (some v) = pure v

  unfoldable pub adjust_item : Caller → ℕ → Item → ℤ → Option ℤ → M (Unit {0})
  adjust_item c id item new_qty cost db =
      let delta = new_qty -ℤ item.qty in
      if eqb_ℤ delta (pos 0)
      then ok (tt, db)
      else if ltb_ℤ delta (pos 0)
      then (do
        consume_lots d
            (consuming c.workspace id item.qty (neg delta) MovementType.adjustment none
              RefType.adjust none)
            (lock_open_lots c.workspace id db)
        pure tt)
          db
      else (do
        price ← or_cost_required (surplus_cost c id item cost db)
        modify (add_surplus c id delta new_qty price))
          db

  unfoldable pub adjust : Caller → ℕ → ℤ → Option ℤ → M (Unit {0})
  unfolding adjust_item
  adjust c id new_qty cost = do
    item ← or_not_found (← lock_for_update c.workspace id)
    adjust_item c id item new_qty cost
