-- ===== src/Warehouse/Consume.antt =====
-- apps/api/src/warehouse/warehouse.service.ts: the FIFO primitives that every operation is made of.
use construct_fin.Prelude.{
  ℕ, false, not, Option, none, some, List, [], ◌∷◌, ℤ, pos, neg, ◌-ℤ◌, ltb_ℤ, ◌==◌, if◌then◌else◌,
}
use construct_fin.Prelude.Result.{ok, err}
use construct_fin.Decimal.{Decimals}
use construct_fin.Fifo.{
  OpenLot, ConsumeStep, FifoError, consume_plan, insufficient_stock as fifo_stock,
  not_positive as fifo_not_positive, insufficient_reversible as fifo_reversible,
}
use construct_fin.Warehouse.State.{
  Lot, LotSource, Movement, MovementType, consume, RefType, Db, WarehouseError, insufficient_stock,
  insufficient_reversible, not_positive, M,
}
use construct_fin.Warehouse.Repository.{
  update_cache, record_movement, update_lot_remaining, record_consumption, lot_qty, lot_value,
}

abbrev pub modify : (Db → Db) → M (Unit {0})
modify f db = ok (tt, f db)

-- A lot and a movement as they are handed to the repository, which gives them their keys.
abbrev pub new_lot : ℕ → ℕ → ℤ → ℤ → LotSource → ℤ → Lot
new_lot ws item q cost source at = record {
  id = 0;
  workspace = ws;
  item = item;
  qty_initial = q;
  qty_remaining = q;
  unit_cost = cost;
  source = source;
  source_id = none;
  purchase_line = none;
  supplier = none;
  account = none;
  received_at = at;
  deleted = false;
}

abbrev pub new_movement :
    ℕ → ℕ → MovementType → ℤ → ℤ → Option ℤ → Option RefType → Option ℕ → Movement
new_movement ws item kind delta after cost ref ref_id = record {
  id = 0;
  workspace = ws;
  item = item;
  kind = kind;
  qty_delta = delta;
  qty_after = after;
  unit_cost = cost;
  ref_type = ref;
  ref_id = ref_id;
}

module _ (d : Decimals) where
  -- `weightedUnitCost` of common/fifo.ts.
  unfoldable pub weighted_unit_cost : ℤ → ℤ → ℤ
  weighted_unit_cost total q = if not (ltb_ℤ (pos 0) q) then pos 0 else d.quotient total q

  unfoldable pub recompute_caches : ℕ → ℕ → Db → Db
  recompute_caches ws item db =
      let q = lot_qty ws item db in
      let avg = if ltb_ℤ (pos 0) q then d.quotient (lot_value ws item db) q else pos 0 in
      update_cache item q avg db

-- `remainingById`: a Map from a lot's key to what remains of it.
abbrev pub Remaining : Type 0
Remaining = ℕ → Option ℤ

unfoldable pub put : ℕ → ℤ → Remaining → Remaining
put k v m j = if j == k then some v else m j

unfoldable pub remaining_by_id : List OpenLot → Remaining → Remaining
unfolding put
remaining_by_id [] m = m
remaining_by_id (l ∷ ls) m = remaining_by_id ls (put l.id l.qty_remaining m)

abbrev pub or_zero : Option ℤ → ℤ
or_zero none = pos 0
or_zero (some v) = v

-- What one call of `consumeLots` is told beside the lots.
pub record Consuming : Type 0 where
  pub workspace : ℕ
  pub item : ℕ
  pub cached_qty : ℤ
  pub consume_qty : ℤ
  pub kind : MovementType
  pub order_item : Option ℕ
  pub ref_type : Option RefType
  pub ref_id : Option ℕ

abbrev pub consuming : ℕ → ℕ → ℤ → ℤ → MovementType → Option ℕ → RefType → Option ℕ → Consuming
consuming ws id cached q kind line ref ref_id = record {
  workspace = ws;
  item = id;
  cached_qty = cached;
  consume_qty = q;
  kind = kind;
  order_item = line;
  ref_type = some ref;
  ref_id = ref_id;
}

-- The loop over the steps of the plan.
unfoldable pub consume_steps : Consuming → ℕ → List ConsumeStep → Remaining → Db → Db
consume_steps c movement [] m db = db
consume_steps c movement (s ∷ steps) m db =
    let after = or_zero (m s.lot_id) -ℤ s.qty in
    consume_steps c movement steps (put s.lot_id after m) (
      record_consumption
        (record {
          id = 0;
          workspace = c.workspace;
          lot = s.lot_id;
          movement = movement;
          order_item = c.order_item;
          qty = s.qty;
          unit_cost = s.unit_cost;
          kind = consume;
          reversal_of = none;
        })
        (update_lot_remaining s.lot_id after db))

abbrev pub of_fifo : FifoError → WarehouseError
of_fifo fifo_not_positive = not_positive
of_fifo (fifo_stock a r) = insufficient_stock a r
of_fifo (fifo_reversible a r) = insufficient_reversible a r

module _ (d : Decimals) where
  unfoldable pub consume_lots : Consuming → List OpenLot → M ℤ
  consume_lots c lots db = elim (consume_plan lots c.consume_qty) [
    | err e ↦ err (of_fifo e)
    | ok plan ↦
        let moved =
          record_movement
            (new_movement c.workspace c.item c.kind (neg c.consume_qty)
              (c.cached_qty -ℤ c.consume_qty)
              (some (weighted_unit_cost d plan.total_cost c.consume_qty)) c.ref_type c.ref_id)
            db in
        let out = consume_steps c db.next_id plan.steps (remaining_by_id lots (λ k. none)) moved in
        ok (plan.total_cost, recompute_caches d c.workspace c.item out)
  ]
