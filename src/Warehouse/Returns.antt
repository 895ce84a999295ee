-- ===== src/Warehouse/Returns.antt =====
-- apps/api/src/warehouse/warehouse.service.ts: undoing a purchase or a receipt, and the return of
-- goods to the supplier.
use construct_fin.Prelude.{
  ℕ, Bool, true, false, not, ◌&&◌, Option, none, some, List, [], ◌∷◌, ◌++◌, map, ℤ, pos, neg, ltb_ℤ,
  eqb_ℤ, ◌==◌, if◌then◌else◌, find, keep, sum_by, has, every, any,
}
use construct_fin.Prelude.Result.{ok, err}
use construct_fin.Decimal.{Decimals, money}
use construct_fin.Fifo.{OpenLot}
use construct_fin.Warehouse.State.{
  Item, Lot, MovementType, RefType, TransactionKind, AuditAction, Db, Caller, account_not_found,
  not_positive, in_the_future, insufficient_stock, lot_consumed, lot_changed, M, ◌>>=◌, ◌>>◌,
  throw_when, gets,
}
use construct_fin.Warehouse.Repository.{
  find_by_id, lock_for_update, record_movement, is_key, lock_open_lots,
}
use construct_fin.Warehouse.Trade.{or_now}
use construct_fin.Warehouse.Consume.{
  modify, new_movement, consuming, recompute_caches, consume_lots,
}
use construct_fin.Warehouse.Stock.{or_not_found, is_active, assert_supplier}
use construct_fin.Warehouse.Valuation.{create_transaction, record_audit}

-- `lotWhere`: the lots of some purchase lines, or of some sources.
pub data LotFilter : Type 0 where
  lines sources : List ℕ → LotFilter

abbrev pub is_key_of : Option ℕ → List ℕ → Bool
is_key_of none ks = false
is_key_of (some k) ks = has k ks

abbrev pub fits : LotFilter → Lot → Bool
fits (lines ks) l = is_key_of l.purchase_line ks
fits (sources ks) l = is_key_of l.source_id ks

unfoldable pub lots_to_void : ℕ → LotFilter → Db → List Lot
lots_to_void ws f db = keep (λ l. l.workspace == ws && not l.deleted && fits f l) db.lots

-- The lots of the list are deleted, softly.
unfoldable pub delete_lots : ℕ → List ℕ → Db → Db
delete_lots ws ids db = record db {
  lots =
      map (λ l. if has l.id ids && l.workspace == ws then record l { deleted = true } else l)
        db.lots;
}

abbrev pub qty_of : Option Item → ℤ
qty_of none = pos 0
qty_of (some i) = i.qty

module _ (d : Decimals) where
  -- The reversal movement and the caches, item by item.
  unfoldable pub void_items : Caller → RefType → List Lot → List ℕ → Db → Db
  void_items c ref lots [] db = db
  void_items c ref lots (id ∷ ids) db =
      let removed = sum_by (λ l. l.qty_initial) (keep (λ l. l.item == id) lots) in
      let fresh = recompute_caches d c.workspace id db in
      void_items c ref lots ids (
        record_movement
          (new_movement c.workspace id MovementType.adjustment (neg removed)
            (qty_of (find_by_id c.workspace id fresh)) none (some ref) none)
          fresh)

  -- `voidUntouchedLots`: only lots from which nothing was ever taken can go. With no lot at all
  -- there is nothing to check, and the items still get their movement.
  unfoldable pub void_untouched_lots : Caller → LotFilter → List ℕ → RefType → M (Unit {0})
  unfolding void_items delete_lots lots_to_void
  void_untouched_lots c f items ref = do
    lots ← gets (lots_to_void c.workspace f)
    consumed ← gets (λ db.
        any (λ k. k.workspace == c.workspace && has k.lot (map (λ l. l.id) lots)) db.consumptions)
    throw_when consumed lot_consumed
    throw_when (not (every (λ l. eqb_ℤ l.qty_remaining l.qty_initial) lots)) lot_changed
    modify (delete_lots c.workspace (map (λ l. l.id) lots))
    modify (void_items c ref lots items)

-- The lots of the supplier first, then the others, both in FIFO order.
unfoldable pub supplier_first : Option ℕ → List OpenLot → List OpenLot
supplier_first none lots = lots
supplier_first (some s) lots =
    keep (λ l. is_key l.supplier s) lots ++ keep (λ l. not (is_key l.supplier s)) lots

abbrev pub or_default : Option ℕ → Item → Option ℕ
or_default none item = item.default_supplier
or_default (some s) item = some s

unfoldable pub assert_account : ℕ → ℕ → M (Unit {0})
assert_account ws id db = elim (find (is_active ws id) db.accounts) [
  | none ↦ err account_not_found
  | some a ↦ ok (tt, db)
]

module _ (d : Decimals) where
  -- The part of `supplierReturn` behind its guards: the refund is booked, then the lots are consumed.
  unfoldable pub give_back : Caller → Item → ℕ → ℤ → ℤ → ℕ → Option ℕ → Option ℤ → M (Unit {0})
  unfolding supplier_first
  give_back c item id q refund account supplier date = do
    ref ← gets (λ db. db.next_id)
    modify (
        create_transaction (record {
          id = 0;
          workspace = c.workspace;
          date = or_now c date;
          amount = money d 0 refund;
          kind = TransactionKind.supplier_refund;
          account = account;
          counterparty = or_default supplier item;
        }))
    lots ← gets (lock_open_lots c.workspace id)
    consume_lots d
        (consuming c.workspace id item.qty q MovementType.return_supplier none RefType.transaction
          (some ref))
        (supplier_first supplier lots)
    modify (record_audit AuditAction.supplier_return id q (money d 0 refund))

  -- `supplierReturn`; `end_of_day` is the end of the business day of the call.
  unfoldable pub supplier_return : Caller → ℤ → ℕ → ℤ → ℤ → ℕ → Option ℕ → Option ℤ → M (Unit {0})
  unfolding assert_account give_back
  supplier_return c end_of_day id q refund account supplier date = do
    item ← or_not_found (← lock_for_update c.workspace id)
    assert_account c.workspace account
    assert_supplier c.workspace supplier
    throw_when (not (ltb_ℤ (pos 0) q)) not_positive
    throw_when (ltb_ℤ end_of_day (or_now c date)) in_the_future
    throw_when (ltb_ℤ item.qty q) (insufficient_stock item.qty q)
    give_back c item id q refund account supplier date
