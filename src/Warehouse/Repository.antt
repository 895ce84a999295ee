-- ===== src/Warehouse/Repository.antt =====
-- apps/api/src/warehouse/warehouse.repository.ts: the reads and writes of the tables.
use construct_fin.Prelude.{
  ℕ, suc, Bool, true, false, not, ◌&&◌, Option, none, some, List, [], ◌∷◌, ◌++◌, map, ℤ, pos, neg,
  ◌-ℤ◌, ◌*ℤ◌, ltb_ℤ, leb_ℤ, ◌==◌, if◌then◌else◌, keep, find, sum_by,
}
use construct_fin.Fifo.{OpenLot, ReversibleConsumption}
use construct_fin.Warehouse.State.{
  Item, Lot, Movement, Consumption, ConsumptionKind, consume, reversal, Db, M, gets,
}

-- `===` of a column that may be null with a key.
abbrev pub is_key : Option ℕ → ℕ → Bool
is_key none k = false
is_key (some j) k = j == k

abbrev pub is_live : ℕ → ℕ → Item → Bool
is_live ws id i = i.id == id && i.workspace == ws && not i.deleted

unfoldable pub find_by_id : ℕ → ℕ → Db → Option Item
find_by_id ws id db = find (is_live ws id) db.items

-- `lockForUpdate`: inside one transaction the lock is that read.
unfoldable pub lock_for_update : ℕ → ℕ → M (Option Item)
unfolding find_by_id
lock_for_update ws id = gets (find_by_id ws id)

-- `update` of the two cached columns.
unfoldable pub update_cache : ℕ → ℤ → ℤ → Db → Db
update_cache id q avg db = record db {
  items = map (λ i. if i.id == id then record i { qty = q; avg_cost = avg } else i) db.items;
}

unfoldable pub record_movement : Movement → Db → Db
record_movement m db = record db {
  movements = record m { id = db.next_id } ∷ db.movements;
  next_id = suc db.next_id;
}

unfoldable pub create_lot : Lot → Db → Db
create_lot l db = record db {
  lots = db.lots ++ record l { id = db.next_id } ∷ [];
  next_id = suc db.next_id;
}

unfoldable pub update_lot_remaining : ℕ → ℤ → Db → Db
update_lot_remaining id q db = record db {
  lots = map (λ l. if l.id == id then record l { qty_remaining = q } else l) db.lots;
}

unfoldable pub record_consumption : Consumption → Db → Db
record_consumption c db = record db {
  consumptions = record c { id = db.next_id } ∷ db.consumptions;
  next_id = suc db.next_id;
}

abbrev pub is_open : ℕ → ℕ → Lot → Bool
is_open ws item l =
    l.workspace == ws && l.item == item && ltb_ℤ (pos 0) l.qty_remaining && not l.deleted

-- ORDER BY receivedAt, seq: the rows stand by seq, and equal dates keep their order.
unfoldable pub insert_lot : Lot → List Lot → List Lot
insert_lot l [] = l ∷ []
insert_lot l (m ∷ ms) =
    if leb_ℤ l.received_at m.received_at then l ∷ m ∷ ms else m ∷ insert_lot l ms

unfoldable pub by_received : List Lot → List Lot
unfolding insert_lot
by_received [] = []
by_received (l ∷ ls) = insert_lot l (by_received ls)

abbrev pub to_open : Lot → OpenLot
to_open l = record {
  id = l.id;
  qty_remaining = l.qty_remaining;
  unit_cost = l.unit_cost;
  supplier = l.supplier;
}

unfoldable pub lock_open_lots : ℕ → ℕ → Db → List OpenLot
unfolding by_received
lock_open_lots ws item db = map to_open (by_received (keep (is_open ws item) db.lots))

-- `lotAggregates`: the sum of the remainders, and of the remainders at their costs.
unfoldable pub lot_qty : ℕ → ℕ → Db → ℤ
lot_qty ws item db = sum_by (λ l. l.qty_remaining) (keep (is_open ws item) db.lots)

unfoldable pub lot_value : ℕ → ℕ → Db → ℤ
lot_value ws item db = sum_by (λ l. l.qty_remaining *ℤ l.unit_cost) (keep (is_open ws item) db.lots)

abbrev pub is_of_line : ℕ → ℕ → Consumption → Bool
is_of_line ws line c = c.workspace == ws && is_key c.order_item line

-- `netConsumedForOrderItem`.
unfoldable pub net_qty : ℕ → ℕ → Db → ℤ
net_qty ws line db = sum_by (λ c. c.qty) (keep (is_of_line ws line) db.consumptions)

unfoldable pub net_cost : ℕ → ℕ → Db → ℤ
net_cost ws line db = sum_by (λ c. c.qty *ℤ c.unit_cost) (keep (is_of_line ws line) db.consumptions)

abbrev pub is_consume : ConsumptionKind → Bool
is_consume consume = true
is_consume reversal = false

abbrev pub reverses : ℕ → Consumption → Bool
reverses id r = is_key r.reversal_of id && not (is_consume r.kind)

-- What is left to reverse of a CONSUME row.
unfoldable pub remaining_of : Db → Consumption → ℤ
remaining_of db c = c.qty -ℤ sum_by (λ r. neg r.qty) (keep (reverses c.id) db.consumptions)

-- `reversibleConsumptionsForOrderItem`. The rows stand from the newest to the oldest: keys grow with time,
-- and within a transaction, whose rows share `createdAt`, the order is that of the keys.
unfoldable pub reversible_consumptions : ℕ → ℕ → Db → List ReversibleConsumption
unfolding remaining_of
reversible_consumptions ws line db =
    keep (λ c. ltb_ℤ (pos 0) c.remaining)
      (map
        (λ c. record {
          id = c.id;
          lot_id = c.lot;
          remaining = remaining_of db c;
          unit_cost = c.unit_cost;
        })
        (keep (λ c. is_of_line ws line c && is_consume c.kind) db.consumptions))
