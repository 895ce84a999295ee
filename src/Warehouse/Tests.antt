-- ===== src/Warehouse/Tests.antt =====
-- A small warehouse, and the theorems about the operations at work on it.
use construct_fin.Prelude.{
  ℕ, ◌≡◌, ◌≢◌, refl, false, none, some, [], ◌∷◌, arith, pos, ◌+ℤ◌, ◌-ℤ◌, ◌*ℤ◌,
}
use construct_fin.Prelude.Result.{Result, ok, err}
use construct_fin.Decimal.{money}
use construct_fin.Decimal.Tests.{plain}
use construct_fin.Fifo.{consume_plan}
use construct_fin.Warehouse.State.{
  Item, Lot, LotSource, Movement, MovementType, Party, Db, Caller, WarehouseError,
  insufficient_stock,
}
use construct_fin.Warehouse.Repository.{
  find_by_id, lock_for_update, update_cache, record_movement, update_lot_remaining,
  record_consumption, lock_open_lots, lot_qty,
}
use construct_fin.Warehouse.Consume.{recompute_caches, consume_steps, consume_lots}
use construct_fin.Warehouse.Stock.{assert_supplier, surplus_cost, adjust_item, adjust}
use construct_fin.Warehouse.Valuation.{create_transaction, book_loss, write_off}
use construct_fin.Warehouse.Trade.{LotMeta, apply_purchase_line, decrement_for_sale, restock}
use construct_fin.Warehouse.Returns.{supplier_first, assert_account, give_back, supplier_return}
use construct_fin.Warehouse.Balance.{IsBalanced}
use construct_fin.Warehouse.Keeps.{Moves}
use construct_fin.Warehouse.Receipts.{apply_purchase_line-Moves, restock-Moves, adjust-Moves}
use construct_fin.Prelude.{All}
use construct_fin.Warehouse.State.{ConsumptionKind}
use construct_fin.Warehouse.Repository.{reversible_consumptions, remaining_of}
use construct_fin.Warehouse.Trade.{reverse_consumption}
use construct_fin.Warehouse.Restored.{Stands}
use construct_fin.Warehouse.Reversals.{GivenBack, reverse_consumption_outcome}
use construct_fin.Warehouse.Losses.{WrittenOff, write_off_outcome}
use construct_fin.Warehouse.SupplierReturns.{GivenUp, supplier_return_outcome}
use construct_fin.Warehouse.Sales.{Sold, decrement_for_sale_outcome}

abbrev lot : ℕ → ℕ → ℕ → ℕ → Lot
lot id q cost supplier = record {
  id = id;
  workspace = 7;
  item = 1;
  qty_initial = pos q;
  qty_remaining = pos q;
  unit_cost = pos cost;
  source = LotSource.purchase;
  source_id = none;
  purchase_line = none;
  supplier = some supplier;
  account = none;
  received_at = pos id;
  deleted = false;
}

abbrev moved_in : ℕ → ℕ → Movement
moved_in id q = record {
  id = id;
  workspace = 7;
  item = 1;
  kind = MovementType.purchase;
  qty_delta = pos q;
  qty_after = pos q;
  unit_cost = none;
  ref_type = none;
  ref_id = none;
}

abbrev pub party : ℕ → Party
party id = record { id = id; workspace = 7; is_archived = false; deleted = false }

abbrev keyboard : Item
keyboard = record {
  id = 1;
  workspace = 7;
  qty = pos 3000;
  avg_cost = pos 0;
  default_supplier = none;
  is_archived = false;
  deleted = false;
}

-- Two lots of one item: 2 pieces at 5 roubles, and 1 piece at 9.
abbrev pub shop : Db
shop = record {
  items = keyboard ∷ [];
  lots = lot 10 2000 50000 4 ∷ lot 11 1000 90000 5 ∷ [];
  movements = moved_in 12 1000 ∷ moved_in 13 2000 ∷ [];
  consumptions = [];
  transactions = [];
  accounts = party 3 ∷ [];
  suppliers = party 4 ∷ party 5 ∷ [];
  audit = [];
  next_id = 20;
}

abbrev pub clerk : Caller
clerk = record { workspace = 7; now = pos 1000 }

abbrev state_of : {A : Type 0} → Result WarehouseError (A × Db) → Db
state_of (ok (a, b)) = b
state_of (err e) = shop

eleven_is_not_ten : ◌≢◌ {A = ℕ} 11 10
eleven_is_not_ten e = omega (arith, e)

pub shop-IsBalanced : IsBalanced shop
unfolding lot_qty ◌+ℤ◌
shop-IsBalanced = record {
  store = record {
    distinct = ((eleven_is_not_ten, tt), (tt, tt));
    nonneg = (omega arith, (omega arith, tt));
    below = (omega arith, (omega arith, tt));
  };
  distinct_items = (tt, tt);
  agree = ((refl, refl), tt);
}

found : find_by_id 7 1 shop ≡ some keyboard
unfolding find_by_id
found = refl

decrement_for_sale_outcome_example :
    Sold 7 1 (pos 2500) shop (decrement_for_sale plain clerk 1 (pos 2500) none none shop)
decrement_for_sale_outcome_example =
    decrement_for_sale_outcome plain clerk 1 (pos 2500) none none shop shop-IsBalanced

oversold :
    decrement_for_sale plain clerk 1 (pos 3001) none none shop
    ≡ err (insufficient_stock (pos 3000) (pos 3001))
unfolding decrement_for_sale lock_for_update find_by_id lock_open_lots consume_lots consume_plan
    ◌+ℤ◌
oversold = refl

after_write_off : Db
unfolding write_off
after_write_off = state_of (write_off plain clerk 1 (pos 500) shop)

write_off_runs : write_off plain clerk 1 (pos 500) shop ≡ ok (tt, after_write_off)
unfolding write_off after_write_off lock_for_update find_by_id lock_open_lots consume_lots
    consume_plan ◌+ℤ◌ ◌-ℤ◌ ◌*ℤ◌ book_loss money recompute_caches update_cache consume_steps
    record_consumption update_lot_remaining record_movement
write_off_runs = refl

write_off_outcome_example : WrittenOff 7 1 (pos 500) shop (write_off plain clerk 1 (pos 500) shop)
write_off_outcome_example = write_off_outcome plain clerk 1 (pos 500) shop shop-IsBalanced

after_count : Db
unfolding adjust
after_count = state_of (adjust plain clerk 1 (pos 4000) (some (pos 80000)) shop)

count_runs : adjust plain clerk 1 (pos 4000) (some (pos 80000)) shop ≡ ok (tt, after_count)
unfolding adjust after_count lock_for_update find_by_id lock_open_lots consume_lots consume_plan
    ◌+ℤ◌ ◌-ℤ◌ ◌*ℤ◌ adjust_item surplus_cost lot_qty
count_runs = refl

adjust-Moves_example :
    (lot_qty 7 1 after_count ≡ pos 4000) × Moves 7 1 (pos 4000 -ℤ lot_qty 7 1 shop) shop after_count
adjust-Moves_example =
    adjust-Moves plain clerk 1 (pos 4000) (some (pos 80000)) shop tt after_count shop-IsBalanced
      count_runs

abbrev from_supplier : LotMeta
from_supplier = record {
  supplier = some 4;
  account = some 3;
  purchase_line = some 15;
  received_at = none;
}

after_purchase : Db
unfolding apply_purchase_line
after_purchase =
    state_of (apply_purchase_line plain clerk 1 (pos 1500) (pos 70000) (some 14) from_supplier shop)

purchase_runs :
    apply_purchase_line plain clerk 1 (pos 1500) (pos 70000) (some 14) from_supplier shop
    ≡ ok (tt, after_purchase)
unfolding apply_purchase_line after_purchase lock_for_update find_by_id lock_open_lots consume_lots
    consume_plan ◌+ℤ◌ ◌-ℤ◌ ◌*ℤ◌
purchase_runs = refl

apply_purchase_line-Moves_example : Moves 7 1 (pos 1500) shop after_purchase
apply_purchase_line-Moves_example =
    apply_purchase_line-Moves plain clerk 1 (pos 1500) (pos 70000) shop (some 14) from_supplier tt
      after_purchase shop-IsBalanced (omega arith) purchase_runs

restock-Moves_example :
    Moves 7 1 (pos 500) shop (restock plain clerk 1 (pos 500) (some 16) none shop)
restock-Moves_example =
    restock-Moves plain clerk 1 (pos 500) shop (some 16) none keyboard shop-IsBalanced (omega arith)
      found

after_return : Db
unfolding supplier_return
after_return =
    state_of (supplier_return plain clerk (pos 2000) 1 (pos 500) (pos 300000) 3 (some 5) none shop)

return_runs :
    supplier_return plain clerk (pos 2000) 1 (pos 500) (pos 300000) 3 (some 5) none shop
    ≡ ok (tt, after_return)
unfolding supplier_return after_return lock_for_update find_by_id lock_open_lots consume_lots
    consume_plan ◌+ℤ◌ ◌-ℤ◌ ◌*ℤ◌ give_back assert_account assert_supplier supplier_first
    create_transaction
return_runs = refl

supplier_return_outcome_example :
    GivenUp 7 1
      (pos 500)
      (pos 1000)
      (pos 2000)
      3
      (some 5)
      shop
      (supplier_return plain clerk (pos 2000) 1 (pos 500) (pos 300000) 3 (some 5) none shop)
supplier_return_outcome_example =
    supplier_return_outcome plain clerk 1 (pos 500) (pos 300000) 3 (some 5) none shop (pos 2000)
      shop-IsBalanced

-- 500 of the first lot went to line 40 of an order.
abbrev ledger : Db
ledger = record shop {
  consumptions =
      record {
        id = 18;
        workspace = 7;
        lot = 10;
        movement = 17;
        order_item = some 40;
        qty = pos 500;
        unit_cost = pos 50000;
        kind = ConsumptionKind.consume;
        reversal_of = none;
      }
      ∷ [];
}

ledger-IsBalanced : IsBalanced ledger
unfolding lot_qty ◌+ℤ◌
ledger-IsBalanced = record {
  store = record {
    distinct = ((eleven_is_not_ten, tt), (tt, tt));
    nonneg = (omega arith, (omega arith, tt));
    below = (omega arith, (omega arith, tt));
  };
  distinct_items = (tt, tt);
  agree = ((refl, refl), tt);
}

ledger-Stands : All (λ k. Stands 7 1 ledger.lots k.lot_id) (reversible_consumptions 7 40 ledger)
unfolding reversible_consumptions remaining_of ◌-ℤ◌
ledger-Stands = ((lot 10 2000 50000 4, refl, refl, refl, refl), tt)

reverse_consumption_outcome_example :
    GivenBack 7 1 40 (pos 300) ledger (reverse_consumption plain clerk 1 40 (pos 300) none ledger)
reverse_consumption_outcome_example =
    reverse_consumption_outcome plain clerk 1 40 (pos 300) none ledger ledger-IsBalanced
      ledger-Stands
