-- ===== src/Warehouse/Costs/Tests.antt =====
-- A warehouse with a lot that came in without a cost, and `setCost` at work on it.
use construct_fin.Prelude.{ℕ, ◌≡◌, ◌≢◌, refl, false, none, [], ◌∷◌, map, arith, pos, ◌+ℤ◌, ◌<ℤ◌}
use construct_fin.Prelude.Result.{Result, ok, err}
use construct_fin.Decimal.Tests.{plain}
use construct_fin.Warehouse.State.{Lot, LotSource, MovementType, Db, Caller, WarehouseError}
use construct_fin.Warehouse.Repository.{find_by_id, lock_for_update, lot_qty}
use construct_fin.Warehouse.Valuation.{set_cost}
use construct_fin.Warehouse.Balance.{IsBalanced}
use construct_fin.Warehouse.Keeps.{Moves}
use construct_fin.Warehouse.Costs.{priced, set_cost_outcome}

abbrev counted : ℕ → ℕ → ℕ → Lot
counted id q cost = record {
  id = id;
  workspace = 2;
  item = 6;
  qty_initial = pos q;
  qty_remaining = pos q;
  unit_cost = pos cost;
  source = LotSource.opening;
  source_id = none;
  purchase_line = none;
  supplier = none;
  account = none;
  received_at = pos id;
  deleted = false;
}

-- 4 pieces without a cost; the item has no average cost yet.
abbrev opening : Db
opening = record {
  items =
      record {
        id = 6;
        workspace = 2;
        qty = pos 4000;
        avg_cost = pos 0;
        default_supplier = none;
        is_archived = false;
        deleted = false;
      }
      ∷ [];
  lots = counted 7 3000 0 ∷ counted 8 1000 0 ∷ [];
  movements =
      record {
        id = 9;
        workspace = 2;
        item = 6;
        kind = MovementType.adjustment;
        qty_delta = pos 4000;
        qty_after = pos 4000;
        unit_cost = none;
        ref_type = none;
        ref_id = none;
      }
      ∷ [];
  consumptions = [];
  transactions = [];
  accounts = [];
  suppliers = [];
  audit = [];
  next_id = 12;
}

abbrev owner : Caller
owner = record { workspace = 2; now = pos 50 }

eight_is_not_seven : ◌≢◌ {A = ℕ} 8 7
eight_is_not_seven e = omega (arith, e)

opening-IsBalanced : IsBalanced opening
unfolding lot_qty ◌+ℤ◌
opening-IsBalanced = record {
  store = record {
    distinct = ((eight_is_not_seven, tt), (tt, tt));
    nonneg = (omega arith, (omega arith, tt));
    below = (omega arith, (omega arith, tt));
  };
  distinct_items = (tt, tt);
  agree = ((refl, refl), tt);
}

priced_state : Result WarehouseError (Unit {0} × Db) → Db
priced_state (ok (a, b)) = b
priced_state (err e) = opening

after_pricing : Db
unfolding set_cost priced_state
after_pricing = priced_state (set_cost plain owner 6 (pos 60000) opening)

pricing_runs : set_cost plain owner 6 (pos 60000) opening ≡ ok (tt, after_pricing)
unfolding set_cost priced_state after_pricing lock_for_update find_by_id
pricing_runs = refl

set_cost_outcome_example :
    (pos 0 <ℤ pos 60000)
    × (pos 0 <ℤ lot_qty 2 6 opening)
    × (after_pricing.lots ≡ map (priced 2 6 (pos 60000)) opening.lots)
    × Moves 2 6 (pos 0) opening after_pricing
set_cost_outcome_example =
    set_cost_outcome plain owner 6 (pos 60000) opening tt after_pricing opening-IsBalanced
      pricing_runs
