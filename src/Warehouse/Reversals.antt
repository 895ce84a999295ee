-- ===== src/Warehouse/Reversals.antt =====
-- Every outcome of `reverseConsumption` (apps/api/src/warehouse/warehouse.service.ts) on a warehouse in
-- balance.
use construct_fin.Prelude.{
  ℕ, ◌≤◌, ◌≡◌, refl, sym, ◌∙◌, ◌⊎◌, inl, inr, true, Option, some, List, [], ◌∷◌, arith, ℤ, pos, neg,
  ◌+ℤ◌, ◌≤ℤ◌, ◌<ℤ◌, find_passes, All, Bool-cases, Option-cases, +ℤ_comm,
}
use mathlib.Core.Path.{subst}
use construct_fin.Prelude.Result.{Result, ok, err, Result-cases}
use construct_fin.Decimal.{Decimals}
use construct_fin.Fifo.{
  reverse_plan, FifoError, Plan, ReverseStep, ReversibleConsumption, reverse_step,
}
use construct_fin.Fifo.Plans.{Reversed, left_of, Covers, reverse_cost, reverse_plan_outcome}
use construct_fin.Warehouse.State.{
  Item, MovementType, RefType, Db, Caller, WarehouseError, reversal, item_not_found,
  account_not_found, supplier_not_found, insufficient_stock, insufficient_reversible, not_positive,
  no_consumptions, cost_required, cost_already_set, empty_stock, cost_not_positive, stock_left,
  no_account, in_the_future, lot_consumed, lot_changed,
}
use construct_fin.Warehouse.Repository.{
  is_live, find_by_id, lock_for_update, record_movement, record_consumption, update_lot_remaining,
  reversible_consumptions,
}
use construct_fin.Warehouse.Consume.{
  new_movement, weighted_unit_cost, recompute_caches, Remaining, put, or_zero, of_fifo,
}
use construct_fin.Warehouse.Trade.{
  lot_remaining, reverse_steps, reverse_lots, reverse_consumption, is_nil,
}
use construct_fin.Warehouse.Lots.{lot_qty-eq-sum}
use construct_fin.Warehouse.Balance.{IsBalanced, IsStore, Shift}
use construct_fin.Warehouse.Shifts.{below_keys}
use construct_fin.Warehouse.Calls.{HasItem, found_item, missing_item}
use construct_fin.Warehouse.Keeps.{Moves, settled}
use construct_fin.Warehouse.Restored.{Stands, at_neg, reverse_steps-Spent}

-- The loop over the steps writes lots and consumptions, and nothing else.
reverse_steps_rest :
    (ws line movement : ℕ) (steps : List ReverseStep) (m : Remaining) (db : Db)
    → let out = reverse_steps ws line movement steps m db in
      (out.items ≡ db.items) × (out.movements ≡ db.movements) × (db.next_id ≤ out.next_id)
unfolding reverse_steps record_consumption update_lot_remaining
reverse_steps_rest ws line movement [] m db = (refl, refl, omega arith)
reverse_steps_rest ws line movement (s ∷ steps) m db =
    let after = or_zero (m s.lot_id) +ℤ s.qty in
    let (items, journal, keys) = reverse_steps_rest ws line movement steps (put s.lot_id after m) (
      record_consumption
        (record {
          id = 0;
          workspace = ws;
          lot = s.lot_id;
          movement = movement;
          order_item = some line;
          qty = neg s.qty;
          unit_cost = s.unit_cost;
          kind = reversal;
          reversal_of = some s.consumption_id;
        })
        (update_lot_remaining s.lot_id after db)) in
    (items, journal, omega arith)

module _ (d : Decimals) (c : Caller) (it : Item) (line : ℕ) (q : ℤ) (order : Option ℕ)
    (a : Db) where
  -- The database after the loop, before the caches are written.
  abbrev given_db : Plan ReverseStep → Db
  given_db p = reverse_steps c.workspace line a.next_id p.steps (lot_remaining a) (
      record_movement
        (new_movement c.workspace it.id MovementType.return_customer q (it.qty +ℤ q)
          (some (weighted_unit_cost d p.total_cost q)) (some RefType.order) order)
        a)

  given_db-Shift :
      (p : Plan ReverseStep) (cs : List ReversibleConsumption)
      → IsStore a
      → All (λ k. Stands c.workspace it.id a.lots k.lot_id) cs
      → Covers (λ k. k.remaining) reverse_step (λ s. s.qty) reverse_cost cs q p
      → Shift c.workspace it.id q a (given_db p)
  unfolding record_movement
  given_db-Shift p cs v stands covers =
      let moved_db =
        record_movement
          (new_movement c.workspace it.id MovementType.return_customer q (it.qty +ℤ q)
            (some (weighted_unit_cost d p.total_cost q)) (some RefType.order) order)
          a in
      let spent =
        reverse_steps-Spent c.workspace it.id line a.next_id (lot_remaining a) moved_db
          covers.in_order stands (λ k. refl) v.distinct v.nonneg in
      let (items, journal, keys) =
        reverse_steps_rest c.workspace line a.next_id p.steps (lot_remaining a) moved_db in
      let out = given_db p in
      record {
        held = λ w i.
            lot_qty-eq-sum w i out
            ∙ spent.held w i
            ∙ rw (covers.sum_qty, lot_qty-eq-sum w i a) (sym (at_neg c.workspace it.id w i q _));
        journal = λ w i. rw journal (+ℤ_comm _ _);
        items = items;
        store = record {
          distinct = spent.distinct;
          nonneg = spent.nonneg;
          below = below_keys a.next_id out.next_id a.lots out.lots spent.keys (omega arith) v.below;
        };
      }

-- What a reversal of `q` on an order line has done, by how it ended.
abbrev pub GivenBack : ℕ → ℕ → ℕ → ℤ → Db → Result WarehouseError ((ℤ × ℤ) × Db) → Type 0
GivenBack ws id line q a (ok ((n, total), b)) =
    HasItem ws id a
    × (n ≡ q)
    × (pos 0 <ℤ q)
    × (q ≤ℤ left_of (reversible_consumptions ws line a))
    × Moves ws id q a b
GivenBack ws id line q a (err no_consumptions) =
    (¬ HasItem ws id a) ⊎ (reversible_consumptions ws line a ≡ [])
GivenBack ws id line q a (err not_positive) = HasItem ws id a × (q ≤ℤ pos 0)
GivenBack ws id line q a (err (insufficient_reversible has asked)) =
    HasItem ws id a
    × (left_of (reversible_consumptions ws line a) <ℤ q)
    × (has ≡ left_of (reversible_consumptions ws line a))
    × (asked ≡ q)
GivenBack ws id line q a (err (insufficient_stock has asked)) = ⊥
GivenBack ws id line q a (err item_not_found) = ⊥
GivenBack ws id line q a (err account_not_found) = ⊥
GivenBack ws id line q a (err supplier_not_found) = ⊥
GivenBack ws id line q a (err cost_required) = ⊥
GivenBack ws id line q a (err cost_already_set) = ⊥
GivenBack ws id line q a (err empty_stock) = ⊥
GivenBack ws id line q a (err cost_not_positive) = ⊥
GivenBack ws id line q a (err (stock_left qty)) = ⊥
GivenBack ws id line q a (err no_account) = ⊥
GivenBack ws id line q a (err in_the_future) = ⊥
GivenBack ws id line q a (err lot_consumed) = ⊥
GivenBack ws id line q a (err lot_changed) = ⊥

is_nil→nil : {A : Type 0} (xs : List A) → is_nil xs ≡ true → xs ≡ []
is_nil→nil [] e = refl
is_nil→nil (x ∷ xs) e = cc

module _ (d : Decimals) (c : Caller) (id line : ℕ) (q : ℤ) (order : Option ℕ) (a : Db) where
  refused_reversal :
      (f : FifoError)
      → HasItem c.workspace id a
      → Reversed (reversible_consumptions c.workspace line a) q (err f)
      → GivenBack c.workspace id line q a (err (of_fifo f))
  refused_reversal construct_fin.Fifo.not_positive there h = (there, h)
  refused_reversal (construct_fin.Fifo.insufficient_stock has asked) there h = absurd h
  refused_reversal (construct_fin.Fifo.insufficient_reversible has asked) there
        (wanted, short, eh, er) =
      (there, short, eh, er)

  found_id : {it : Item} → find_by_id c.workspace id a ≡ some it → it.id ≡ id
  unfolding find_by_id
  found_id found =
      let live = find_passes (is_live c.workspace id) a.items found in ground (arith, live)

  -- On a warehouse in balance, where the lots of what can be reversed on the line stand at the item, a
  -- reversal goes through exactly where the item is there, the quantity is positive and that much can
  -- be reversed: it answers with the quantity, gives it to the item, moves no other, and leaves the
  -- warehouse in balance. Otherwise it is refused with the reason.
  pub reverse_consumption_outcome :
      IsBalanced a
      → All
          (λ k. Stands c.workspace id a.lots k.lot_id)
          (reversible_consumptions c.workspace line a)
      → GivenBack c.workspace id line q a (reverse_consumption d c id line q order a)
  unfolding reverse_consumption lock_for_update reverse_lots
  reverse_consumption_outcome v stands = elim (Option-cases (find_by_id c.workspace id a)) [
    | inl missing ↦
        let run : reverse_consumption d c id line q order a ≡ err no_consumptions =
          ground (arith, missing) in
        subst (GivenBack c.workspace id line q a) (sym run)
          (inl (missing_item c.workspace id a missing))
    | inr (it, found) ↦
        let cs = reversible_consumptions c.workspace line a in
        let outcome = reverse_plan_outcome cs q in
        elim (Bool-cases (is_nil cs)) [
          | inl nil ↦
              let run : reverse_consumption d c id line q order a ≡ err no_consumptions =
                ground (arith, found, nil) in
              subst (GivenBack c.workspace id line q a) (sym run) (inr (is_nil→nil cs nil))
          | inr full ↦ elim (Result-cases (reverse_plan cs q)) [
            | inr (f, bad) ↦
                let run : reverse_consumption d c id line q order a ≡ err (of_fifo f) =
                  ground (arith, found, full, bad) in
                subst (GivenBack c.workspace id line q a) (sym run) (
                  refused_reversal f (found_item c.workspace id a found)
                    (subst (Reversed cs q) bad outcome))
            | inl (p, good) ↦
                let (wanted, enough, covers) = subst (Reversed cs q) good outcome in
                let out = recompute_caches d c.workspace it.id (given_db d c it line q order a p) in
                let run : reverse_consumption d c id line q order a ≡ ok ((q, p.total_cost), out) =
                  ground (arith, found, full, good) in
                subst (GivenBack c.workspace id line q a) (sym run)
                  (found_item c.workspace id a found, refl, wanted, enough, gives it p found covers)
          ]
        ]
  ]
    where
      gives :
          (it : Item) (p : Plan ReverseStep)
          → find_by_id c.workspace id a ≡ some it
          → Covers
              (λ k. k.remaining)
              reverse_step
              (λ s. s.qty)
              reverse_cost
              (reversible_consumptions c.workspace line a)
              q
              p
          → Moves c.workspace id q a
              (recompute_caches d c.workspace it.id (given_db d c it line q order a p))
      gives it p found covers =
          let ws = c.workspace in
          let cs = reversible_consumptions ws line a in
          let same = found_id found in
          subst
            (λ k. Moves ws k q a (recompute_caches d ws it.id (given_db d c it line q order a p)))
            same
            (settled d ws it.id q a (given_db d c it line q order a p) v
              (subst (λ k. find_by_id ws k a ≡ some it) (sym same) found)
              (given_db-Shift d c it line q order a p cs v.store
                (subst (λ k. All (λ x. Stands ws k a.lots x.lot_id) cs) (sym same) stands) covers))
