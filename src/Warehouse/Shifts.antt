-- ===== src/Warehouse/Shifts.antt =====
-- How `consumeLots`, `createLot` with its movement, and the writes beside the stock move the balance
-- of the warehouse (apps/api/src/warehouse/warehouse.service.ts).
use construct_fin.Prelude.{
  ℕ, ◌<◌, ◌≤◌, ◌≡◌, refl, ◌∙◌, inl, inr, false, ◌&&◌, Option, none, some, List, [], ◌∷◌, ◌++◌, map,
  arith, ℤ, pos, neg, ◌+ℤ◌, ◌-ℤ◌, ◌≤ℤ◌, int_laws, +ℤ_zero, +ℤ_comm, ◌==◌, sum_by-append, All,
  All-map, All-append, Bool-cases,
}
use mathlib.Core.Path.{subst}
use construct_fin.Prelude.Result.{ok, Result-cases}
use construct_fin.Decimal.{Decimals}
use construct_fin.Fifo.{OpenLot, ConsumeStep, Plan, consume_plan, consume_step}
use construct_fin.Fifo.Plans.{Covers, step_cost, Consumed, consume_plan_outcome}
use construct_fin.Warehouse.State.{consume, Lot, Movement, Db}
use construct_fin.Warehouse.Repository.{
  record_consumption, update_lot_remaining, create_lot, record_movement,
}
use construct_fin.Warehouse.Consume.{
  Consuming, consume_steps, remaining_by_id, put, or_zero, recompute_caches, consume_lots,
  new_movement, weighted_unit_cost,
}
use construct_fin.Warehouse.Lots.{Distinct, weight, lot_qty-eq-sum}
use construct_fin.Warehouse.OpenLots.{remaining_by_id-knows}
use construct_fin.Warehouse.Consumed.{at_item, Backs, DistinctOpen, consume_steps-Spent}
use construct_fin.Warehouse.Balance.{IsStore, Shift}

-- The loop over the steps writes lots and consumptions, and nothing else.
consume_steps_rest :
    (c : Consuming) (movement : ℕ) (steps : List ConsumeStep) (m : ℕ → Option ℤ) (db : Db)
    → let out = consume_steps c movement steps m db in
      (out.items ≡ db.items) × (out.movements ≡ db.movements) × (db.next_id ≤ out.next_id)
unfolding consume_steps record_consumption update_lot_remaining
consume_steps_rest c movement [] m db = (refl, refl, omega arith)
consume_steps_rest c movement (s ∷ steps) m db =
    let after = or_zero (m s.lot_id) -ℤ s.qty in
    let (items, journal, keys) = consume_steps_rest c movement steps (put s.lot_id after m) (
      record_consumption
        (record {
          id = 0;
          workspace = c.workspace;
          lot = s.lot_id;
          movement = movement;
          order_item = c.order_item;
          qty = s.qty;
          unit_cost = s.unit_cost;
          kind = consume;
          reversal_of = none;
        })
        (update_lot_remaining s.lot_id after db)) in
    (items, journal, omega arith)

pub below_keys :
    (n k : ℕ) (a b : List Lot)
    → map (λ l. l.id) b ≡ map (λ l. l.id) a
    → n ≤ k
    → All (λ l. l.id < n) a
    → All (λ l. l.id < k) b
below_keys n k [] [] e le h = tt
below_keys n k [] (y ∷ ys) e le h = cc
below_keys n k (x ∷ xs) [] e le h = cc
below_keys n k (x ∷ xs) (y ∷ ys) e le (h, hs) =
    let same : y.id ≡ x.id = cc in (omega arith, below_keys n k xs ys (cc) le hs)

neg_at : (ws item w i : ℕ) (q v : ℤ) → v -ℤ at_item ws item q w i ≡ v +ℤ at_item ws item (neg q) w i
neg_at ws item w i q v = elim (Bool-cases (w == ws && i == item)) [
  | inl here ↦ rw here (omega int_laws)
  | inr away ↦ rw away (omega int_laws)
]

-- The database after the loop of `consumeLots`, before the caches are written.
abbrev spent_db : Decimals → Consuming → List OpenLot → Plan ConsumeStep → Db → Db
spent_db d c os p a = consume_steps c a.next_id p.steps (remaining_by_id os (λ k. none)) (
    record_movement
      (new_movement c.workspace c.item c.kind (neg c.consume_qty) (c.cached_qty -ℤ c.consume_qty)
        (some (weighted_unit_cost d p.total_cost c.consume_qty)) c.ref_type c.ref_id)
      a)

module _ (d : Decimals) (c : Consuming) (os : List OpenLot) (a : Db) where
  spent_db-Shift :
      (p : Plan ConsumeStep)
      → IsStore a
      → DistinctOpen os
      → All (Backs c.workspace c.item a.lots) os
      → Covers (λ l. l.qty_remaining) consume_step (λ s. s.qty) step_cost os c.consume_qty p
      → Shift c.workspace c.item (neg c.consume_qty) a (spent_db d c os p a)
  unfolding record_movement
  spent_db-Shift p v u backs covers =
      let known = remaining_by_id-knows os (λ k. none) u in
      let moved_db =
        record_movement
          (new_movement c.workspace c.item c.kind (neg c.consume_qty)
            (c.cached_qty -ℤ c.consume_qty) (some (weighted_unit_cost d p.total_cost c.consume_qty))
            c.ref_type c.ref_id)
          a in
      let spent =
        consume_steps-Spent c a.next_id (remaining_by_id os (λ k. none)) moved_db covers.in_order u
          backs known v.distinct v.nonneg in
      let (items, journal, keys) =
        consume_steps_rest c a.next_id p.steps (remaining_by_id os (λ k. none)) moved_db in
      let out = spent_db d c os p a in
      record {
        held = λ w i.
            lot_qty-eq-sum w i out
            ∙ spent.held w i
            ∙ rw (covers.sum_qty, lot_qty-eq-sum w i a)
                (neg_at c.workspace c.item w i c.consume_qty _);
        journal = λ w i. rw journal (+ℤ_comm _ _);
        items = items;
        store = record {
          distinct = spent.distinct;
          nonneg = spent.nonneg;
          below = below_keys a.next_id out.next_id a.lots out.lots spent.keys (omega arith) v.below;
        };
      }

  -- A call of `consumeLots` that returns has moved the item by the negated quantity, and then written
  -- the item's caches.
  pub consume_lots-Shift :
      (total : ℤ) (b : Db)
      → IsStore a
      → DistinctOpen os
      → All (Backs c.workspace c.item a.lots) os
      → consume_lots d c os a ≡ ok (total, b)
      → (mid : Db) × Shift c.workspace c.item (neg c.consume_qty) a mid
        × (b ≡ recompute_caches d c.workspace c.item mid)
  unfolding consume_lots
  consume_lots-Shift total b v u backs e = elim (Result-cases (consume_plan os c.consume_qty)) [
    | inr (f, bad) ↦ absurd (ground (arith, bad, e))
    | inl (p, good) ↦
        let (_, _, covers) =
          subst (Consumed os c.consume_qty) good (consume_plan_outcome os c.consume_qty) in
        (spent_db d c os p a, spent_db-Shift p v u backs covers, ground (arith, good, e))
  ]

weight_new :
    (w i : ℕ) (l : Lot)
    → pos 0 ≤ℤ l.qty_remaining
    → l.deleted ≡ false
    → weight w i l ≡ at_item l.workspace l.item l.qty_remaining w i
weight_new w i l h live = ground arith

Distinct-append_new :
    (ls : List Lot) (l : Lot) → Distinct ls → All (λ m. m.id < l.id) ls → Distinct (ls ++ l ∷ [])
Distinct-append_new [] l d b = (tt, tt)
Distinct-append_new (m ∷ ms) l (fresh, d) (p, ps) =
    (All-append _ ms _ fresh ((λ e. ground (arith, e)), tt), Distinct-append_new ms l d ps)

-- A new lot and its movement bring the item what the lot holds.
pub receipt-Shift :
    (l : Lot) (m : Movement) (a : Db)
    → IsStore a
    → pos 0 ≤ℤ l.qty_remaining
    → l.deleted ≡ false
    → m.workspace ≡ l.workspace
    → m.item ≡ l.item
    → m.qty_delta ≡ l.qty_remaining
    → Shift l.workspace l.item l.qty_remaining a (record_movement m (create_lot l a))
unfolding record_movement create_lot
receipt-Shift l m a v h live ews eitem eq = record {
  held = λ w i.
      lot_qty-eq-sum w i (record_movement m (create_lot l a))
      ∙ sum_by-append (weight w i) a.lots (record l { id = a.next_id } ∷ [])
      ∙ rw (lot_qty-eq-sum w i a, +ℤ_zero (weight w i l), weight_new w i l h live);
  journal = λ w i. rw (ews, eitem, eq) (+ℤ_comm _ _);
  items = refl;
  store = record {
    distinct = Distinct-append_new a.lots (record l { id = a.next_id }) v.distinct v.below;
    nonneg = All-append _ a.lots _ v.nonneg (h, tt);
    below =
        All-append _ a.lots _ (All-map _ _ (λ k p. omega arith) a.lots v.below) (omega arith, tt);
  };
}
