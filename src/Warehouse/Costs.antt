-- ===== src/Warehouse/Costs.antt =====
-- `setCost` (apps/api/src/warehouse/warehouse.service.ts) prices the open lots of an item and moves no
-- stock.
mod Tests
use construct_fin.Prelude.{
  ℕ, suc, ◌+◌, ◌<◌, ◌≤◌, ◌≡◌, ◌≢◌, refl, sym, ◌∙◌, ap, inl, inr, Bool, true, false, not, ◌&&◌,
  Option, none, some, List, [], ◌∷◌, map, arith, ℤ, pos, neg, ◌+ℤ◌, ◌-ℤ◌, ◌≤ℤ◌, ◌<ℤ◌, ltb_ℤ, eqb_ℤ,
  if◌then◌else◌, ◌==◌, sum_by, All, All-map, All-map_of, Bool-cases, int_laws, +ℤ_zero, +ℤ_comm,
  zero_+ℤ,
}
use mathlib.Core.Path.{subst}
use construct_fin.Prelude.Result.{ok}
use construct_fin.Decimal.{Decimals}
use construct_fin.Warehouse.State.{
  Item, Lot, MovementType, RefType, Db, Caller, cost_already_set, empty_stock, cost_not_positive,
  ◌>>◌, throw_when,
}
use construct_fin.Warehouse.Repository.{
  find_by_id, lock_for_update, lot_qty, record_movement, is_open, update_cache,
}
use construct_fin.Warehouse.Consume.{modify, new_movement, recompute_caches}
use construct_fin.Warehouse.Valuation.{set_lot_costs, set_cost}
use construct_fin.Warehouse.Lots.{weight, lot_qty-eq-sum, Distinct}
use construct_fin.Warehouse.Consumed.{at_item, NonNegative}
use construct_fin.Warehouse.Balance.{IsBalanced, IsStore, Shift, cache_agrees}
use construct_fin.Warehouse.Keeps.{Moves, settled, locked, guarded}

module _ (ws item : ℕ) (cost : ℤ) where
  abbrev pub priced : Lot → Lot
  priced l =
      if is_open ws item l && eqb_ℤ l.unit_cost (pos 0) then record l { unit_cost = cost } else l

  weight-priced : (w i : ℕ) (l : Lot) → weight w i (priced l) ≡ weight w i l
  weight-priced w i l = elim (Bool-cases (is_open ws item l && eqb_ℤ l.unit_cost (pos 0))) [
    | inl now ↦ rw now refl
    | inr kept ↦ rw kept refl
  ]

  sum_by-priced :
      (w i : ℕ) (ls : List Lot) → sum_by (weight w i) (map priced ls) ≡ sum_by (weight w i) ls
  sum_by-priced w i [] = refl
  sum_by-priced w i (l ∷ ls) = rw (weight-priced w i l, sum_by-priced w i ls) refl

  All-priced :
      (P : Lot → Type 0) (ls : List Lot)
      → ((l : Lot) → P l → P (record l { unit_cost = cost }))
      → All P ls
      → All P (map priced ls)
  All-priced P [] f h = tt
  All-priced P (l ∷ ls) f (p, h) =
      elim (Bool-cases (is_open ws item l && eqb_ℤ l.unit_cost (pos 0))) [
        | inl now ↦ rw now (f l p, All-priced P ls f h)
        | inr kept ↦ rw kept (p, All-priced P ls f h)
      ]

  Distinct-priced : (ls : List Lot) → Distinct ls → Distinct (map priced ls)
  Distinct-priced [] d = tt
  Distinct-priced (l ∷ ls) (fresh, d) =
      let far = All-priced (λ m. m.id ≢ l.id) ls (λ m p. p) fresh in
      elim (Bool-cases (is_open ws item l && eqb_ℤ l.unit_cost (pos 0))) [
        | inl now ↦ rw now (far, Distinct-priced ls d)
        | inr kept ↦ rw kept (far, Distinct-priced ls d)
      ]

no_move : (ws item w i : ℕ) (x : ℤ) → x ≡ x +ℤ at_item ws item (pos 0) w i
no_move ws item w i x = elim (Bool-cases (w == ws && i == item)) [
  | inl here ↦ rw here (sym (+ℤ_zero x))
  | inr away ↦ rw away (sym (+ℤ_zero x))
]

module _ (d : Decimals) (c : Caller) (id : ℕ) (cost : ℤ) (a : Db) where
  abbrev priced_db : ℤ → Db
  unfolding set_lot_costs record_movement
  priced_db q =
      record_movement
        (new_movement c.workspace id MovementType.adjustment (pos 0) q (some cost)
          (some RefType.cost_init) none)
        (set_lot_costs c.workspace id cost a)

  priced_db-Shift : (q : ℤ) → IsStore a → Shift c.workspace id (pos 0) a (priced_db q)
  unfolding priced_db set_lot_costs record_movement
  priced_db-Shift q v = record {
    held = λ w i.
        lot_qty-eq-sum w i (priced_db q)
        ∙ sum_by-priced c.workspace id cost w i a.lots
        ∙ sym (lot_qty-eq-sum w i a)
        ∙ no_move c.workspace id w i _;
    journal = λ w i. +ℤ_comm _ _;
    items = refl;
    store = record {
      distinct = Distinct-priced c.workspace id cost a.lots v.distinct;
      nonneg = All-priced c.workspace id cost _ a.lots (λ l p. p) v.nonneg;
      below =
          All-priced c.workspace id cost _ a.lots (λ l p. p)
            (All-map _ (λ l. l.id < suc a.next_id) (λ l p. omega arith) a.lots v.below);
    };
  }

  recomputed_lots :
      (q : ℤ)
      → (recompute_caches d c.workspace id (priced_db q)).lots
        ≡ map (priced c.workspace id cost) a.lots
  unfolding priced_db recompute_caches update_cache set_lot_costs record_movement
  recomputed_lots q = refl

  -- On a warehouse in balance, a pricing that goes through had a positive cost and an item with stock:
  -- it prices the open lots of the item that have no cost, changes no other lot, moves no stock,
  -- and leaves the warehouse in balance.
  pub set_cost_outcome :
      (r : Unit {0}) (b : Db)
      → IsBalanced a
      → set_cost d c id cost a ≡ ok (r, b)
      → (pos 0 <ℤ cost)
        × (pos 0 <ℤ lot_qty c.workspace id a)
        × (b.lots ≡ map (priced c.workspace id cost) a.lots)
        × Moves c.workspace id (pos 0) a b
  unfolding set_cost priced_db set_lot_costs record_movement
  set_cost_outcome r b v e =
      let (it, found, e1) = locked c.workspace id _ a (r, b) e in
      let act =
        modify (set_lot_costs c.workspace id cost)
        >> (modify (
              record_movement (
                new_movement c.workspace id MovementType.adjustment (pos 0) it.qty (some cost)
                  (some RefType.cost_init) none))
            >> modify (recompute_caches d c.workspace id)) in
      let unpriced = throw_when (not (ltb_ℤ (pos 0) cost)) cost_not_positive >> act in
      let empty = throw_when (not (ltb_ℤ (pos 0) it.qty)) empty_stock >> unpriced in
      let (_, e2) =
        guarded (ltb_ℤ (pos 0) it.avg_cost) cost_already_set empty {a = a} {r = (r, b)} e1 in
      let (has, e3) =
        guarded (not (ltb_ℤ (pos 0) it.qty)) empty_stock unpriced {a = a} {r = (r, b)} e2 in
      let (worth, e4) =
        guarded (not (ltb_ℤ (pos 0) cost)) cost_not_positive act {a = a} {r = (r, b)} e3 in
      let done : b ≡ recompute_caches d c.workspace id (priced_db it.qty) = ground (arith, e4) in
      let kept : b.lots ≡ map (priced c.workspace id cost) a.lots =
        ap (λ x. x.lots) done ∙ recomputed_lots it.qty in
      let moves = subst (Moves c.workspace id (pos 0) a) (sym done) (
        settled d c.workspace id (pos 0) a (priced_db it.qty) v found
          (priced_db-Shift it.qty v.store)) in
      let stocked : pos 0 <ℤ it.qty = ground (arith, has) in
      let held = subst (λ x. pos 0 <ℤ x) (cache_agrees c.workspace id a v found) stocked in
      (ground (arith, worth), held, kept, moves)
