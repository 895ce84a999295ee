-- ===== src/Warehouse/Keeps.antt =====
-- What it means that an operation moves the stock of one item and keeps the warehouse in balance
-- (apps/api/src/warehouse/warehouse.service.ts).

use construct_fin.Prelude.{ℕ, Bool, true, false, some, List, ℤ, neg, ◌+ℤ◌, keep, sum_by}
use construct_fin.Prelude.Result.{ok}
use construct_fin.Decimal.{Decimals}
use construct_fin.Fifo.{OpenLot}
use construct_fin.Warehouse.State.{Item, Db, WarehouseError, M, ◌>>=◌, ◌>>◌, throw_when}
use construct_fin.Warehouse.Repository.{update_cache, find_by_id, lock_for_update, is_open, lot_qty}
use construct_fin.Warehouse.Consume.{Consuming, recompute_caches, consume_lots}
use mathlib.Core.Path.{subst}
use construct_fin.Prelude.{
  ◌<◌, ◌≤◌, ap, All-map, ◌≡◌, refl, sym, ◌∙◌, inl, inr, arith, All, Option-cases,
}
use construct_fin.Warehouse.Stock.{or_not_found}
use construct_fin.Warehouse.Lots.{Distinct}
use construct_fin.Warehouse.Consumed.{NonNegative, at_item, Backs, DistinctOpen}
use construct_fin.Warehouse.Balance.{DistinctItems, IsBalanced, Shift, settle, moved, Agrees}
use construct_fin.Warehouse.Shifts.{consume_lots-Shift}

-- From `a` to `b` the stock of one item has moved by `q`, that of no other item has moved, and the
-- warehouse is in balance.
pub record Moves (ws item : ℕ) (q : ℤ) (a b : Db) : Type 0 where
  pub balanced : IsBalanced b
  pub held : (w i : ℕ) → lot_qty w i b ≡ lot_qty w i a +ℤ at_item ws item q w i

held_cached :
    (d : Decimals) (ws item w i : ℕ) (db : Db)
    → lot_qty w i (recompute_caches d ws item db) ≡ lot_qty w i db
unfolding recompute_caches update_cache lot_qty
held_cached d ws item w i db = refl

pub settled :
    (d : Decimals) (ws item : ℕ) (q : ℤ) (a mid : Db) {it : Item}
    → IsBalanced a
    → find_by_id ws item a ≡ some it
    → Shift ws item q a mid
    → Moves ws item q a (recompute_caches d ws item mid)
settled d ws item q a mid v found s = record {
  balanced = settle d ws item q a mid s v found;
  held = λ w i. held_cached d ws item w i mid ∙ s.held w i;
}

pub same_stock : (w i : ℕ) (b c : Db) → c.lots ≡ b.lots → lot_qty w i c ≡ lot_qty w i b
unfolding lot_qty
same_stock w i b c e = ap (λ ls. sum_by (λ l. l.qty_remaining) (keep (is_open w i) ls)) e

pub same_journal : (w i : ℕ) (b c : Db) → c.movements ≡ b.movements → moved w i c ≡ moved w i b
same_journal w i b c e = ap (sum_by (λ m. at_item m.workspace m.item m.qty_delta w i)) e

-- Only the stock counts: what is booked beside it leaves the balance alone.
pub beside :
    (ws item : ℕ) (q : ℤ) (a b c : Db)
    → Moves ws item q a b
    → c.items ≡ b.items
    → c.lots ≡ b.lots
    → c.movements ≡ b.movements
    → b.next_id ≤ c.next_id
    → Moves ws item q a c
beside ws item q a b c m ei el em en =
    let v = m.balanced in
    let keys = All-map _ (λ l. l.id < c.next_id) (λ l p. omega arith) b.lots v.store.below in
    record {
      balanced = record {
        store = record {
          distinct = subst Distinct (sym el) v.store.distinct;
          nonneg = subst NonNegative (sym el) v.store.nonneg;
          below = subst (All (λ l. l.id < c.next_id)) (sym el) keys;
        };
        distinct_items = subst DistinctItems (sym ei) v.distinct_items;
        agree = subst (All (Agrees c)) (sym ei) (
            All-map (Agrees b) (Agrees c)
              (λ it g. ground (
                arith,
                g,
                same_stock it.workspace it.id b c el,
                same_journal it.workspace it.id b c em,
              ))
              b.items v.agree);
      };
      held = λ w i. same_stock w i b c el ∙ m.held w i;
    }

module _ (d : Decimals) (c : Consuming) (os : List OpenLot) (a : Db) where
  pub consume-Moves :
      {it : Item} (total : ℤ) (b : Db)
      → IsBalanced a
      → find_by_id c.workspace c.item a ≡ some it
      → DistinctOpen os
      → All (Backs c.workspace c.item a.lots) os
      → consume_lots d c os a ≡ ok (total, b)
      → Moves c.workspace c.item (neg c.consume_qty) a b
  consume-Moves total b v found u backs e =
      let (mid, shift, same) = consume_lots-Shift d c os a total b v.store u backs e in
      subst (Moves c.workspace c.item (neg c.consume_qty) a) (sym same)
        (settled d c.workspace c.item (neg c.consume_qty) a mid v found shift)

-- A call that reads an item under its lock, and returns, has found the item.
pub locked :
    {A : Type 0} (ws id : ℕ) (f : Item → M A) (a : Db) (r : A × Db)
    → (do item ← or_not_found (← lock_for_update ws id); f item) a ≡ ok r
    → (it : Item) × (find_by_id ws id a ≡ some it) × (f it a ≡ ok r)
unfolding lock_for_update
locked ws id f a r e = elim (Option-cases (find_by_id ws id a)) [
  | inl missing ↦ absurd (ground (arith, missing, e))
  | inr (it, found) ↦ (it, found, ground (arith, found, e))
]

-- A call behind a guard that returns has passed the guard.
pub guarded :
    {A : Type 0} (bad : Bool) (q : WarehouseError) (m : M A) {a : Db} {r : A × Db}
    → (throw_when bad q >> m) a ≡ ok r
    → (bad ≡ false) × (m a ≡ ok r)
guarded true q m e = cc
guarded false q m e = (refl, e)
