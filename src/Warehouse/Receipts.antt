-- ===== src/Warehouse/Receipts.antt =====
-- The operations of the warehouse that bring stock in keep it in balance
-- (apps/api/src/warehouse/warehouse.service.ts).

use construct_fin.Prelude.{
  ℕ, Bool, true, false, ◌&&◌, Option, none, some, ℤ, pos, neg, ◌+ℤ◌, ◌-ℤ◌, ltb_ℤ, eqb_ℤ, ◌==◌,
  if◌then◌else◌,
}
use construct_fin.Prelude.Result.{ok}
use construct_fin.Decimal.{Decimals}
use construct_fin.Warehouse.State.{Item, Lot, LotSource, MovementType, RefType, Db, Caller, pure}
use construct_fin.Warehouse.Repository.{
  find_by_id, record_movement, create_lot, lock_open_lots, lot_qty,
}
use construct_fin.Warehouse.Consume.{
  new_lot, new_movement, consuming, recompute_caches, consume_lots,
}
use mathlib.Core.Path.{subst}
use construct_fin.Prelude.{◌≡◌, refl, sym, inl, inr, arith, ◌≤ℤ◌, +ℤ_zero, Bool-cases, Option-cases}
use construct_fin.Warehouse.State.{Movement, bind-ok}
use construct_fin.Warehouse.Stock.{adjust, adjust_item, add_surplus, surplus_cost}
use construct_fin.Warehouse.Trade.{or_average, LotMeta, or_now, apply_purchase_line, restock}
use construct_fin.Warehouse.OpenLots.{lock_open_lots-DistinctOpen, lock_open_lots-Backs}
use construct_fin.Warehouse.Consumed.{at_item}
use construct_fin.Warehouse.Balance.{cache_agrees, IsBalanced}
use construct_fin.Warehouse.Shifts.{receipt-Shift}
use construct_fin.Warehouse.Keeps.{Moves, settled, consume-Moves, locked}

module _ (d : Decimals) (l : Lot) (m : Movement) (a : Db) where
  -- A lot with its movement, after which the caches are written.
  receipt-Moves :
      {it : Item} {b : Db}
      → IsBalanced a
      → find_by_id l.workspace l.item a ≡ some it
      → pos 0 ≤ℤ l.qty_remaining
      → l.deleted ≡ false
      → (m.workspace ≡ l.workspace) × (m.item ≡ l.item) × (m.qty_delta ≡ l.qty_remaining)
      → b ≡ recompute_caches d l.workspace l.item (record_movement m (create_lot l a))
      → Moves l.workspace l.item l.qty_remaining a b
  receipt-Moves v found h live (ew, ei, eq) same =
      subst (Moves l.workspace l.item l.qty_remaining a) (sym same) (
        settled d l.workspace l.item l.qty_remaining a _ v found
          (receipt-Shift l m a v.store h live ew ei eq))

module _ (d : Decimals) (c : Caller) (id : ℕ) (q price : ℤ) (a : Db) where
  -- On a warehouse in balance, a purchase line of a quantity that is not negative brings, where it goes
  -- through, that quantity to the item, moves no other item, and leaves the warehouse in balance.
  pub apply_purchase_line-Moves :
      (ref_id : Option ℕ) (meta : LotMeta) (r : Unit {0}) (b : Db)
      → IsBalanced a
      → pos 0 ≤ℤ q
      → apply_purchase_line d c id q price ref_id meta a ≡ ok (r, b)
      → Moves c.workspace id q a b
  unfolding apply_purchase_line
  apply_purchase_line-Moves ref_id meta r b v h e =
      let (it, found, go) = locked c.workspace id _ a (r, b) e in
      receipt-Moves d
        (record (new_lot c.workspace id q price LotSource.purchase (or_now c meta.received_at)) {
          source_id = ref_id;
          purchase_line = meta.purchase_line;
          supplier = meta.supplier;
          account = meta.account;
        })
        (new_movement c.workspace id MovementType.purchase q (it.qty +ℤ q) (some price)
          (some RefType.purchase) ref_id)
        a v found h refl (refl, refl, refl) (cc)

module _ (d : Decimals) (c : Caller) (id : ℕ) (q : ℤ) (a : Db) where
  -- On a warehouse in balance, a return with no ledger, of a quantity that is not negative and to an
  -- item that is there, brings the quantity to the item, moves no other item, and leaves the warehouse
  -- in balance.
  pub restock-Moves :
      (order : Option ℕ) (cost : Option ℤ) (it : Item)
      → IsBalanced a
      → pos 0 ≤ℤ q
      → find_by_id c.workspace id a ≡ some it
      → Moves c.workspace id q a (restock d c id q order cost a)
  unfolding restock
  restock-Moves order cost it v h found =
      receipt-Moves d
        (record (new_lot c.workspace id q (or_average d it cost) LotSource.return_customer c.now) {
          source_id = order;
        })
        (new_movement c.workspace id MovementType.return_customer q (it.qty +ℤ q)
          (some (or_average d it cost)) (some RefType.order) order)
        a v found h refl (refl, refl, refl) (ground (arith, found))

  surplus-Moves :
      (new_qty cost : ℤ) (it : Item)
      → IsBalanced a
      → pos 0 ≤ℤ q
      → find_by_id c.workspace id a ≡ some it
      → Moves c.workspace id q a (add_surplus d c id q new_qty cost a)
  unfolding add_surplus
  surplus-Moves new_qty cost it v h found =
      receipt-Moves d (new_lot c.workspace id q cost LotSource.adjustment c.now)
        (new_movement c.workspace id MovementType.adjustment q new_qty (some cost)
          (some RefType.adjust) none)
        a v found h refl (refl, refl, refl) refl

unmoved : (ws id : ℕ) (q : ℤ) (a b : Db) → IsBalanced a → q ≡ pos 0 → b ≡ a → Moves ws id q a b
unmoved ws id q a b v zero same = record {
  balanced = subst IsBalanced (sym same) v;
  held = λ w i. rw (same, zero) (nothing (w == ws && i == id) (lot_qty w i a));
}
  where
    nothing : (t : Bool) (x : ℤ) → x ≡ x +ℤ (if t then pos 0 else pos 0)
    nothing true x = sym (+ℤ_zero x)
    nothing false x = sym (+ℤ_zero x)

neg-neg : (x : ℤ) → neg (neg x) ≡ x
unfolding ◌-ℤ◌
neg-neg x = ground (arith)

arrives : (w i : ℕ) (x y n z : ℤ) → y ≡ x → z ≡ x +ℤ at_item w i (n -ℤ y) w i → z ≡ n
unfolding ◌+ℤ◌ ◌-ℤ◌
arrives w i x y n z same e = ground (arith, same, e)

module _ (d : Decimals) (c : Caller) (id : ℕ) (new_qty : ℤ) (cost : Option ℤ) (a : Db) where
  -- A stock-taking of an item that has been read moves its stock by what the count differs from the
  -- cache.
  adjust_item-Moves :
      (it : Item) (r : Unit {0}) (b : Db)
      → IsBalanced a
      → find_by_id c.workspace id a ≡ some it
      → adjust_item d c id it new_qty cost a ≡ ok (r, b)
      → Moves c.workspace id (new_qty -ℤ it.qty) a b
  unfolding adjust_item
  adjust_item-Moves it r b v found e =
      let delta = new_qty -ℤ it.qty in
      elim (Bool-cases (eqb_ℤ delta (pos 0))) [
        | inl same ↦
            unmoved c.workspace id delta a b v (ground (arith, same)) (ground (arith, same, e))
        | inr differs ↦ elim (Bool-cases (ltb_ℤ delta (pos 0))) [
          | inl less ↦
              let c' =
                consuming c.workspace id it.qty (neg delta) MovementType.adjustment none
                  RefType.adjust none in
              let os = lock_open_lots c.workspace id a in
              let (total, mid, spent, done) =
                bind-ok (consume_lots d c' os) (λ _. pure tt) {db = a} {r = (r, b)}
                  (ground (arith, differs, less, e)) in
              let m =
                consume-Moves d c' os a total mid v found
                  (lock_open_lots-DistinctOpen c.workspace id a v.store.distinct)
                  (lock_open_lots-Backs c.workspace id a v.store.distinct) spent in
              subst (λ z. Moves c.workspace id z a b) (neg-neg delta)
                (subst (Moves c.workspace id (neg (neg delta)) a) (cc) m)
          | inr more ↦ elim (Option-cases (surplus_cost d c id it cost a)) [
            | inl missing ↦ absurd (ground (arith, differs, more, missing, e))
            | inr (price, known) ↦
                let m =
                  surplus-Moves d c id delta a new_qty price it v (ground (arith, more)) found in
                subst (Moves c.workspace id delta a) (ground (arith, differs, more, known, e)) m
          ]
        ]
      ]

  -- On a warehouse in balance, a stock-taking that goes through leaves the counted quantity on the item:
  -- it moves the item by what the count differs from the lots, moves no other item, and leaves the
  -- warehouse in balance.
  pub adjust-Moves :
      (r : Unit {0}) (b : Db)
      → IsBalanced a
      → adjust d c id new_qty cost a ≡ ok (r, b)
      → (lot_qty c.workspace id b ≡ new_qty)
        × Moves c.workspace id (new_qty -ℤ lot_qty c.workspace id a) a b
  unfolding adjust
  adjust-Moves r b v e =
      let (it, found, go) = locked c.workspace id _ a (r, b) e in
      let m = adjust_item-Moves it r b v found go in
      let same = cache_agrees c.workspace id a v found in
      let here = m.held c.workspace id in
      (
        arrives c.workspace id (lot_qty c.workspace id a) it.qty new_qty (lot_qty c.workspace id b)
            same here,
        subst (λ z. Moves c.workspace id (new_qty -ℤ z) a b) same m,
      )
