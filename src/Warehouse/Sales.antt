-- ===== src/Warehouse/Sales.antt =====
-- Every outcome of `decrementForSale` (apps/api/src/warehouse/warehouse.service.ts) on a warehouse in
-- balance.
use construct_fin.Prelude.{
  ℕ, ◌≡◌, refl, sym, ◌∙◌, ap, inl, inr, Option, some, List, [], ◌∷◌, arith, ℤ, pos, neg, ◌+ℤ◌, ◌≤ℤ◌,
  ◌<ℤ◌, leb_ℤ, keep, sum_by, sum_by-map, Bool-cases, Option-cases, int_laws,
}
use mathlib.Core.Path.{subst}
use construct_fin.Prelude.Result.{Result, ok, err, Result-cases}
use construct_fin.Decimal.{Decimals}
use construct_fin.Fifo.{consume_plan, FifoError, Plan, ConsumeStep}
use construct_fin.Fifo.Plans.{Consumed, held, consume_plan_outcome}
use construct_fin.Warehouse.State.{
  Item, Lot, Db, Caller, WarehouseError, item_not_found, account_not_found, supplier_not_found,
  insufficient_stock, insufficient_reversible, not_positive, no_consumptions, cost_required,
  cost_already_set, empty_stock, cost_not_positive, stock_left, no_account, in_the_future,
  lot_consumed, lot_changed,
}
use construct_fin.Warehouse.Repository.{
  find_by_id, lock_for_update, lock_open_lots, lot_qty, insert_lot, by_received, is_open, to_open,
}
use construct_fin.Warehouse.Consume.{consume_lots, of_fifo}
use construct_fin.Warehouse.Trade.{decrement_for_sale}
use construct_fin.Warehouse.Balance.{IsBalanced}
use construct_fin.Warehouse.Keeps.{Moves}
use construct_fin.Warehouse.Calls.{HasItem, found_item, missing_item}
use construct_fin.Warehouse.Operations.{decrement_for_sale-Moves}

sum_by-insert_lot :
    (f : Lot → ℤ) (l : Lot) (ls : List Lot) → sum_by f (insert_lot l ls) ≡ f l +ℤ sum_by f ls
unfolding insert_lot
sum_by-insert_lot f l [] = refl
sum_by-insert_lot f l (m ∷ ms) = elim (Bool-cases (leb_ℤ l.received_at m.received_at)) [
  | inl before ↦ rw before refl
  | inr after ↦ rw (after, sum_by-insert_lot f l ms) (omega int_laws)
]

sum_by-by_received : (f : Lot → ℤ) (ls : List Lot) → sum_by f (by_received ls) ≡ sum_by f ls
unfolding by_received
sum_by-by_received f [] = refl
sum_by-by_received f (l ∷ ls) =
    sum_by-insert_lot f l (by_received ls) ∙ ap (λ z. f l +ℤ z) (sum_by-by_received f ls)

-- The open lots hold the stock of the item.
pub held-lock_open_lots : (ws id : ℕ) (db : Db) → held (lock_open_lots ws id db) ≡ lot_qty ws id db
unfolding lock_open_lots lot_qty
held-lock_open_lots ws id db =
    sum_by-map (λ o. o.qty_remaining) to_open (by_received (keep (is_open ws id) db.lots))
    ∙ sum_by-by_received (λ l. l.qty_remaining) (keep (is_open ws id) db.lots)

-- What a sale of `q` of an item has done, by how it ended.
abbrev pub Sold : ℕ → ℕ → ℤ → Db → Result WarehouseError ((ℤ × ℤ) × Db) → Type 0
Sold ws id q a (ok ((n, total), b)) =
    HasItem ws id a × (n ≡ q) × (pos 0 <ℤ q) × (q ≤ℤ lot_qty ws id a) × Moves ws id (neg q) a b
Sold ws id q a (err item_not_found) = ¬ HasItem ws id a
Sold ws id q a (err not_positive) = HasItem ws id a × (q ≤ℤ pos 0)
Sold ws id q a (err (insufficient_stock has asked)) =
    HasItem ws id a × (lot_qty ws id a <ℤ q) × (has ≡ lot_qty ws id a) × (asked ≡ q)
Sold ws id q a (err account_not_found) = ⊥
Sold ws id q a (err supplier_not_found) = ⊥
Sold ws id q a (err (insufficient_reversible has asked)) = ⊥
Sold ws id q a (err no_consumptions) = ⊥
Sold ws id q a (err cost_required) = ⊥
Sold ws id q a (err cost_already_set) = ⊥
Sold ws id q a (err empty_stock) = ⊥
Sold ws id q a (err cost_not_positive) = ⊥
Sold ws id q a (err (stock_left qty)) = ⊥
Sold ws id q a (err no_account) = ⊥
Sold ws id q a (err in_the_future) = ⊥
Sold ws id q a (err lot_consumed) = ⊥
Sold ws id q a (err lot_changed) = ⊥

module _ (d : Decimals) (c : Caller) (id : ℕ) (q : ℤ) (order line : Option ℕ) (a : Db) where
  refused :
      (f : FifoError)
      → HasItem c.workspace id a
      → Consumed (lock_open_lots c.workspace id a) q (err f)
      → Sold c.workspace id q a (err (of_fifo f))
  refused construct_fin.Fifo.not_positive there h = (there, h)
  refused (construct_fin.Fifo.insufficient_stock has asked) there (wanted, short, eh, er) =
      let same = held-lock_open_lots c.workspace id a in (there, rw (← same) short, eh ∙ same, er)
  refused (construct_fin.Fifo.insufficient_reversible has asked) there h = absurd h

  sells :
      (it : Item) (p : Plan ConsumeStep)
      → find_by_id c.workspace id a ≡ some it
      → consume_plan (lock_open_lots c.workspace id a) q ≡ ok p
      → (n total : ℤ) × (b : Db) × (decrement_for_sale d c id q order line a ≡ ok ((n, total), b))
        × (n ≡ q)
  unfolding decrement_for_sale lock_for_update consume_lots
  sells it p found good = elim (Result-cases (decrement_for_sale d c id q order line a)) [
    | inr (e, bad) ↦ absurd (ground (arith, found, good, bad))
    | inl (((n, total), b), run) ↦ (n, total, b, run, ground (arith, found, good, run))
  ]

  -- On a warehouse in balance a sale goes through exactly where the item is there, the quantity is
  -- positive and the stock suffices: it answers with the quantity, takes it from the item, and touches
  -- no other. Otherwise it is refused with the reason, and with the stock where that is too small.
  pub decrement_for_sale_outcome :
      IsBalanced a → Sold c.workspace id q a (decrement_for_sale d c id q order line a)
  unfolding decrement_for_sale lock_for_update consume_lots
  decrement_for_sale_outcome v = elim (Option-cases (find_by_id c.workspace id a)) [
    | inl missing ↦
        let run : decrement_for_sale d c id q order line a ≡ err item_not_found =
          ground (arith, missing) in
        subst (Sold c.workspace id q a) (sym run) (missing_item c.workspace id a missing)
    | inr (it, found) ↦
        let os = lock_open_lots c.workspace id a in
        let outcome = consume_plan_outcome os q in
        elim (Result-cases (consume_plan os q)) [
          | inr (f, bad) ↦
              let run : decrement_for_sale d c id q order line a ≡ err (of_fifo f) =
                ground (arith, found, bad) in
              subst (Sold c.workspace id q a) (sym run)
                (refused f (found_item c.workspace id a found) (subst (Consumed os q) bad outcome))
          | inl (p, good) ↦
              let (n, total, b, run, all) = sells it p found good in
              let (wanted, enough, covers) = subst (Consumed os q) good outcome in
              subst (Sold c.workspace id q a) (sym run) (
                found_item c.workspace id a found,
                all,
                wanted,
                rw (← held-lock_open_lots c.workspace id a) enough,
                decrement_for_sale-Moves d c id q a order line (n, total) b v run,
              )
        ]
  ]
