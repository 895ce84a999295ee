-- ===== src/Warehouse/SupplierReturns.antt =====
-- Every outcome of `supplierReturn` (apps/api/src/warehouse/warehouse.service.ts) on a warehouse in
-- balance.
use construct_fin.Prelude.{
  ℕ, ◌≡◌, refl, sym, ◌∙◌, ap, inl, inr, not, Bool, Option, none, some, List, [], ◌∷◌, arith,
  int_laws, ℤ, pos, neg, ◌+ℤ◌, ◌≤ℤ◌, ◌<ℤ◌, ltb_ℤ, Bool-cases, Option-cases, keep, sum_by-append,
}
use mathlib.Core.Path.{subst}
use construct_fin.Prelude.Result.{Result, ok, err, Result-cases}
use construct_fin.Decimal.{Decimals, money}
use construct_fin.Fifo.{consume_plan, FifoError, OpenLot}
use construct_fin.Fifo.Plans.{Consumed, held, consume_plan_outcome}
use construct_fin.Warehouse.State.{
  Item, Db, Caller, WarehouseError, MovementType, RefType, AuditAction, Transaction,
  TransactionKind, item_not_found, account_not_found, supplier_not_found, insufficient_stock,
  insufficient_reversible, not_positive, no_consumptions, cost_required, cost_already_set,
  empty_stock, cost_not_positive, stock_left, no_account, in_the_future, lot_consumed, lot_changed,
  ◌>>◌, throw_when,
}
use construct_fin.Warehouse.Repository.{
  find_by_id, lock_for_update, lock_open_lots, lot_qty, is_key,
}
use construct_fin.Warehouse.Consume.{modify, consuming, consume_lots}
use construct_fin.Warehouse.Stock.{assert_supplier}
use construct_fin.Warehouse.Valuation.{record_audit, create_transaction}
use construct_fin.Warehouse.Trade.{or_now}
use construct_fin.Warehouse.Returns.{
  supplier_return, supplier_first, give_back, assert_account, or_default,
}
use construct_fin.Warehouse.Balance.{IsBalanced, cache_agrees}
use construct_fin.Warehouse.Keeps.{Moves}
use construct_fin.Warehouse.Calls.{
  passes, finds, continues, stops, blocks, HasItem, HasParty, HasSupplier, found_item, missing_item,
  account_checked, supplier_checked,
}
use construct_fin.Warehouse.Suppliers.{supplier_return-Moves}
use construct_fin.Warehouse.Sales.{held-lock_open_lots}
use construct_fin.Warehouse.Losses.{consumes}

held-parted :
    (p : OpenLot → Bool) (os : List OpenLot)
    → held (keep p os) +ℤ held (keep (λ o. not (p o)) os) ≡ held os
held-parted p [] = omega int_laws
held-parted p (o ∷ os) = elim (Bool-cases (p o)) [
  | inl first ↦ rw (first, ← held-parted p os) (omega int_laws)
  | inr later ↦ rw (later, ← held-parted p os) (omega int_laws)
]

-- Putting the lots of a supplier first loses none of the stock.
held-supplier_first : (s : Option ℕ) (os : List OpenLot) → held (supplier_first s os) ≡ held os
unfolding supplier_first
held-supplier_first none os = refl
held-supplier_first (some s) os =
    sum_by-append (λ o. o.qty_remaining) (keep (λ l. is_key l.supplier s) os) _
    ∙ held-parted (λ l. is_key l.supplier s) os

-- A plan for a positive quantity that the lots hold is never refused.
plans :
    (os : List OpenLot) (q : ℤ) (f : FifoError)
    → pos 0 <ℤ q
    → q ≤ℤ held os
    → Consumed os q (err f)
    → ⊥
plans os q construct_fin.Fifo.not_positive wanted enough h = omega (arith, wanted, h)
plans os q (construct_fin.Fifo.insufficient_stock has asked) wanted enough (_, short, eh, er) =
    omega (arith, enough, short)
plans os q (construct_fin.Fifo.insufficient_reversible has asked) wanted enough h = absurd h

-- What a return of `q` of an item to the supplier has done, by how it ended.
module _ (ws id : ℕ) (q date end_of_day : ℤ) (account : ℕ) (supplier : Option ℕ) (a : Db) where
  abbrev pub Found : Type 0
  Found = HasItem ws id a × HasParty ws account a.accounts × HasSupplier ws supplier a

  abbrev pub GivenUp : Result WarehouseError (Unit {0} × Db) → Type 0
  GivenUp (ok (r, b)) =
      Found × (pos 0 <ℤ q) × (q ≤ℤ lot_qty ws id a) × (date ≤ℤ end_of_day) × Moves ws id (neg q) a b
  GivenUp (err item_not_found) = ¬ HasItem ws id a
  GivenUp (err account_not_found) = ¬ HasParty ws account a.accounts
  GivenUp (err supplier_not_found) = ¬ HasSupplier ws supplier a
  GivenUp (err not_positive) = Found × (q ≤ℤ pos 0)
  GivenUp (err in_the_future) = Found × (end_of_day <ℤ date)
  GivenUp (err (insufficient_stock has asked)) =
      Found × (lot_qty ws id a <ℤ q) × (has ≡ lot_qty ws id a) × (asked ≡ q)
  GivenUp (err (insufficient_reversible has asked)) = ⊥
  GivenUp (err no_account) = ⊥
  GivenUp (err no_consumptions) = ⊥
  GivenUp (err cost_required) = ⊥
  GivenUp (err cost_already_set) = ⊥
  GivenUp (err empty_stock) = ⊥
  GivenUp (err cost_not_positive) = ⊥
  GivenUp (err (stock_left qty)) = ⊥
  GivenUp (err lot_consumed) = ⊥
  GivenUp (err lot_changed) = ⊥

module _ (d : Decimals) (c : Caller) (id : ℕ) (q refund : ℤ) (account : ℕ) (supplier : Option ℕ)
    (date : Option ℤ) (a : Db) where
  -- Behind the guards nothing fails: the lots hold what goes back.
  gives_back :
      (it : Item)
      → pos 0 <ℤ q
      → q ≤ℤ lot_qty c.workspace id a
      → (b : Db) × (give_back d c it id q refund account supplier date a ≡ ok (tt, b))
  unfolding give_back record_audit create_transaction lot_qty
  gives_back it wanted enough =
      let t : Transaction = record {
        id = 0;
        workspace = c.workspace;
        date = or_now c date;
        amount = money d 0 refund;
        kind = TransactionKind.supplier_refund;
        account = account;
        counterparty = or_default supplier it;
      } in
      let a' = create_transaction t a in
      let c' =
        consuming c.workspace id it.qty q MovementType.return_supplier none RefType.transaction
          (some a.next_id) in
      let os = supplier_first supplier (lock_open_lots c.workspace id a') in
      let stock : held os ≡ lot_qty c.workspace id a =
        held-supplier_first supplier (lock_open_lots c.workspace id a')
        ∙ held-lock_open_lots c.workspace id a' in
      elim (Result-cases (consume_plan os q)) [
        | inr (f, bad) ↦ absurd (
            plans os q f wanted (rw stock enough)
              (subst (Consumed os q) bad (consume_plan_outcome os q)))
        | inl (p, good) ↦
            let (total, mid, run, _) = consumes d c' os p a' good in
            (
              _,
              continues (consume_lots d c' os)
                  (modify (record_audit AuditAction.supplier_return id q (money d 0 refund))) a'
                  run,
            )
      ]

  module _ (end_of_day : ℤ) (v : IsBalanced a) where
    abbrev Ends : Result WarehouseError (Unit {0} × Db) → Type 0
    Ends = GivenUp c.workspace id q (or_now c date) end_of_day account supplier a

    ended : {x e : Result WarehouseError (Unit {0} × Db)} → x ≡ e → Ends e → Ends x
    ended same h = subst Ends (sym same) h

    -- The guards on the quantity, the date and the stock, for an item that is found.
    guards_end :
        (it : Item)
        → find_by_id c.workspace id a ≡ some it
        → Found c.workspace id q (or_now c date) end_of_day account supplier a
        → let act = give_back d c it id q refund account supplier date in
          let short = throw_when (ltb_ℤ it.qty q) (insufficient_stock it.qty q) >> act in
          let future = throw_when (ltb_ℤ end_of_day (or_now c date)) in_the_future >> short in
          let positive = throw_when (not (ltb_ℤ (pos 0) q)) not_positive >> future in
          supplier_return d c end_of_day id q refund account supplier date a ≡ positive a
          → Ends (supplier_return d c end_of_day id q refund account supplier date a)
    guards_end it found there start =
        let act = give_back d c it id q refund account supplier date in
        let short = throw_when (ltb_ℤ it.qty q) (insufficient_stock it.qty q) >> act in
        let future = throw_when (ltb_ℤ end_of_day (or_now c date)) in_the_future >> short in
        let cached = cache_agrees c.workspace id a v found in
        elim (Bool-cases (ltb_ℤ (pos 0) q)) [
          | inr unmet ↦
              ended
                (start ∙ blocks {bad = not (ltb_ℤ (pos 0) q)} not_positive future a (ap not unmet))
                (there, ground (arith, unmet))
          | inl wanted ↦
              let e1 =
                start
                ∙ passes {bad = not (ltb_ℤ (pos 0) q)} not_positive future a (ap not wanted) in
              elim (Bool-cases (ltb_ℤ end_of_day (or_now c date))) [
                | inl late ↦
                    ended (e1 ∙ blocks in_the_future short a late) (there, ground (arith, late))
                | inr in_time ↦
                    let e2 = e1 ∙ passes in_the_future short a in_time in
                    elim (Bool-cases (ltb_ℤ it.qty q)) [
                      | inl missing ↦
                          ended (e2 ∙ blocks (insufficient_stock it.qty q) act a missing)
                            (there, ground (arith, missing, cached), cached, refl)
                      | inr enough ↦
                          let e3 = e2 ∙ passes (insufficient_stock it.qty q) act a enough in
                          let stocked : q ≤ℤ lot_qty c.workspace id a =
                            ground (arith, enough, cached) in
                          let positive : pos 0 <ℤ q = ground (arith, wanted) in
                          let (b, run) = gives_back it positive stocked in
                          ended (e3 ∙ run) (
                            there,
                            positive,
                            stocked,
                            ground (arith, in_time),
                            supplier_return-Moves d c id q refund account end_of_day supplier date a
                                tt b v (e3 ∙ run),
                          )
                    ]
              ]
        ]

    -- On a warehouse in balance a return to the supplier goes through exactly where the item, the account
    -- and the supplier, if one is named, are there, the quantity is positive and in stock, and the date is
    -- not after the day. Then the quantity leaves the item, and no other item moves. Otherwise it is
    -- refused with the reason, and with the stock where that is too small.
    pub supplier_return_outcome :
        GivenUp c.workspace id q
          (or_now c date)
          end_of_day
          account
          supplier
          a
          (supplier_return d c end_of_day id q refund account supplier date a)
    unfolding supplier_return lock_for_update
    supplier_return_outcome =
        let guards = λ (it : Item).
          throw_when (not (ltb_ℤ (pos 0) q)) not_positive
          >> (throw_when (ltb_ℤ end_of_day (or_now c date)) in_the_future
              >> (throw_when (ltb_ℤ it.qty q) (insufficient_stock it.qty q)
                  >> give_back d c it id q refund account supplier date)) in
        let supplied = λ (it : Item). assert_supplier c.workspace supplier >> guards it in
        let checks = λ (it : Item). assert_account c.workspace account >> supplied it in
        let ret = supplier_return d c end_of_day id q refund account supplier date in
        elim (Option-cases (find_by_id c.workspace id a)) [
          | inl missing ↦
              ended {x = ret a} {e = err item_not_found} (ground (arith, missing))
                (missing_item c.workspace id a missing)
          | inr (it, found) ↦
              let e1 : ret a ≡ checks it a = finds c.workspace id checks a found in
              elim (account_checked c.workspace account a) [
                | inr (bad, none_there) ↦
                    ended {x = ret a}
                      (e1 ∙ stops (assert_account c.workspace account) (supplied it) a bad)
                      none_there
                | inl (good, account_there) ↦
                    let e2 =
                      e1 ∙ continues (assert_account c.workspace account) (supplied it) a good in
                    elim (supplier_checked c.workspace supplier a) [
                      | inr (bad, none_there) ↦
                          ended {x = ret a}
                            (e2 ∙ stops (assert_supplier c.workspace supplier) (guards it) a bad)
                            none_there
                      | inl (fine, supplier_there) ↦
                          guards_end it found
                            (found_item c.workspace id a found, account_there, supplier_there)
                            (e2
                              ∙ continues (assert_supplier c.workspace supplier) (guards it) a fine)
                    ]
              ]
        ]
