-- ===== src/Warehouse/Losses.antt =====
-- Every outcome of `writeOff` (apps/api/src/warehouse/warehouse.service.ts) on a warehouse in balance.
use construct_fin.Prelude.{
  ℕ, ◌≡◌, refl, sym, ◌∙◌, ap, inl, inr, not, Option, none, some, List, [], ◌∷◌, arith, ℤ, pos, neg,
  ◌-ℤ◌, ◌≤ℤ◌, ◌<ℤ◌, ltb_ℤ, Bool-cases, Option-cases, false, AnyOf, find-not-AnyOf,
}
use mathlib.Core.Path.{subst}
use construct_fin.Prelude.Result.{Result, ok, err, Result-cases}
use construct_fin.Decimal.{Decimals, money}
use construct_fin.Fifo.{consume_plan, FifoError, Plan, ConsumeStep, OpenLot}
use construct_fin.Fifo.Plans.{Consumed, consume_plan_outcome}
use construct_fin.Warehouse.State.{
  Item, Db, Caller, WarehouseError, MovementType, RefType, AuditAction, ConsumptionKind,
  item_not_found, account_not_found, supplier_not_found, insufficient_stock,
  insufficient_reversible, not_positive, no_consumptions, cost_required, cost_already_set,
  empty_stock, cost_not_positive, stock_left, no_account, in_the_future, lot_consumed, lot_changed,
  ◌>>◌, ◌>>=◌, gets,
}
use construct_fin.Warehouse.Repository.{
  find_by_id, lock_for_update, lock_open_lots, lot_qty, record_movement, record_consumption,
  update_lot_remaining, update_cache,
}
use construct_fin.Warehouse.Consume.{
  Consuming, new_movement, weighted_unit_cost, remaining_by_id, modify, consuming, consume_lots,
  consume_steps, recompute_caches, put, or_zero, of_fifo,
}
use construct_fin.Warehouse.Valuation.{write_off, book_loss, first_account, record_audit}
use construct_fin.Warehouse.Balance.{IsBalanced}
use construct_fin.Warehouse.Keeps.{Moves}
use construct_fin.Warehouse.Calls.{
  HasItem, found_item, missing_item, refused_first, passes, finds, goes_on,
}
use construct_fin.Warehouse.Operations.{write_off-Moves}
use construct_fin.Warehouse.Sales.{held-lock_open_lots}

consume_steps_accounts :
    (c : Consuming) (movement : ℕ) (steps : List ConsumeStep) (m : ℕ → Option ℤ) (db : Db)
    → (consume_steps c movement steps m db).accounts ≡ db.accounts
unfolding consume_steps record_consumption update_lot_remaining
consume_steps_accounts c movement [] m db = refl
consume_steps_accounts c movement (s ∷ steps) m db =
    let after = or_zero (m s.lot_id) -ℤ s.qty in
    consume_steps_accounts c movement steps (put s.lot_id after m) (
      record_consumption
        (record {
          id = 0;
          workspace = c.workspace;
          lot = s.lot_id;
          movement = movement;
          order_item = c.order_item;
          qty = s.qty;
          unit_cost = s.unit_cost;
          kind = ConsumptionKind.consume;
          reversal_of = none;
        })
        (update_lot_remaining s.lot_id after db))

-- A plan is carried out, and the accounts stay.
pub consumes :
    (d : Decimals) (c : Consuming) (os : List OpenLot) (p : Plan ConsumeStep) (a : Db)
    → consume_plan os c.consume_qty ≡ ok p
    → (total : ℤ) × (mid : Db) × (consume_lots d c os a ≡ ok (total, mid))
      × (mid.accounts ≡ a.accounts)
unfolding consume_lots recompute_caches update_cache record_movement
consumes d c os p a good =
    let moved =
      record_movement
        (new_movement c.workspace c.item c.kind (neg c.consume_qty) (c.cached_qty -ℤ c.consume_qty)
          (some (weighted_unit_cost d p.total_cost c.consume_qty)) c.ref_type c.ref_id)
        a in
    let same = consume_steps_accounts c a.next_id p.steps (remaining_by_id os (λ k. none)) moved in
    elim (Result-cases (consume_lots d c os a)) [
      | inr (e, bad) ↦ absurd (ground (arith, good, bad))
      | inl ((total, mid), run) ↦ (total, mid, run, ground (arith, good, run, same))
    ]

-- Booking a loss fails only where there is no account.
booking_refused :
    (c : Caller) (loss : ℤ) (a : Db) {e : WarehouseError}
    → book_loss c loss a ≡ err e
    → (e ≡ no_account) × (first_account c.workspace a ≡ none)
unfolding book_loss
booking_refused c loss a bad = elim (Bool-cases (ltb_ℤ (pos 0) loss)) [
  | inl some_loss ↦ elim (Option-cases (first_account c.workspace a)) [
    | inl missing ↦ (ground (arith, some_loss, missing, bad), missing)
    | inr (acc, found) ↦ absurd (ground (arith, some_loss, found, bad))
  ]
  | inr no_loss ↦ absurd (ground (arith, no_loss, bad))
]

no_first_account :
    (ws : ℕ) (a : Db)
    → first_account ws a ≡ none
    → ¬ AnyOf (λ p. (p.workspace ≡ ws) × (p.deleted ≡ false) × (p.is_archived ≡ false)) a.accounts
no_first_account ws a e = find-not-AnyOf _ _ (λ p h. ground (arith, h)) a.accounts e

-- What a write-off of `q` of an item has done, by how it ended.
abbrev pub WrittenOff : ℕ → ℕ → ℤ → Db → Result WarehouseError (Unit {0} × Db) → Type 0
WrittenOff ws id q a (ok (r, b)) =
    HasItem ws id a × (pos 0 <ℤ q) × (q ≤ℤ lot_qty ws id a) × Moves ws id (neg q) a b
WrittenOff ws id q a (err not_positive) = q ≤ℤ pos 0
WrittenOff ws id q a (err item_not_found) = (pos 0 <ℤ q) × ¬ HasItem ws id a
WrittenOff ws id q a (err (insufficient_stock has asked)) =
    HasItem ws id a × (pos 0 <ℤ q) × (lot_qty ws id a <ℤ q) × (has ≡ lot_qty ws id a) × (asked ≡ q)
WrittenOff ws id q a (err no_account) =
    HasItem ws id a
    × (pos 0 <ℤ q)
    × (q ≤ℤ lot_qty ws id a)
    × ¬ AnyOf (λ p. (p.workspace ≡ ws) × (p.deleted ≡ false) × (p.is_archived ≡ false)) a.accounts
WrittenOff ws id q a (err account_not_found) = ⊥
WrittenOff ws id q a (err supplier_not_found) = ⊥
WrittenOff ws id q a (err (insufficient_reversible has asked)) = ⊥
WrittenOff ws id q a (err no_consumptions) = ⊥
WrittenOff ws id q a (err cost_required) = ⊥
WrittenOff ws id q a (err cost_already_set) = ⊥
WrittenOff ws id q a (err empty_stock) = ⊥
WrittenOff ws id q a (err cost_not_positive) = ⊥
WrittenOff ws id q a (err (stock_left qty)) = ⊥
WrittenOff ws id q a (err in_the_future) = ⊥
WrittenOff ws id q a (err lot_consumed) = ⊥
WrittenOff ws id q a (err lot_changed) = ⊥

module _ (d : Decimals) (c : Caller) (id : ℕ) (q : ℤ) (a : Db) where
  refused :
      (f : FifoError)
      → HasItem c.workspace id a
      → pos 0 <ℤ q
      → Consumed (lock_open_lots c.workspace id a) q (err f)
      → WrittenOff c.workspace id q a (err (of_fifo f))
  refused construct_fin.Fifo.not_positive there wanted h = h
  refused (construct_fin.Fifo.insufficient_stock has asked) there wanted (_, short, eh, er) =
      let same = held-lock_open_lots c.workspace id a in
      (there, wanted, rw (← same) short, eh ∙ same, er)
  refused (construct_fin.Fifo.insufficient_reversible has asked) there wanted h = absurd h

  -- A write-off that has a plan goes through, or finds no account to book the loss on.
  writes_off :
      (it : Item) (p : Plan ConsumeStep)
      → IsBalanced a
      → pos 0 <ℤ q
      → q ≤ℤ lot_qty c.workspace id a
      → find_by_id c.workspace id a ≡ some it
      → consume_plan (lock_open_lots c.workspace id a) q ≡ ok p
      → WrittenOff c.workspace id q a (write_off d c id q a)
  unfolding write_off lock_for_update
  writes_off it p v wanted enough found good =
      let c' =
        consuming c.workspace id it.qty q MovementType.write_off none RefType.write_off none in
      let os = lock_open_lots c.workspace id a in
      let (total, mid, run, same) = consumes d c' os p a good in
      let book = λ (t : ℤ).
        book_loss c (money d 5 t)
        >> modify (record_audit AuditAction.write_off id q (money d 5 t)) in
      let take = λ (i : Item). (do
        lots ← gets (lock_open_lots c.workspace id)
        total ←
            consume_lots d
              (consuming c.workspace id i.qty q MovementType.write_off none RefType.write_off none)
              lots
        book total) in
      let rest : write_off d c id q a ≡ book total mid =
        passes {bad = not (ltb_ℤ (pos 0) q)} not_positive _ a (ground (arith, wanted))
        ∙ finds c.workspace id take a found
        ∙ goes_on (consume_lots d c' os) book a run in
      elim (Result-cases (write_off d c id q a)) [
        | inl ((r, b), done) ↦ subst (WrittenOff c.workspace id q a) (sym done) (
          found_item c.workspace id a found,
          wanted,
          enough,
          write_off-Moves d c id q a r b v done,
        )
        | inr (e, bad) ↦
            let booking = refused_first (book_loss c (money d 5 total)) _ mid (sym rest ∙ bad) in
            let (reason, none_left) = booking_refused c (money d 5 total) mid booking in
            subst (WrittenOff c.workspace id q a) (sym (bad ∙ ap err reason)) (
              found_item c.workspace id a found,
              wanted,
              enough,
              no_first_account c.workspace a (rw (← same) none_left),
            )
      ]

  -- On a warehouse in balance, a write-off goes through, or finds no account to book the loss on, where
  -- the quantity is positive, the item is there and the stock suffices: then it takes the quantity from
  -- the item and touches no other. Otherwise it is refused with the reason.
  pub write_off_outcome : IsBalanced a → WrittenOff c.workspace id q a (write_off d c id q a)
  unfolding write_off lock_for_update consume_lots
  write_off_outcome v = elim (Bool-cases (ltb_ℤ (pos 0) q)) [
    | inr unmet ↦
        let run : write_off d c id q a ≡ err not_positive = ground (arith, unmet) in
        subst (WrittenOff c.workspace id q a) (sym run) (ground (arith, unmet))
    | inl positive ↦
        let wanted : pos 0 <ℤ q = ground (arith, positive) in
        elim (Option-cases (find_by_id c.workspace id a)) [
          | inl missing ↦
              let run : write_off d c id q a ≡ err item_not_found =
                ground (arith, positive, missing) in
              subst (WrittenOff c.workspace id q a) (sym run)
                (wanted, missing_item c.workspace id a missing)
          | inr (it, found) ↦
              let os = lock_open_lots c.workspace id a in
              let outcome = consume_plan_outcome os q in
              elim (Result-cases (consume_plan os q)) [
                | inr (f, bad) ↦
                    let run : write_off d c id q a ≡ err (of_fifo f) =
                      ground (arith, positive, found, bad) in
                    subst (WrittenOff c.workspace id q a) (sym run) (
                      refused f (found_item c.workspace id a found) wanted
                        (subst (Consumed os q) bad outcome))
                | inl (p, good) ↦
                    let (_, enough, covers) = subst (Consumed os q) good outcome in
                    writes_off it p v wanted (rw (← held-lock_open_lots c.workspace id a) enough)
                      found good
              ]
        ]
  ]
