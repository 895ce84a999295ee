-- ===== src/Warehouse/Suppliers.antt =====
-- The return of goods to the supplier keeps the warehouse in balance
-- (apps/api/src/warehouse/warehouse.service.ts, `supplierReturn`).

use construct_fin.Prelude.{
  ℕ, suc, Bool, not, Option, none, some, List, [], ◌∷◌, ◌++◌, ℤ, pos, neg, ltb_ℤ, find, keep,
}
use construct_fin.Prelude.Result.{ok}
use construct_fin.Decimal.{Decimals, money}
use construct_fin.Fifo.{OpenLot}
use construct_fin.Warehouse.State.{
  Item, MovementType, RefType, Transaction, TransactionKind, AuditAction, Db, Caller, not_positive,
  in_the_future, insufficient_stock, M, ◌>>◌, throw_when,
}
use construct_fin.Warehouse.Repository.{find_by_id, is_key, lock_open_lots, lot_qty}
use construct_fin.Warehouse.Consume.{modify, consuming, consume_lots}
use mathlib.Core.Path.{subst}
use construct_fin.Prelude.{◌<◌, All-map, ◌≡◌, sym, inl, inr, arith, All, Bool-cases, Option-cases}
use construct_fin.Warehouse.State.{bind-ok}
use construct_fin.Warehouse.Stock.{is_active, assert_supplier}
use construct_fin.Warehouse.Valuation.{record_audit, create_transaction}
use construct_fin.Warehouse.Trade.{or_now}
use construct_fin.Warehouse.Returns.{supplier_return, supplier_first}
use construct_fin.Warehouse.OpenLots.{lock_open_lots-DistinctOpen, lock_open_lots-Backs}
use construct_fin.Warehouse.Consumed.{DistinctOpen}
use construct_fin.Warehouse.Balance.{IsBalanced}
use construct_fin.Warehouse.Keeps.{Moves, beside, consume-Moves, locked, guarded}
use construct_fin.Warehouse.OpenLots.{All-keep}
use construct_fin.Warehouse.Returns.{give_back, assert_account, or_default}
use construct_fin.Prelude.{All-append, ◌≢◌}

DistinctOpen-insert :
    (xs ys : List OpenLot) (o : OpenLot)
    → All (λ p. p.id ≢ o.id) (xs ++ ys)
    → DistinctOpen (xs ++ ys)
    → DistinctOpen (xs ++ o ∷ ys)
DistinctOpen-insert [] ys o f d = (f, d)
DistinctOpen-insert (x ∷ xs) ys o (f, fs) (g, d) = (among xs g, DistinctOpen-insert xs ys o fs d)
  where
    among :
        (zs : List OpenLot)
        → All (λ p. p.id ≢ x.id) (zs ++ ys)
        → All (λ p. p.id ≢ x.id) (zs ++ o ∷ ys)
    among [] h = ((λ e. f (sym e)), h)
    among (z ∷ zs) (q, h) = (q, among zs h)

module _ (p : OpenLot → Bool) where
  -- The lots that pass a test before those that do not.
  parted : List OpenLot → List OpenLot
  parted os = keep p os ++ keep (λ o. not (p o)) os

  All-parted : (P : OpenLot → Type 0) (os : List OpenLot) → All P os → All P (parted os)
  unfolding parted
  All-parted P os h =
      All-append P (keep p os) _ (All-keep p P os h) (All-keep (λ o. not (p o)) P os h)

  DistinctOpen-parted : (os : List OpenLot) → DistinctOpen os → DistinctOpen (parted os)
  unfolding parted
  DistinctOpen-parted [] d = tt
  DistinctOpen-parted (o ∷ os) (fresh, d) =
      let rest = DistinctOpen-parted os d in
      let far = All-parted (λ q. q.id ≢ o.id) os fresh in
      elim (Bool-cases (p o)) [
        | inl first ↦ rw first (far, rest)
        | inr later ↦
            rw later (DistinctOpen-insert (keep p os) (keep (λ q. not (p q)) os) o far rest)
      ]

supplier_first-DistinctOpen :
    (s : Option ℕ) (os : List OpenLot) → DistinctOpen os → DistinctOpen (supplier_first s os)
unfolding supplier_first parted
supplier_first-DistinctOpen none os d = d
supplier_first-DistinctOpen (some s) os d = DistinctOpen-parted (λ l. is_key l.supplier s) os d

All-supplier_first :
    (P : OpenLot → Type 0) (s : Option ℕ) (os : List OpenLot)
    → All P os
    → All P (supplier_first s os)
unfolding supplier_first parted
All-supplier_first P none os h = h
All-supplier_first P (some s) os h = All-parted (λ l. is_key l.supplier s) P os h

-- A check that returns has changed nothing.
abbrev ReadsOnly : M (Unit {0}) → Type 0
ReadsOnly m = (a b : Db) (u : Unit {0}) → m a ≡ ok (u, b) → b ≡ a

checked :
    {A : Type 0} (m : M (Unit {0})) (k : M A) {a : Db} {r : A × Db}
    → ReadsOnly m
    → (m >> k) a ≡ ok r
    → k a ≡ ok r
checked m k {a} {r} reads e =
    let (u, mid, done, more) = bind-ok m (λ _. k) {db = a} e in
    subst (λ z. k z ≡ ok r) (reads a mid u done) more

assert_account-ReadsOnly : (ws id : ℕ) → ReadsOnly (assert_account ws id)
unfolding assert_account
assert_account-ReadsOnly ws id a b u e = elim (Option-cases (find (is_active ws id) a.accounts)) [
  | inl missing ↦ absurd (ground (arith, missing, e))
  | inr (x, found) ↦ ground (arith, found, e)
]

assert_supplier-ReadsOnly : (ws : ℕ) (id : Option ℕ) → ReadsOnly (assert_supplier ws id)
unfolding assert_supplier
assert_supplier-ReadsOnly ws none a b u e = ground (arith, e)
assert_supplier-ReadsOnly ws (some id) a b u e =
    elim (Option-cases (find (is_active ws id) a.suppliers)) [
      | inl missing ↦ absurd (ground (arith, missing, e))
      | inr (x, found) ↦ ground (arith, found, e)
    ]

-- A transaction in the books leaves the balance of the warehouse alone.
create_transaction-IsBalanced :
    (t : Transaction) (a : Db) → IsBalanced a → IsBalanced (create_transaction t a)
unfolding create_transaction lot_qty
create_transaction-IsBalanced t a v = record {
  store = record {
    distinct = v.store.distinct;
    nonneg = v.store.nonneg;
    below = All-map _ (λ l. l.id < suc a.next_id) (λ l p. omega arith) a.lots v.store.below;
  };
  distinct_items = v.distinct_items;
  agree = v.agree;
}

kept_items :
    (ws id : ℕ) (t : Transaction) (a : Db) {it : Item}
    → find_by_id ws id a ≡ some it
    → find_by_id ws id (create_transaction t a) ≡ some it
unfolding create_transaction find_by_id
kept_items ws id t a e = e

-- What moved since the booking moved since before it.
since :
    (ws id : ℕ) (q : ℤ) (t : Transaction) (a b : Db)
    → Moves ws id q (create_transaction t a) b
    → Moves ws id q a b
unfolding create_transaction lot_qty
since ws id q t a b m = record { balanced = m.balanced; held = m.held }

module _ (d : Decimals) (c : Caller) (id : ℕ) (q refund : ℤ) (account : ℕ) where
  give_back-Moves :
      (it : Item) (supplier : Option ℕ) (date : Option ℤ) (a : Db) {r : Unit {0}} (b : Db)
      → IsBalanced a
      → find_by_id c.workspace id a ≡ some it
      → give_back d c it id q refund account supplier date a ≡ ok (r, b)
      → Moves c.workspace id (neg q) a b
  unfolding give_back record_audit
  give_back-Moves it supplier date a {r} b v found e =
      let t : Transaction = record {
        id = 0;
        workspace = c.workspace;
        date = or_now c date;
        amount = money d 0 refund;
        kind = TransactionKind.supplier_refund;
        account = account;
        counterparty = or_default supplier it;
      } in
      let a' = create_transaction t a in
      let v' = create_transaction-IsBalanced t a v in
      let c' =
        consuming c.workspace id it.qty q MovementType.return_supplier none RefType.transaction
          (some a.next_id) in
      let os = supplier_first supplier (lock_open_lots c.workspace id a') in
      let (total, mid, spent, audit) =
        bind-ok (consume_lots d c' os)
          (λ _. modify (record_audit AuditAction.supplier_return id q (money d 0 refund))) {db = a'}
          {r = (r, b)} e in
      let m =
        consume-Moves d c' os a' total mid v' (kept_items c.workspace id t a found)
          (supplier_first-DistinctOpen supplier _
            (lock_open_lots-DistinctOpen c.workspace id a' v'.store.distinct))
          (All-supplier_first _ supplier _
            (lock_open_lots-Backs c.workspace id a' v'.store.distinct))
          spent in
      since c.workspace id (neg q) t a b (
        beside c.workspace id (neg q) a' mid b m (ground (arith, audit)) (ground (arith, audit))
          (ground (arith, audit)) (ground (arith, audit)))

  -- On a warehouse in balance, a return to the supplier that goes through takes its quantity from the
  -- item, moves no other item, and leaves the warehouse in balance.
  pub supplier_return-Moves :
      (end_of_day : ℤ) (supplier : Option ℕ) (date : Option ℤ) (a : Db) (r : Unit {0}) (b : Db)
      → IsBalanced a
      → supplier_return d c end_of_day id q refund account supplier date a ≡ ok (r, b)
      → Moves c.workspace id (neg q) a b
  unfolding supplier_return
  supplier_return-Moves end_of_day supplier date a r b v e =
      let (it, found, e1) = locked c.workspace id _ a (r, b) e in
      let act = give_back d c it id q refund account supplier date in
      let short = throw_when (ltb_ℤ it.qty q) (insufficient_stock it.qty q) >> act in
      let future = throw_when (ltb_ℤ end_of_day (or_now c date)) in_the_future >> short in
      let e2 =
        checked (assert_account c.workspace account) _ {a = a} {r = (r, b)}
          (assert_account-ReadsOnly c.workspace account) e1 in
      let e3 =
        checked (assert_supplier c.workspace supplier) _ {a = a} {r = (r, b)}
          (assert_supplier-ReadsOnly c.workspace supplier) e2 in
      let (_, e4) = guarded (not (ltb_ℤ (pos 0) q)) not_positive future {a = a} {r = (r, b)} e3 in
      let (_, e5) =
        guarded (ltb_ℤ end_of_day (or_now c date)) in_the_future short {a = a} {r = (r, b)} e4 in
      let (_, e6) =
        guarded (ltb_ℤ it.qty q) (insufficient_stock it.qty q) act {a = a} {r = (r, b)} e5 in
      give_back-Moves it supplier date a b v found e6
