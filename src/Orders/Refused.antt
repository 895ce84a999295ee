-- ===== src/Orders/Refused.antt =====
-- An order that was deleted (apps/api/src/orders/order.service.ts, `remove`) takes no call any more.
use construct_fin.Prelude.{
  ℕ, ◌≡◌, ◌⊎◌, refl, ap, ◌∙◌, inl, inr, Option, some, none, List, [], ◌∷◌, ℤ, arith, All,
}
use mathlib.Core.Path.{subst}
use construct_fin.Prelude.Result.{ok, err, Result-cases}
use construct_fin.Decimal.{Decimals}
use construct_fin.Warehouse.State.{Caller}
use construct_fin.Orders.State.{Order, OrderError, Books}
use construct_fin.Orders.Calls.{Call, ◌>>=◌}
use construct_fin.Orders.Repository.{find_order, lock_and_load}
use construct_fin.Orders.Payments.{
  add_payment, add_installment_payment, delete_payment, set_schedule,
}
use construct_fin.Orders.Edit.{edit_order, add_external_items, remove_external_items, or_no_items}
use construct_fin.Warehouse.Stock.{or_kept}
use construct_fin.Orders.Shipping.{ship, return_item}
use construct_fin.Orders.Closing.{finalize, cancel, reopen, remove_order}
use construct_fin.Orders.Rows.{Ensures, Rows, after_guard, after_check}
use construct_fin.Orders.Writes.{assert_order_account-LooksOnly}
use construct_fin.Orders.Changing.{assert_order_refs-LooksOnly}
use construct_fin.Orders.Sound.{SoundIfLive}
use construct_fin.Orders.Undoing.{remove_order-Removed}
use construct_fin.Orders.Serving.{
  OrderCall, take_order, edit, add_external, remove_external, pay, pay_by_installments, unpay,
  plan_payments, ship_line, return_line, close, cancel_order, reopen_order, delete_order, call_of,
  Request, serve, serve_all,
}

-- The order that a call is about. Taking an order is about none.
abbrev pub order_of : OrderCall → Option ℕ
order_of (take_order year client discount items) = none
order_of (edit id client discount items) = some id
order_of (add_external id items) = some id
order_of (remove_external id lines) = some id
order_of (pay id amount account date) = some id
order_of (pay_by_installments id amount fee account date) = some id
order_of (unpay id tx) = some id
order_of (plan_payments id entries) = some id
order_of (ship_line id line q) = some id
order_of (return_line id line q refund account date) = some id
order_of (close id closed_on) = some id
order_of (cancel_order id) = some id
order_of (reopen_order id) = some id
order_of (delete_order id) = some id

-- `removeExternalItems` of no line answers before it loads the order.
abbrev pub RemovesNothing : OrderCall → Type 0
RemovesNothing call = (id : ℕ) × (call ≡ remove_external id [])

-- A call that does not go through where the order is not found.
abbrev Refused : ℕ → ℕ → Call (Unit {0}) → Type 0
Refused ws id m = Ensures (λ b. find_order ws id b ≡ none) m (λ _ b. ⊥)

abbrev RefusedOwn : ℕ → Option ℕ → Call (Unit {0}) → Type 0
RefusedOwn ws none m = Unit
RefusedOwn ws (some id) m = Refused ws id m

Refused-load : (ws id : ℕ) (f : Order → Call (Unit {0})) → Refused ws id (lock_and_load ws id >>= f)
unfolding ◌>>=◌ lock_and_load
Refused-load ws id f = record { at = λ a r b gone e. ground (arith, gone, e) }

module _ (d : Decimals) (c : Caller) (end_of_day : ℤ) where
  refused :
      (call : OrderCall)
      → RemovesNothing call ⊎ RefusedOwn c.workspace (order_of call) (call_of d c end_of_day call)
  unfolding call_of edit_order add_external_items remove_external_items add_payment
      add_installment_payment delete_payment set_schedule ship return_item finalize cancel reopen
      remove_order
  refused (take_order year client discount items) = inr (tt)
  refused (edit id client discount items) = inr (
      after_check _ _
        (assert_order_refs-LooksOnly c.workspace (or_kept client none) (or_no_items items))
        (Refused-load c.workspace id _))
  refused (add_external id items) = inr (Refused-load c.workspace id _)
  refused (remove_external id []) = inl (id, refl)
  refused (remove_external id (k ∷ ks)) = inr (Refused-load c.workspace id _)
  refused (pay id amount account date) = inr (
      after_guard _ _ _ λ _. after_guard _ _ _ λ _.
        after_check _ _ (assert_order_account-LooksOnly c.workspace account)
          (Refused-load c.workspace id _))
  refused (pay_by_installments id amount fee account date) = inr (
      after_guard _ _ _ λ _. after_guard _ _ _ λ _. after_guard _ _ _ λ _.
        after_check _ _ (assert_order_account-LooksOnly c.workspace account)
          (Refused-load c.workspace id _))
  refused (unpay id tx) = inr (Refused-load c.workspace id _)
  refused (plan_payments id entries) = inr (Refused-load c.workspace id _)
  refused (ship_line id line q) = inr (after_guard _ _ _ λ _. Refused-load c.workspace id _)
  refused (return_line id line q refund account date) = inr (
      after_guard _ _ _ λ _. after_guard _ _ _ λ _.
        after_check _ _ (assert_order_account-LooksOnly c.workspace account)
          (after_guard _ _ _ λ _. Refused-load c.workspace id _))
  refused (close id closed_on) = inr (after_guard _ _ _ λ _. Refused-load c.workspace id _)
  refused (cancel_order id) = inr (Refused-load c.workspace id _)
  refused (reopen_order id) = inr (Refused-load c.workspace id _)
  refused (delete_order id) = inr (Refused-load c.workspace id _)

-- A request about an order that its workspace does not hold changes nothing.
module _ (d : Decimals) (ws id : ℕ) (b : Books) (lost : find_order ws id b ≡ none) where
  abbrev pub Unserved : Request → Type 0
  Unserved q =
      RemovesNothing q.call
      ⊎ ((e : OrderError) × (call_of d q.caller q.end_of_day q.call b ≡ err e))

  unserved : (q : Request) → q.caller.workspace ≡ ws → order_of q.call ≡ some id → Unserved q
  unserved q home about = elim (refused d q.caller q.end_of_day q.call) [
    | inl nothing ↦ inl nothing
    | inr own ↦
        let moved =
          subst (λ k. RefusedOwn k (order_of q.call) (call_of d q.caller q.end_of_day q.call)) home
            own in
        let rule =
          subst (λ k. RefusedOwn ws k (call_of d q.caller q.end_of_day q.call)) about moved in
        elim (Result-cases (call_of d q.caller q.end_of_day q.call b)) [
          | inl ((s, e), went) ↦ absurd (rule.at b s e lost went)
          | inr (e, threw) ↦ inr (e, threw)
        ]
  ]

  nothing_served : (q : Request) → RemovesNothing q.call → serve d q b ≡ b
  unfolding serve call_of remove_external_items
  nothing_served q (k, e) = rw e refl

  unchanged : (q : Request) → Unserved q → serve d q b ≡ b
  unfolding serve
  unchanged q (inl nothing) = nothing_served q nothing
  unchanged q (inr (e, threw)) = rw threw refl

  all-Unserved :
      (requests : List Request)
      → All (λ q. (q.caller.workspace ≡ ws) × (order_of q.call ≡ some id)) requests
      → (serve_all d requests b ≡ b) × All Unserved requests
  unfolding serve_all
  all-Unserved [] h = (refl, tt)
  all-Unserved (q ∷ qs) ((home, about), h) =
      let first = unserved q home about in
      let (same, rest) = all-Unserved qs h in
      (ap (serve_all d qs) (unchanged q first) ∙ same, (first, rest))

-- Once deleting an order of books in which every live order is sound has gone through, whatever calls
-- about the order are made one after another, by any callers of the workspace at any time, none changes
-- the books, and on the books after the deletion each is refused with an error, but for one that removes
-- no line.
pub removed_order_refused :
    (d : Decimals) (c : Caller) (id : ℕ) (o : Order) (a : Books) (r : Unit {0}) (b : Books)
    (requests : List Request)
    → Rows (SoundIfLive d) a
    → find_order c.workspace id a ≡ some o
    → remove_order d c id a ≡ ok (r, b)
    → All (λ q. (q.caller.workspace ≡ c.workspace) × (order_of q.call ≡ some id)) requests
    → (serve_all d requests b ≡ b)
      × All
          (λ q.
            RemovesNothing q.call
            ⊎ ((e : OrderError) × (call_of d q.caller q.end_of_day q.call b ≡ err e)))
          requests
removed_order_refused d c id o a r b requests p found gone about =
    let (rows, lost) = (remove_order-Removed d c id o).at a r b (p, found) gone in
    all-Unserved d c.workspace id b lost requests about
