-- ===== src/Orders/Outcomes.antt =====
-- What the calls of apps/api/src/orders/order.service.ts that end an order leave behind, and what
-- calling them again does.
use construct_fin.Prelude.{ℕ, ◌≡◌, inl, inr, false, Option, some, ℤ, ltb_ℤ, arith, Bool-cases}
use construct_fin.Prelude.Result.{ok}
use construct_fin.Decimal.{Decimals}
use construct_fin.Warehouse.State.{Caller}
use construct_fin.Warehouse.Trade.{or_now}
use construct_fin.Orders.State.{Order, Books}
use construct_fin.Orders.Calls.{◌>>=◌}
use construct_fin.Orders.Repository.{find_order, lock_and_load}
use construct_fin.Orders.Closing.{finalize, cancel, reopen}
use construct_fin.Orders.Rows.{Rows}
use construct_fin.Orders.Writes.{Leaves}
use construct_fin.Orders.Sound.{SoundIfLive}
use construct_fin.Orders.Closed.{ClosedFrom, finalize-Closed}
use construct_fin.Orders.Undoing.{CancelledFrom, ReopenedFrom, cancel-Cancelled, reopen-Reopened}

module _ (d : Decimals) (c : Caller) (id : ℕ) (o : Order) (a : Books) (r : Unit {0})
    (b : Books) where
  -- Closing an order of books in which every live order is sound, where it goes through, leaves every
  -- live order sound and this one done: each of its lines is shipped in full, and what is paid and the
  -- payment state are as they were.
  pub finalize_outcome :
      (end_of_day : ℤ) (closed_on : Option ℤ)
      → Rows (SoundIfLive d) a
      → find_order c.workspace id a ≡ some o
      → finalize d c end_of_day id closed_on a ≡ ok (r, b)
      → Rows (SoundIfLive d) b × Leaves c.workspace id (ClosedFrom o) b
  finalize_outcome end_of_day closed_on p found e =
      (finalize-Closed d c id end_of_day closed_on o).at a r b (p, found) e

  -- Cancelling an order of such books, where it goes through, leaves every live order sound and this one
  -- cancelled: nothing of its lines is shipped or returned, and what is paid stays.
  pub cancel_outcome :
      Rows (SoundIfLive d) a
      → find_order c.workspace id a ≡ some o
      → cancel d c id a ≡ ok (r, b)
      → Rows (SoundIfLive d) b × Leaves c.workspace id (CancelledFrom o) b
  cancel_outcome p found e = (cancel-Cancelled d c id o).at a r b (p, found) e

  -- Reopening an order of such books, where it goes through, leaves every live order sound and this one
  -- open: nothing of its lines is shipped or returned, what is paid stays, and the payment state is that
  -- of the amount paid and of the net revenue.
  pub reopen_outcome :
      Rows (SoundIfLive d) a
      → find_order c.workspace id a ≡ some o
      → reopen d c id a ≡ ok (r, b)
      → Rows (SoundIfLive d) b × Leaves c.workspace id (ReopenedFrom d o) b
  reopen_outcome p found e = (reopen-Reopened d c id o).at a r b (p, found) e

  finalize_guard :
      (end_of_day : ℤ) (closed_on : Option ℤ)
      → finalize d c end_of_day id closed_on a ≡ ok (r, b)
      → ltb_ℤ end_of_day (or_now c closed_on) ≡ false
  unfolding finalize ◌>>=◌
  finalize_guard end_of_day closed_on e =
      elim (Bool-cases (ltb_ℤ end_of_day (or_now c closed_on))) [
        | inl late ↦ absurd (ground (arith, late, e))
        | inr fine ↦ fine
      ]

  -- Where closing an order of such books goes through, closing it again goes through and changes
  -- nothing.
  pub finalize_twice :
      (end_of_day : ℤ) (closed_on : Option ℤ)
      → Rows (SoundIfLive d) a
      → find_order c.workspace id a ≡ some o
      → finalize d c end_of_day id closed_on a ≡ ok (r, b)
      → finalize d c end_of_day id closed_on b ≡ ok (tt, b)
  unfolding finalize ◌>>=◌ lock_and_load
  finalize_twice end_of_day closed_on p found e =
      let (rows, (o', again, q)) = finalize_outcome end_of_day closed_on p found e in
      let fine = finalize_guard end_of_day closed_on e in ground (arith, fine, again, q)

  -- Where cancelling an order of such books goes through, cancelling it again goes through and changes
  -- nothing.
  pub cancel_twice :
      Rows (SoundIfLive d) a
      → find_order c.workspace id a ≡ some o
      → cancel d c id a ≡ ok (r, b)
      → cancel d c id b ≡ ok (tt, b)
  unfolding cancel ◌>>=◌ lock_and_load
  cancel_twice p found e =
      let (rows, (o', again, q)) = cancel_outcome p found e in ground (arith, again, q)
