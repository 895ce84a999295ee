-- ===== src/Orders/Undoing.antt =====
-- Undoing a closing (apps/api/src/orders/order.service.ts: reverseFinalization, cancel, reopen, remove)
-- keeps every order sound, and what each call leaves of its order.
use construct_fin.Prelude.{ℕ, ◌≡◌, refl, sym, true, some, none, List, [], arith, All, All-map}
use mathlib.Core.Path.{subst}
use construct_fin.Decimal.{Decimals}
use construct_fin.Sorting.{sort}
use construct_fin.Warehouse.State.{Caller}
use construct_fin.Orders.State.{
  open_order, cancelled, Order, OrderItem, OrderAction, Books, not_closed,
}
use construct_fin.Orders.Calls.{Call, ◌>>◌}
use construct_fin.Orders.Repository.{find_order}
use construct_fin.Orders.Payments.{
  resolve_payment_state, net_revenue, synced, is_cancelled, release_lines,
}
use construct_fin.Orders.Shipping.{by_warehouse_item}
use construct_fin.Orders.Closing.{reverse_finalization, cancel, reopen, remove_order}
use construct_fin.Orders.Rows.{
  after_load_of, lost, Ensures, Rows, AtRow, and_then, after_guard, after_load, weaken, settle_row,
}
use construct_fin.Orders.Writes.{
  audit_ends, Leaves, Leaves-row, SomeLines, from_lines, from_any, from_pre, unless_ends,
  after_write, after_beside, write_ends, end_audit,
}
use construct_fin.Orders.Sound.{synced-Sound, LineSound, Sound, SoundIfLive, live-Sound, Sound-live}
use construct_fin.Orders.Taking.{
  Leaves-synced, sync_audit_ends, end_sync_audit, delete_txs-KeepsKeys,
}
use construct_fin.Orders.Progress.{finished}
use construct_fin.Orders.Undone.{
  NoMoreOut, NoneOut, UndoneLines, undone_order, undone_starts, undone_paid, undone_lines,
  cancelled-Sound, restore_lines-Undone,
}

abbrev reopened_order : Order → List OrderItem → Order
reopened_order o is = record (undone_order o is) { status = open_order; closed_at = none }

-- What cancelling leaves of an order: nothing is out, and what was paid is still paid.
abbrev pub CancelledFrom : Order → Order → Type 0
CancelledFrom o p = (p.status ≡ cancelled) × All NoneOut p.items × (p.paid_amount ≡ o.paid_amount)

-- What reopening leaves of an order: nothing is out, and the payments stand.
abbrev pub ReopenedFrom : Decimals → Order → Order → Type 0
ReopenedFrom d o p =
    (p.status ≡ open_order)
    × All NoneOut p.items
    × (p.paid_amount ≡ o.paid_amount)
    × (p.payment_status ≡ resolve_payment_state p.paid_amount (net_revenue d p))

module _ (d : Decimals) (c : Caller) where
  reverse_at :
      (o : Order)
      → Sound d o
      → Ensures (AtRow (SoundIfLive d) o.id o) (reverse_finalization d c o) (λ _ b.
        (is : List OrderItem) × UndoneLines [] is
        × AtRow (SoundIfLive d) o.id (undone_order o is) b)
  unfolding reverse_finalization
  reverse_at o s =
      and_then _ _ _
        (from_pre (SomeLines (SoundIfLive d) (UndoneLines (sort by_warehouse_item o.items)) o.id o)
          _ (λ b v. (o.items, undone_starts d o s, v))
          (restore_lines-Undone d c o.id o o.status (sort by_warehouse_item o.items)))
        λ _. from_lines _ o.id o _ λ is p.
          after_write (SoundIfLive d) o.id _ _ _ (delete_txs-KeepsKeys _) (
            weaken _ _ _
              (write_ends (SoundIfLive d) o.id _ _
                (record { same = λ q. refl; lines = λ n q h. h }))
              (λ r b v. (is, p, v)))

  -- What comes after the undoing works on the order that is undone.
  after_reversal :
      {B : Type 0} {R : B → Books → Type 0} (id : ℕ) (o : Order) (m : Call B)
      → Sound d o
      → o.id ≡ id
      → ((is : List OrderItem)
          → UndoneLines [] is
          → Ensures (AtRow (SoundIfLive d) id (undone_order o is)) m R)
      → Ensures (AtRow (SoundIfLive d) id o) (reverse_finalization d c o >> m) R
  after_reversal id o m s key k =
      and_then _ _ _
        (subst
          (λ j. Ensures (AtRow (SoundIfLive d) j o) (reverse_finalization d c o) (λ _ b.
            (is : List OrderItem) × UndoneLines [] is
            × AtRow (SoundIfLive d) j (undone_order o is) b))
          key (reverse_at o s))
        λ _. from_any (UndoneLines []) (undone_order o) id m k

  already_cancelled : (o : Order) → Sound d o → o.status ≡ cancelled → CancelledFrom o o
  already_cancelled o s off = (
    off,
    All-map (LineSound cancelled) NoneOut (λ i (back, out, low). (back, out)) o.items
        (subst (λ t. All (LineSound t) o.items) off s.lines),
    refl,
  )

  cancelled_again : (o : Order) → is_cancelled o.status ≡ true → o.status ≡ cancelled
  cancelled_again o h = ground (arith, h)

  pub cancel-Cancelled :
      (id : ℕ) (o : Order)
      → Ensures
          (λ b. Rows (SoundIfLive d) b × (find_order c.workspace id b ≡ some o))
          (cancel d c id)
          (λ _ b. Rows (SoundIfLive d) b × Leaves c.workspace id (CancelledFrom o) b)
  unfolding cancel
  cancel-Cancelled id o = after_load_of (SoundIfLive d) c.workspace id o _ λ s key home live.
      let whole = live-Sound d o s live in
      unless_ends (λ b. Rows (SoundIfLive d) b × Leaves c.workspace id (CancelledFrom o) b)
        (is_cancelled o.status) _
        (λ off b v.
          Leaves-row c.workspace id o (CancelledFrom o) b home live s
            (already_cancelled o whole (cancelled_again o off)) v)
        λ _. after_reversal id o _ whole key λ is p.
          after_write (SoundIfLive d) id _ _ _ (record { same = λ q. refl; lines = λ n q h. h })
            (weaken _ _ _ (audit_ends (SoundIfLive d) id _ OrderAction.cancel id) (λ r b v.
              Leaves-row c.workspace id _ (CancelledFrom o) b home live
                (Sound-live d _ (cancelled-Sound d o whole is p))
                (refl, finished NoMoreOut NoneOut is p.progress.goal, refl) v))

  pub cancel-Rows :
      (id : ℕ) → Ensures (Rows (SoundIfLive d)) (cancel d c id) (λ _ b. Rows (SoundIfLive d) b)
  unfolding cancel
  cancel-Rows id = after_load (SoundIfLive d) c.workspace id _ λ o s key live.
      unless_ends (Rows (SoundIfLive d)) (is_cancelled o.status) _
        (λ _ b v. settle_row (SoundIfLive d) id o b s v)
        λ _. after_reversal id o _ (live-Sound d o s live) key λ is p.
          after_write (SoundIfLive d) id _ _ _ (record { same = λ q. refl; lines = λ n q h. h })
            (end_audit (SoundIfLive d) id _ OrderAction.cancel id
              (Sound-live d _ (cancelled-Sound d o (live-Sound d o s live) is p)))

  pub reopen-Rows :
      (id : ℕ) → Ensures (Rows (SoundIfLive d)) (reopen d c id) (λ _ b. Rows (SoundIfLive d) b)
  unfolding reopen
  reopen-Rows id = after_load (SoundIfLive d) c.workspace id _ λ o s key live.
      after_guard _ not_closed _ λ _.
        let v = live-Sound d o s live in
        after_reversal id o _ v key λ is p.
          after_write (SoundIfLive d) id _ _ _ (record { same = λ q. refl; lines = λ n q h. h })
            (end_sync_audit d id (reopened_order o is) OrderAction.reopen id v.total v.discount
              (undone_lines d o v (LineSound open_order) is p
                (λ i (back, out) low. (back, ground (arith, out), ground (arith, out, low))))
              p.apart)

  reopened_lines :
      (o : Order)
      → Sound d o
      → (is : List OrderItem) → UndoneLines [] is
      → All (LineSound open_order) is
  reopened_lines o s is p =
      undone_lines d o s (LineSound open_order) is p
        (λ i (back, out) low. (back, ground (arith, out), ground (arith, out, low)))

  reopened_from :
      (o : Order)
      → Sound d o
      → (is : List OrderItem) → UndoneLines [] is
      → ReopenedFrom d o (synced d (reopened_order o is))
  unfolding synced
  reopened_from o s is p =
      (refl, finished NoMoreOut NoneOut is p.progress.goal, sym (undone_paid d o s is), refl)

  pub reopen-Reopened :
      (id : ℕ) (o : Order)
      → Ensures
          (λ b. Rows (SoundIfLive d) b × (find_order c.workspace id b ≡ some o))
          (reopen d c id)
          (λ _ b. Rows (SoundIfLive d) b × Leaves c.workspace id (ReopenedFrom d o) b)
  unfolding reopen
  reopen-Reopened id o = after_load_of (SoundIfLive d) c.workspace id o _ λ s key home live.
      after_guard _ not_closed _ λ _.
        let whole = live-Sound d o s live in
        after_reversal id o _ whole key λ is p.
          after_write (SoundIfLive d) id _ _ _ (record { same = λ q. refl; lines = λ n q h. h })
            (weaken _ _ _ (sync_audit_ends d id (reopened_order o is) OrderAction.reopen id)
              (λ r b v.
                Leaves-synced d id (reopened_order o is) c.workspace (ReopenedFrom d o) b home live
                  (synced-Sound d (reopened_order o is) whole.total whole.discount
                    (reopened_lines o whole is p) p.apart)
                  (reopened_from o whole is p) v))

  pub remove_order-Removed :
      (id : ℕ) (o : Order)
      → Ensures
          (λ b. Rows (SoundIfLive d) b × (find_order c.workspace id b ≡ some o))
          (remove_order d c id)
          (λ _ b. Rows (SoundIfLive d) b × (find_order c.workspace id b ≡ none))
  unfolding remove_order release_lines
  remove_order-Removed id o = after_load_of (SoundIfLive d) c.workspace id o _ λ s key home live.
      after_reversal id o _ (live-Sound d o s live) key λ is p.
        after_write (SoundIfLive d) id _ _ _ (delete_txs-KeepsKeys _) (
          after_beside (SoundIfLive d) id _ (release_lines c.workspace o.transactions) _
            (λ b. (refl, omega arith))
            (after_write (SoundIfLive d) id _ _ _ (record { same = λ q. refl; lines = λ n q h. h })
              (weaken _ _ _ (audit_ends (SoundIfLive d) id _ OrderAction.delete id) (λ r b v. (
                settle_row (SoundIfLive d) id _ b tt v,
                lost (SoundIfLive d) c.workspace id _ b refl v,
              )))))

  pub remove_order-Rows :
      (id : ℕ)
      → Ensures (Rows (SoundIfLive d)) (remove_order d c id) (λ _ b. Rows (SoundIfLive d) b)
  unfolding remove_order release_lines
  remove_order-Rows id = after_load (SoundIfLive d) c.workspace id _ λ o s key live.
      after_reversal id o _ (live-Sound d o s live) key λ is p.
        after_write (SoundIfLive d) id _ _ _ (delete_txs-KeepsKeys _) (
          after_beside (SoundIfLive d) id _ (release_lines c.workspace o.transactions) _
            (λ b. (refl, omega arith))
            (after_write (SoundIfLive d) id _ _ _ (record { same = λ q. refl; lines = λ n q h. h })
              (end_audit (SoundIfLive d) id _ OrderAction.delete id tt)))
