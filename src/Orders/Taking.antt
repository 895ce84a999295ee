-- ===== src/Orders/Taking.antt =====
-- The calls of apps/api/src/orders/order.service.ts that take and undo payments keep every order sound.
use construct_fin.Prelude.{
  ℕ, ◌<◌, ◌≡◌, refl, Bool, true, false, Option, List, [], ◌∷◌, arith, ℤ, pos, ◌-ℤ◌, ◌≤ℤ◌, ltb_ℤ,
  All, All-map, if◌then◌else◌,
}
use construct_fin.Decimal.{Decimals}
use construct_fin.Warehouse.State.{Caller}
use construct_fin.Orders.State.{
  Order, OrderTx, OrderAction, Books, amount_not_positive, fee_not_below_amount, in_the_future,
  order_cancelled, not_deletable, payment_not_found,
}
use construct_fin.Orders.Calls.{Call, ◌>>◌, modify}
use construct_fin.Orders.Repository.{create_order_tx, record_order_audit}
use construct_fin.Orders.Payments.{
  synced, sync_payment_state, delete_txs, release_lines, add_payment, add_installment_payment,
  delete_payment, scheduled, set_schedule, net_revenue,
}
use construct_fin.Orders.Rows.{
  Ensures, weaken, settle_row, Rows, AtRow, after_guard, after_check, after_load, after_or_throw,
}
use construct_fin.Orders.Writes.{
  KeepsKeys, assert_order_account-LooksOnly, after_write, after_tx, after_keys, after_beside,
  end_write, audit_ends, Leaves, Leaves-row, end_audit,
}
use construct_fin.Orders.Sound.{
  Sound, SoundIfLive, LineSound, DistinctLines, live-Sound, Sound-live, synced-Sound,
}

pub synced-KeepsKeys : (d : Decimals) → KeepsKeys (synced d)
unfolding synced
synced-KeepsKeys d = record { same = λ o. refl; lines = λ n o h. h }

module _ (d : Decimals) (id : ℕ) (o : Order) where
  -- A call that ends by putting the amounts right, and the entry in the audit after it.
  pub end_sync :
      o.total_amount ≡ o.subtotal -ℤ o.discount_amount
      → o.discount_amount ≤ℤ o.subtotal
      → All (LineSound o.status) o.items
      → DistinctLines o.items
      → Ensures
          (AtRow (SoundIfLive d) id o)
          (modify (sync_payment_state d id))
          (λ _ b. Rows (SoundIfLive d) b)
  unfolding sync_payment_state
  end_sync total discount lines keys =
      end_write (SoundIfLive d) id o (synced d) (synced-KeepsKeys d)
        (Sound-live d _ (synced-Sound d o total discount lines keys))

  pub sync_audit_ends :
      (action : OrderAction) (entity : ℕ)
      → Ensures
          (AtRow (SoundIfLive d) id o)
          (modify (sync_payment_state d id) >> modify (record_order_audit action entity))
          (λ _ b. AtRow (SoundIfLive d) id (synced d o) b)
  unfolding sync_payment_state
  sync_audit_ends action entity =
      after_write (SoundIfLive d) id o (synced d) _ (synced-KeepsKeys d)
        (audit_ends (SoundIfLive d) id _ action entity)

  pub end_sync_audit :
      (action : OrderAction) (entity : ℕ)
      → o.total_amount ≡ o.subtotal -ℤ o.discount_amount
      → o.discount_amount ≤ℤ o.subtotal
      → All (LineSound o.status) o.items
      → DistinctLines o.items
      → Ensures
          (AtRow (SoundIfLive d) id o)
          (modify (sync_payment_state d id) >> modify (record_order_audit action entity))
          (λ _ b. Rows (SoundIfLive d) b)
  end_sync_audit action entity total discount lines keys =
      weaken _ _ _ (sync_audit_ends action entity) (λ r b v.
        settle_row (SoundIfLive d) id _ b
          (Sound-live d _ (synced-Sound d o total discount lines keys)) v)

  pub Leaves-synced :
      (ws : ℕ) (Q : Order → Type 0) (b : Books)
      → o.workspace ≡ ws
      → o.deleted ≡ false
      → Sound d (synced d o)
      → Q (synced d o)
      → AtRow (SoundIfLive d) id (synced d o) b
      → Rows (SoundIfLive d) b × Leaves ws id Q b
  unfolding synced
  Leaves-synced ws Q b home live s q v =
      Leaves-row ws id (synced d o) Q b home live (Sound-live d (synced d o) s) q v

  pub after_tx_if :
      {B : Type 0} {R : B → Books → Type 0} (test : Bool) (t : OrderTx) (m : Call B)
      → ((ts : List OrderTx)
          → Ensures (AtRow (SoundIfLive d) id (record o { transactions = ts })) m R)
      → Ensures
          (AtRow (SoundIfLive d) id o)
          (modify (λ b. if test then create_order_tx id t b else b) >> m)
          R
  after_tx_if true t m k = after_tx (SoundIfLive d) id o t m (λ key. k _)
  after_tx_if false t m k =
      after_beside (SoundIfLive d) id o (λ b. b) m (λ b. (refl, omega arith)) (k _)

module _ (d : Decimals) (c : Caller) (end_of_day : ℤ) where
  pub add_payment-Rows :
      (id : ℕ) (amount : ℤ) (account : ℕ) (date : Option ℤ)
      → Ensures
          (Rows (SoundIfLive d))
          (add_payment d c end_of_day id amount account date)
          (λ _ b. Rows (SoundIfLive d) b)
  unfolding add_payment
  add_payment-Rows id amount account date = after_guard _ amount_not_positive _ λ _.
      after_guard _ in_the_future _ λ _.
        after_check _ _ (assert_order_account-LooksOnly c.workspace account) (
          after_load (SoundIfLive d) c.workspace id _ λ o s key live.
            after_guard _ order_cancelled _ λ _.
              after_check _ _ (assert_order_account-LooksOnly c.workspace account) (
                after_tx (SoundIfLive d) id o _ _ λ k.
                  let v = live-Sound d o s live in
                  end_sync d id _ v.total v.discount v.lines v.keys))

  pub add_installment_payment-Rows :
      (id : ℕ) (amount fee : ℤ) (account : ℕ) (date : Option ℤ)
      → Ensures
          (Rows (SoundIfLive d))
          (add_installment_payment d c end_of_day id amount fee account date)
          (λ _ b. Rows (SoundIfLive d) b)
  unfolding add_installment_payment
  add_installment_payment-Rows id amount fee account date = after_guard _ amount_not_positive _ λ _.
      after_guard _ fee_not_below_amount _ λ _. after_guard _ in_the_future _ λ _.
        after_check _ _ (assert_order_account-LooksOnly c.workspace account) (
          after_load (SoundIfLive d) c.workspace id _ λ o s key live.
            after_guard _ order_cancelled _ λ _.
              after_check _ _ (assert_order_account-LooksOnly c.workspace account) (
                after_tx (SoundIfLive d) id o _ _ λ k.
                  after_tx_if d id _ (ltb_ℤ (pos 0) fee) _ _ λ ts.
                    let v = live-Sound d o s live in
                    end_sync_audit d id _ _ id v.total v.discount v.lines v.keys))

pub delete_txs-KeepsKeys : (p : OrderTx → Bool) → KeepsKeys (delete_txs p)
delete_txs-KeepsKeys p = record { same = λ o. refl; lines = λ n o h. h }

module _ (d : Decimals) (c : Caller) where
  pub delete_payment-Rows :
      (id tx : ℕ)
      → Ensures (Rows (SoundIfLive d)) (delete_payment d c id tx) (λ _ b. Rows (SoundIfLive d) b)
  unfolding delete_payment release_lines
  delete_payment-Rows id tx = after_load (SoundIfLive d) c.workspace id _ λ o s key live.
      after_or_throw payment_not_found _ _ λ payment found. after_guard _ not_deletable _ λ _.
        after_write (SoundIfLive d) id o _ _ (delete_txs-KeepsKeys _) (
          after_beside (SoundIfLive d) id _ (release_lines c.workspace (payment ∷ [])) _
            (λ b. (refl, omega arith))
            (let v = live-Sound d o s live in
              end_sync_audit d id _ _ id v.total v.discount v.lines v.keys))

  pub set_schedule-Rows :
      (id : ℕ) (entries : List (ℕ × ℤ))
      → Ensures (Rows (SoundIfLive d)) (set_schedule c id entries) (λ _ b. Rows (SoundIfLive d) b)
  unfolding set_schedule net_revenue
  set_schedule-Rows id entries = after_load (SoundIfLive d) c.workspace id _ λ o s key live.
      after_guard _ order_cancelled _ λ _.
        after_keys (SoundIfLive d) id o _ _ _ (λ key p. refl)
          (λ key k le h. All-map (λ i. i.id < key) (λ i. i.id < k) (λ i p. omega arith) o.items h)
          λ k h.
            let v = live-Sound d o s live in
            end_audit (SoundIfLive d) id _ _ id (
              Sound-live d (record o { schedule = scheduled k 1 entries })
                (record {
                  paid = v.paid;
                  state = v.state;
                  total = v.total;
                  discount = v.discount;
                  lines = v.lines;
                  keys = v.keys;
                }))
