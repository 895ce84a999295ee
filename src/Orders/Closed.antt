-- ===== src/Orders/Closed.antt =====
-- Closing an order (apps/api/src/orders/order.service.ts, `finalize`) keeps every order sound: each of
-- its lines has left in full.
use construct_fin.Prelude.{
  ℕ, ◌≡◌, refl, sym, ◌∙◌, ap, false, Option, some, none, List, [], ◌∷◌, arith, ℤ, pos, ◌≤ℤ◌, All,
  All-map, All-map₂,
}
use mathlib.Core.Path.{subst}
use construct_fin.Decimal.{Decimals, money}
use construct_fin.Sorting.{sort}
use construct_fin.Warehouse.State.{Caller}
use construct_fin.Warehouse.Trade.{or_now}
use construct_fin.Orders.State.{
  open_order, done, cogs, Order, OrderItem, OrderTx, Books, in_the_future, order_cancelled,
}
use construct_fin.Orders.Calls.{◌>>◌, modify, pure}
use construct_fin.Orders.Repository.{find_order, update_order, update_item}
use construct_fin.Orders.Payments.{
  net_revenue, returned_value, sum_of, is_payment, is_refund, is_cancelled, payment_of,
}
use construct_fin.Orders.Shipping.{by_warehouse_item, is_done}
use construct_fin.Orders.Closing.{
  ship_remaining, close_line, close_lines, book_on, book_cogs, closed_order, close_order, finalize,
  resolve_cost_account,
}
use construct_fin.Orders.Rows.{
  if_made, weaken, pure_ends, Ensures, Rows, AtRow, and_then, after_guard, after_load,
  after_load_of, after_gets, settle_row,
}
use construct_fin.Orders.Writes.{
  SomeLines, from_lines, from_any, from_pre, unless_ends, update_item-KeepsKeys, after_write,
  tx_ends, on_stock-AtRow, audit_ends, Leaves, Leaves-row,
}
use construct_fin.Orders.Sound.{
  LineSound, DistinctLines, kept_sync, Sound, SoundIfLive, live-Sound, Sound-live,
}
use construct_fin.Orders.Written.{written_apart, written_value, written_all}
use construct_fin.Orders.Progress.{write_line, Progress, advance, start, finished}

abbrev SameQty : OrderItem → OrderItem → Type 0
SameQty it i = i.qty ≡ it.qty

abbrev AllOut : OrderItem → Type 0
AllOut i = i.shipped_qty ≡ i.qty

all_same : (is : List OrderItem) → All (λ i. SameQty i i) is
all_same [] = tt
all_same (i ∷ is) = (refl, all_same is)

-- The lines of an open order while it is being closed.
record ClosingLines (o : Order) (left is : List OrderItem) : Type 0 where
  pub progress : Progress SameQty AllOut left is
  pub value : returned_value is ≡ returned_value o.items
  pub apart : DistinctLines is
  pub whole : All (λ i. (i.returned_qty ≡ pos 0) × (pos 0 ≤ℤ i.qty)) is

abbrev set_shipped : ℤ → Option ℤ → OrderItem → OrderItem
set_shipped q cost i = record i { shipped_qty = q; unit_cost_at_sale = cost }

written_lines :
    (o : Order) (it : OrderItem) (left is : List OrderItem) (cost : Option ℤ)
    → ClosingLines o (it ∷ left) is
    → ClosingLines o left (write_line it.id (set_shipped it.qty cost) is)
written_lines o it left is cost p = record {
  progress =
      advance SameQty AllOut it left is _
        (record { key = λ i. refl; reach = λ i e. sym e; keep = λ jt i a e. e }) p.progress;
  value = written_value it.id _ is (λ i. refl) (λ i. refl) ∙ p.value;
  apart = written_apart it.id _ is (λ i. refl) p.apart;
  whole = written_all _ it.id _ is (λ i h. h) p.whole;
}

-- What closing an order leaves of it.
abbrev pub ClosedFrom : Order → Order → Type 0
ClosedFrom o p =
    (p.status ≡ done)
    × All AllOut p.items
    × (p.paid_amount ≡ o.paid_amount)
    × (p.payment_status ≡ o.payment_status)

open_status :
    (o : Order) → is_cancelled o.status ≡ false → is_done o.status ≡ false → o.status ≡ open_order
open_status o a b = ground (arith, a, b)

module _ (d : Decimals) (c : Caller) (id : ℕ) where
  abbrev S : Order → Type 0
  S = SoundIfLive d

  write_line_ends :
      (o : Order) (it : OrderItem) (left is : List OrderItem) (cost : Option ℤ) (r : ℤ)
      → ClosingLines o (it ∷ left) is
      → Ensures
          (AtRow S id (record o { items = is }))
          (modify (update_order id (update_item it.id (set_shipped it.qty cost))) >> pure r)
          (λ _ b. SomeLines S (ClosingLines o left) id o b)
  unfolding update_item
  write_line_ends o it left is cost r p =
      after_write S id (record o { items = is }) _ _ (update_item-KeepsKeys it.id _ (λ i. refl))
        (pure_ends _ r (λ b v. (_, written_lines o it left is cost p, v)))

  ships :
      (o : Order) (it : OrderItem) (key : ℕ)
      → Ensures (AtRow S id o) (ship_remaining d c id it key) (λ _ b. AtRow S id o b)
  unfolding ship_remaining
  ships o it key =
      if_made _ _ _ tt (and_then _ _ _ (on_stock-AtRow S id o _) λ _. pure_ends _ tt (λ b v. v))
        (λ b v. v)

  close_line-Closing :
      (o : Order) (it : OrderItem) (left is : List OrderItem) (key : Option ℕ)
      → ClosingLines o (it ∷ left) is
      → Ensures
          (AtRow S id (record o { items = is }))
          (close_line d c id it key)
          (λ _ b. SomeLines S (ClosingLines o left) id o b)
  unfolding close_line
  close_line-Closing o it left is none p = write_line_ends o it left is it.unit_cost _ p
  close_line-Closing o it left is (some key) p =
      and_then _ _ _ (ships (record o { items = is }) it key)
        λ _. after_gets _ _ λ cost. write_line_ends o it left is cost (pos 0) p

  close_lines-Closing :
      (o : Order) (left : List OrderItem)
      → Ensures
          (SomeLines S (ClosingLines o left) id o)
          (close_lines d c id left)
          (λ _ b. SomeLines S (ClosingLines o []) id o b)
  unfolding close_lines
  close_lines-Closing o [] = pure_ends _ (pos 0) (λ b v. v)
  close_lines-Closing o (it ∷ left) = from_lines _ id o _ λ is p.
      and_then _ _ _ (close_line-Closing o it left is it.warehouse_item p)
        λ _. and_then _ _ _ (close_lines-Closing o left) λ _. pure_ends _ _ (λ b v. v)

  -- The transactions of an order after its cost may have been booked: what is paid is the same.
  record Booked (o : Order) (ts : List OrderTx) : Type 0 where
    pub payments : sum_of is_payment ts ≡ sum_of is_payment o.transactions
    pub refunds : sum_of is_refund ts ≡ sum_of is_refund o.transactions

  abbrev BookedRow : Order → Books → Type 0
  BookedRow o b = (ts : List OrderTx) × Booked o ts × AtRow S id (record o { transactions = ts }) b

  books_on :
      (order o : Order) (manual at : ℤ) (account : Option ℕ)
      → Ensures (AtRow S id o) (book_on d c id order manual at account) (λ _ b. BookedRow o b)
  unfolding book_on sum_of
  books_on order o manual at none = record { at = λ a r b p e. cc }
  books_on order o manual at (some account) =
      weaken _ _ _ (tx_ends S id o (payment_of order cogs at (money d 5 manual) account))
        (λ r b (key, v). (_, record { payments = refl; refunds = refl }, v))

  books_cogs :
      (order o : Order) (manual at : ℤ)
      → Ensures (AtRow S id o) (book_cogs d c id order manual at) (λ _ b. BookedRow o b)
  unfolding book_cogs
  books_cogs order o manual at =
      if_made _ _ _ tt
        (record {
          at = λ a r b p e.
              (books_on order o manual at (resolve_cost_account c.workspace order a)).at a r b p e;
        })
        (λ b v. (o.transactions, record { payments = refl; refunds = refl }, v))

  closing_starts :
      (o : Order)
      → Sound d o
      → o.status ≡ open_order
      → ClosingLines o (sort by_warehouse_item o.items) o.items
  closing_starts o s is_open = record {
    progress = start SameQty AllOut by_warehouse_item o.items s.keys (all_same o.items);
    value = refl;
    apart = s.keys;
    whole =
        All-map (LineSound open_order) _ (λ i (back, low, high). (back, omega (arith, low, high)))
          o.items (subst (λ t. All (LineSound t) o.items) is_open s.lines);
  }

  closed-Sound :
      (o : Order) (is : List OrderItem) (ts : List OrderTx) (at : ℤ)
      → Sound d o
      → o.status ≡ open_order
      → ClosingLines o [] is
      → Booked o ts
      → Sound d (closed_order at (record o { items = is; transactions = ts }))
  unfolding net_revenue
  closed-Sound o is ts at s is_open p t = record {
    paid = s.paid ∙ rw (t.payments, t.refunds) refl;
    state =
        kept_sync d o (closed_order at (record o { items = is; transactions = ts }))
          (sym (ap is_cancelled is_open)) refl refl refl p.value s.state;
    total = s.total;
    discount = s.discount;
    lines =
        All-map₂ AllOut _ (LineSound done)
          (λ i out (back, whole). (out, ground (arith, back), ground (arith, back, whole))) is
          (finished SameQty AllOut is p.progress.goal) p.whole;
    keys = p.apart;
  }

  -- The order that was closed.
  abbrev ClosedRow : Order → ℤ → Books → Type 0
  ClosedRow o at b =
      (is : List OrderItem) × (ts : List OrderTx) × ClosingLines o [] is
      × Booked o ts
      × AtRow S id (closed_order at (record o { items = is; transactions = ts })) b

  close_order-Closed :
      (o : Order) (at : ℤ)
      → Sound d o
      → o.status ≡ open_order
      → Ensures (AtRow S id o) (close_order d c id o at) (λ _ b. ClosedRow o at b)
  unfolding close_order
  close_order-Closed o at s is_open =
      and_then _ _ _
        (from_pre (SomeLines S (ClosingLines o (sort by_warehouse_item o.items)) id o) _
          (λ b v. (o.items, closing_starts o s is_open, v))
          (close_lines-Closing o (sort by_warehouse_item o.items)))
        λ manual. from_lines _ id o _ λ is p.
          and_then _ _ _ (books_cogs o (record o { items = is }) manual at) λ _.
            from_any _ _ id _ λ ts t.
              after_write S id _ (closed_order at) _
                (record { same = λ q. refl; lines = λ n q h. h })
                (weaken _ _ _ (audit_ends S id _ _ id)
                  (λ r b v. (is, ts, p, record { payments = t.payments; refunds = t.refunds }, v)))

  pub finalize-Rows :
      (end_of_day : ℤ) (closed_on : Option ℤ)
      → Ensures (Rows S) (finalize d c end_of_day id closed_on) (λ _ b. Rows S b)
  unfolding finalize
  finalize-Rows end_of_day closed_on = after_guard _ in_the_future _ λ _.
      after_load S c.workspace id _ λ o s key live. after_guard _ order_cancelled _ λ not_cancelled.
        unless_ends (Rows S) (is_done o.status) _ (λ _ b v. settle_row S id o b s v)
          λ not_done.
            let whole = live-Sound d o s live in
            let is_open = open_status o not_cancelled not_done in
            weaken _ _ _ (close_order-Closed o (or_now c closed_on) whole is_open)
              (λ r b (is, ts, p, t, v).
                settle_row S id _ b (Sound-live d _ (closed-Sound o is ts _ whole is_open p t)) v)

  already_closed : (o : Order) → Sound d o → o.status ≡ done → ClosedFrom o o
  already_closed o s closed = (
    closed,
    All-map (LineSound done) AllOut (λ i (out, low, high). out) o.items
        (subst (λ t. All (LineSound t) o.items) closed s.lines),
    refl,
    refl,
  )

  pub finalize-Closed :
      (end_of_day : ℤ) (closed_on : Option ℤ) (o : Order)
      → Ensures
          (λ b. Rows S b × (find_order c.workspace id b ≡ some o))
          (finalize d c end_of_day id closed_on)
          (λ _ b. Rows S b × Leaves c.workspace id (ClosedFrom o) b)
  unfolding finalize
  finalize-Closed end_of_day closed_on o = after_guard _ in_the_future _ λ _.
      after_load_of S c.workspace id o _ λ s key home live.
        after_guard _ order_cancelled _ λ not_cancelled.
          let whole = live-Sound d o s live in
          unless_ends (λ b. Rows S b × Leaves c.workspace id (ClosedFrom o) b) (is_done o.status) _
            (λ closed b v.
              Leaves-row c.workspace id o (ClosedFrom o) b home live s
                (already_closed o whole (ground (arith, closed))) v)
            λ not_done.
              let is_open = open_status o not_cancelled not_done in
              weaken _ _ _ (close_order-Closed o (or_now c closed_on) whole is_open)
                (λ r b (is, ts, p, t, v).
                  Leaves-row c.workspace id _ (ClosedFrom o) b home live
                    (Sound-live d _ (closed-Sound o is ts _ whole is_open p t))
                    (refl, finished SameQty AllOut is p.progress.goal, refl, refl) v)
