-- ===== src/Orders/Shipped.antt =====
-- Shipping a line and taking one back (apps/api/src/orders/order.service.ts: ship, returnItem) keeps
-- every order sound.
use construct_fin.Prelude.{
  ℕ, ◌≡◌, refl, sym, inl, inr, ◌==◌, Option, some, none, arith, int_laws, ℤ, pos, ◌+ℤ◌, ◌-ℤ◌, ◌≤ℤ◌,
  ◌<ℤ◌, ◌*ℤ◌, ltb_ℤ, ltb_ℤ→le, All, find, find_has, ◌&&◌, Bool-cases,
}
use mathlib.Core.Path.{subst}
use construct_fin.Decimal.{Decimals, money}
use construct_fin.Warehouse.State.{Caller}
use construct_fin.Orders.State.{
  open_order, done, Order, OrderItem, OrderTx, Books, line_not_found, qty_not_positive, not_open,
  above_remaining, refund_negative, in_the_future, not_done, refund_above_paid, above_sold,
}
use construct_fin.Orders.Repository.{update_item}
use construct_fin.Orders.Shipping.{
  is_done, take_stock, take_if_stocked, ship, put_back_if_stocked, cogs_reversal, reverse_cogs,
  book_refund, line_returned, return_item,
}
use construct_fin.Orders.Rows.{
  Ensures, Rows, AtRow, and_then, after_guard, after_check, after_load, after_or_throw, pure_ends,
  gets_ends,
}
use construct_fin.Orders.Writes.{
  MayBook, after_booking, assert_order_account-LooksOnly, update_item-KeepsKeys, after_write,
  on_stock-AtRow, end_audit,
}
use construct_fin.Orders.Sound.{
  LineSound, DistinctLines, kept_sync, Sound, SoundIfLive, live-Sound, Sound-live,
}
use construct_fin.Orders.Taking.{end_sync_audit}
use construct_fin.Orders.Written.{written_apart, written_value, written_found}
use construct_fin.Orders.Progress.{write_line}

module _ (d : Decimals) (c : Caller) (id : ℕ) where
  abbrev S : Order → Type 0
  S = SoundIfLive d

  takes :
      (o : Order) (it : OrderItem) (q : ℤ) (key : Option ℕ)
      → Ensures (AtRow S id o) (take_if_stocked d c id it q key) (λ _ b. AtRow S id o b)
  unfolding take_if_stocked take_stock
  takes o it q none = pure_ends _ _ (λ b v. v)
  takes o it q (some key) = and_then _ _ _ (on_stock-AtRow S id o _) λ _. gets_ends _ _ (λ b v. v)

  abbrev shipped_line : OrderItem → ℤ → Option ℤ → OrderItem → OrderItem
  shipped_line it q cost i = record i {
    shipped_qty = it.shipped_qty +ℤ q;
    unit_cost_at_sale = cost;
  }

  shipped-Sound :
      (o : Order) (it : OrderItem) (q : ℤ) (line : ℕ) (cost : Option ℤ)
      → Sound d o
      → o.status ≡ open_order
      → find (λ i. i.id == line) o.items ≡ some it
      → pos 0 <ℤ q
      → q ≤ℤ it.qty -ℤ it.shipped_qty
      → Sound d (update_item it.id (shipped_line it q cost) o)
  unfolding update_item
  shipped-Sound o it q line cost s is_open found positive room = record {
    paid = s.paid;
    state =
        kept_sync d o (update_item it.id (shipped_line it q cost) o) refl refl refl refl
          (written_value it.id _ o.items (λ i. refl) (λ i. refl)) s.state;
    total = s.total;
    discount = s.discount;
    lines =
        let open_lines = subst (λ t. All (LineSound t) o.items) is_open s.lines in
        let (back, low, high) =
          find_has (λ i. i.id == line) (LineSound open_order) o.items open_lines found in
        subst (λ t. All (LineSound t) (write_line it.id (shipped_line it q cost) o.items))
          (sym is_open)
          (written_found (LineSound open_order) (λ i. i.id == line) _ o.items s.keys found
            open_lines (back, omega (int_laws, low, positive), omega (int_laws, room)));
    keys = written_apart it.id _ o.items (λ i. refl) s.keys;
  }

  pub ship-Rows : (line : ℕ) (q : ℤ) → Ensures (Rows S) (ship d c id line q) (λ _ b. Rows S b)
  unfolding ship
  ship-Rows line q = after_guard _ qty_not_positive _ λ positive.
      after_load S c.workspace id _ λ o s key live. after_guard _ not_open _ λ is_open.
        after_or_throw line_not_found _ _ λ it found. after_guard _ (above_remaining _) _ λ room.
          and_then _ _ _ (takes o it q it.warehouse_item) λ cost.
            after_write S id o _ _ (update_item-KeepsKeys it.id _ (λ i. refl)) (
              end_audit S id _ _ id (
                Sound-live d _ (
                  shipped-Sound o it q line cost (live-Sound d o s live) (ground (arith, is_open))
                    found (ground (arith, positive)) (ltb_ℤ→le (it.qty -ℤ it.shipped_qty) q room))))

  puts_back :
      (o : Order) (it : OrderItem) (q : ℤ) (key : Option ℕ)
      → Ensures (AtRow S id o) (put_back_if_stocked d c id it q key) (λ _ b. AtRow S id o b)
  unfolding put_back_if_stocked
  puts_back o it q none = pure_ends _ _ (λ b v. v)
  puts_back o it q (some key) =
      and_then _ _ _ (on_stock-AtRow S id o _) λ _. gets_ends _ _ (λ b v. v)

  reversal_books :
      (order : Order) (amount at : ℤ) (original : Option OrderTx) (b : Books)
      → MayBook id (cogs_reversal d c id order amount at original) b
  reversal_books order amount at none b = inl refl
  reversal_books order amount at (some t) b = inr (_, refl)

  reverse_cogs_books :
      (order : Order) (q at : ℤ) (key : Option ℕ) (cost : Option ℤ) (b : Books)
      → MayBook id (reverse_cogs d c id order q at key cost) b
  unfolding reverse_cogs
  reverse_cogs_books order q at (some key) cost b = inl refl
  reverse_cogs_books order q at none none b = inl refl
  reverse_cogs_books order q at none (some cost) b =
      elim (Bool-cases (ltb_ℤ (pos 0) cost && ltb_ℤ (pos 0) (money d 5 (q *ℤ cost)))) [
        | inl booked ↦ rw booked (reversal_books order _ at _ b)
        | inr kept ↦ rw kept (inl refl)
      ]

  refund_books :
      (order : Order) (refund at : ℤ) (account : ℕ) (b : Books)
      → MayBook id (book_refund d c id order refund at account) b
  refund_books order refund at account b = elim (Bool-cases (ltb_ℤ (pos 0) refund)) [
    | inl booked ↦ rw booked (inr (_, refl))
    | inr kept ↦ rw kept (inl refl)
  ]

  returned_lines :
      (o : Order) (it : OrderItem) (q : ℤ) (line : ℕ) (cost : Option ℤ)
      → Sound d o
      → o.status ≡ done
      → find (λ i. i.id == line) o.items ≡ some it
      → pos 0 <ℤ q
      → q ≤ℤ it.qty -ℤ it.returned_qty
      → All (LineSound o.status) (line_returned d c it q cost o).items
  unfolding update_item
  returned_lines o it q line cost s is_done found positive room =
      let done_lines = subst (λ t. All (LineSound t) o.items) is_done s.lines in
      let (out, low, high) =
        find_has (λ i. i.id == line) (LineSound done) o.items done_lines found in
      subst (λ t. All (LineSound t) (line_returned d c it q cost o).items) (sym is_done)
        (written_found (LineSound done) (λ i. i.id == line) _ o.items s.keys found done_lines
          (out, omega (int_laws, low, positive), omega (int_laws, room)))

  returned_apart :
      (o : Order) (it : OrderItem) (q : ℤ) (cost : Option ℤ)
      → DistinctLines o.items
      → DistinctLines (line_returned d c it q cost o).items
  unfolding update_item
  returned_apart o it q cost k = written_apart it.id _ o.items (λ i. refl) k

  pub return_item-Rows :
      (end_of_day : ℤ) (line : ℕ) (q refund : ℤ) (account : ℕ) (date : Option ℤ)
      → Ensures
          (Rows S)
          (return_item d c end_of_day id line q refund account date)
          (λ _ b. Rows S b)
  unfolding return_item update_item
  return_item-Rows end_of_day line q refund account date =
      after_guard _ qty_not_positive _ λ positive. after_guard _ refund_negative _ λ _.
        after_check _ _ (assert_order_account-LooksOnly c.workspace account) (
          after_guard _ in_the_future _ λ _. after_load S c.workspace id _ λ o s key live.
            after_guard _ not_done _ λ closed. after_guard _ (refund_above_paid _ _) _ λ _.
              after_or_throw line_not_found _ _ λ it found. after_guard _ (above_sold _) _ λ room.
                after_check _ _ (assert_order_account-LooksOnly c.workspace account) (
                  and_then _ _ _ (puts_back o it q it.warehouse_item) λ cost.
                    after_write S id o _ _ (update_item-KeepsKeys it.id _ (λ i. refl)) (
                      after_write S id _ _ _ (record { same = λ p. refl; lines = λ n p h. h })
                        (after_booking S id _ _ _
                          (reverse_cogs_books o q _ it.warehouse_item it.unit_cost)
                          λ ts. after_booking S id _ _ _ (refund_books o refund _ account) λ us.
                            let v = live-Sound d o s live in
                            end_sync_audit d id _ _ id v.total v.discount
                              (returned_lines o it q line cost v (ground (arith, closed)) found
                                (ground (arith, positive))
                                (ltb_ℤ→le (it.qty -ℤ it.returned_qty) q room))
                              (returned_apart o it q cost v.keys)))))
