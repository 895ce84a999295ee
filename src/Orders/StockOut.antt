-- ===== src/Orders/StockOut.antt =====
-- What closing an order takes from the warehouse (apps/api/src/orders/order.service.ts, `finalize`, over
-- `decrementForSale` of apps/api/src/warehouse/warehouse.service.ts).
use construct_fin.Prelude.{
  ℕ, ◌≡◌, refl, sym, ◌∙◌, ap, inl, inr, Bool, true, false, Option, some, none, List, [], ◌∷◌, arith,
  int_laws, ℤ, pos, neg, ◌+ℤ◌, ◌-ℤ◌, +ℤ_zero, zero_+ℤ, +ℤ_assoc, ltb_ℤ, if◌then◌else◌, ◌==◌, ◌&&◌,
  sum_by, Bool-cases,
}
use mathlib.Core.Path.{subst}
use construct_fin.Prelude.Result.{ok, Result-cases}
use construct_fin.Decimal.{Decimals}
use construct_fin.Sorting.{sort, sum_by-sort}
use construct_fin.Warehouse.State.{Caller, Db}
use construct_fin.Warehouse.Repository.{lot_qty}
use construct_fin.Warehouse.Trade.{decrement_for_sale, or_now}
use construct_fin.Warehouse.Consumed.{at_item}
use construct_fin.Warehouse.Balance.{IsBalanced}
use construct_fin.Warehouse.Operations.{decrement_for_sale-Moves}
use construct_fin.Orders.State.{Order, OrderItem, Books, in_the_future, order_cancelled}
use construct_fin.Orders.Calls.{Call, ◌>>=◌, ◌>>◌, unless, modify, pure, on_stock}
use construct_fin.Orders.Repository.{find_order, lock_and_load, update_order, create_order_tx}
use construct_fin.Orders.Shipping.{by_warehouse_item, is_done}
use construct_fin.Orders.Closing.{
  ship_remaining, close_line, close_lines, book_on, book_cogs, close_order, finalize,
  resolve_cost_account,
}
use construct_fin.Orders.Rows.{
  Ensures, and_then, after_guard, after_gets, weaken, pure_ends, if_made,
}

-- What of a line has not been shipped.
abbrev pub unshipped_of : OrderItem → ℤ
unshipped_of it =
    if ltb_ℤ (pos 0) (it.qty -ℤ it.shipped_qty) then it.qty -ℤ it.shipped_qty else pos 0

-- Of the item `i` of the workspace `w`, for a line that may stand for no item.
abbrev pub taken_at : ℕ → Option ℕ → ℤ → ℕ → ℕ → ℤ
taken_at ws none q w i = pos 0
taken_at ws (some key) q w i = at_item ws key q w i

abbrev pub going_out : ℕ → List OrderItem → ℕ → ℕ → ℤ
going_out ws is w i = sum_by (λ it. taken_at ws it.warehouse_item (unshipped_of it) w i) is

-- The warehouse is in balance, and holds what `a` held less `out`.
pub record StockLess (a : Db) (out : ℕ → ℕ → ℤ) (b : Books) : Type 0 where
  pub balanced : IsBalanced b.stock
  pub held : (w i : ℕ) → lot_qty w i b.stock +ℤ out w i ≡ lot_qty w i a

neg_at : (ws item : ℕ) (q : ℤ) (w i : ℕ) → at_item ws item (neg q) w i ≡ neg (at_item ws item q w i)
unfolding ◌-ℤ◌
neg_at ws item q w i = elim (Bool-cases (w == ws && i == item)) [
  | inl here ↦ rw here refl
  | inr away ↦ rw away refl
]

back_out :
    (new old out all gone q : ℤ)
    → gone ≡ neg q
    → new ≡ old +ℤ gone
    → old +ℤ out ≡ all
    → new +ℤ (out +ℤ q) ≡ all
back_out new old out all gone q e f g = rw (f, e, sym g) (omega int_laws)

add_nothing : (x y : ℤ) (ws item w i : ℕ) → x +ℤ (y +ℤ at_item ws item (pos 0) w i) ≡ x +ℤ y
add_nothing x y ws item w i = elim (Bool-cases (w == ws && i == item)) [
  | inl here ↦ rw here (omega int_laws)
  | inr away ↦ rw away (omega int_laws)
]

module _ (a : Db) (out : ℕ → ℕ → ℤ) where
  aside :
      (g : Books → Books)
      → ((b : Books) → (g b).stock ≡ b.stock)
      → Ensures (StockLess a out) (modify g) (λ _ b. StockLess a out b)
  aside g same = record {
    at = λ b r e p run.
        let written : e.stock ≡ b.stock =
          ap (λ (x : Books). x.stock) (sym (written_books b e run)) ∙ same b in
        record {
          balanced = subst IsBalanced (sym written) p.balanced;
          held = λ w i.
              subst (λ s. lot_qty w i s +ℤ out w i ≡ lot_qty w i a) (sym written) (p.held w i);
        };
  }
    where
      written_books : (b e : Books) {r : Unit {0}} → modify g b ≡ ok (r, e) → g b ≡ e
      written_books b e run = ground (arith, run)

module _ (d : Decimals) (c : Caller) (a : Db) where
  takes_out :
      (out : ℕ → ℕ → ℤ) (key : ℕ) (q : ℤ) (order line : Option ℕ)
      → Ensures
          (StockLess a out)
          (on_stock (decrement_for_sale d c key q order line))
          (λ _ b. StockLess a (λ w i. out w i +ℤ at_item c.workspace key q w i) b)
  takes_out out key q order line = record {
    at = λ b r e p run. elim (Result-cases (decrement_for_sale d c key q order line b.stock)) [
      | inl ((v, db), sold) ↦
          let m = decrement_for_sale-Moves d c key q b.stock order line v db p.balanced sold in
          let new : db ≡ e.stock = ground (arith, sold, run) in
          record {
            balanced = subst IsBalanced new m.balanced;
            held = λ w i.
                subst
                  (λ s. lot_qty w i s +ℤ (out w i +ℤ at_item c.workspace key q w i) ≡ lot_qty w i a)
                  new
                  (back_out (lot_qty w i db) (lot_qty w i b.stock) (out w i) (lot_qty w i a)
                    (at_item c.workspace key (neg q) w i) (at_item c.workspace key q w i)
                    (neg_at c.workspace key q w i) (m.held w i) (p.held w i));
          }
      | inr (f, refused) ↦ absurd (ground (arith, refused, run))
    ];
  }

  module _ (id : ℕ) where
    ships_if :
        (out : ℕ → ℕ → ℤ) (line key : ℕ) (q : ℤ) (test : Bool)
        → Ensures
            (StockLess a out)
            (λ b.
              if test
              then (on_stock (decrement_for_sale d c key q (some id) (some line)) >> pure tt) b
              else ok (tt, b))
            (λ _ b.
              StockLess a
                (λ w i. out w i +ℤ at_item c.workspace key (if test then q else pos 0) w i)
                b)
    ships_if out line key q true =
        and_then _ _ _ (takes_out out key q (some id) (some line)) λ _. pure_ends _ tt (λ b v. v)
    ships_if out line key q false = pure_ends _ tt (λ b v. record {
      balanced = v.balanced;
      held = λ w i. add_nothing _ (out w i) c.workspace key w i ∙ v.held w i;
    })

    ships_out :
        (out : ℕ → ℕ → ℤ) (it : OrderItem) (key : ℕ)
        → Ensures
            (StockLess a out)
            (ship_remaining d c id it key)
            (λ _ b. StockLess a (λ w i. out w i +ℤ at_item c.workspace key (unshipped_of it) w i) b)
    unfolding ship_remaining
    ships_out out it key =
        ships_if out it.id key (it.qty -ℤ it.shipped_qty) (ltb_ℤ (pos 0) (it.qty -ℤ it.shipped_qty))

    line_out :
        (out : ℕ → ℕ → ℤ) (it : OrderItem) (key : Option ℕ)
        → Ensures (StockLess a out) (close_line d c id it key) (λ _ b.
          StockLess a (λ w i. out w i +ℤ taken_at c.workspace key (unshipped_of it) w i) b)
    unfolding close_line update_order
    line_out out it none = and_then _ _ _ (aside a out _ (λ b. refl)) λ _. pure_ends _ _ (λ b v.
        record {
          balanced = v.balanced;
          held = λ w i. ap (λ x. lot_qty w i b.stock +ℤ x) (+ℤ_zero (out w i)) ∙ v.held w i;
        })
    line_out out it (some key) = and_then _ _ _ (ships_out out it key) λ _.
        after_gets _ _
          λ cost. and_then _ _ _ (aside a _ _ (λ b. refl)) λ _. pure_ends _ _ (λ b v. v)

    lines_out :
        (is : List OrderItem) (out : ℕ → ℕ → ℤ)
        → Ensures
            (StockLess a out)
            (close_lines d c id is)
            (λ _ b. StockLess a (λ w i. out w i +ℤ going_out c.workspace is w i) b)
    unfolding close_lines
    lines_out [] out = pure_ends _ _ (λ b v. record {
      balanced = v.balanced;
      held = λ w i. ap (λ x. lot_qty w i b.stock +ℤ x) (+ℤ_zero (out w i)) ∙ v.held w i;
    })
    lines_out (it ∷ is) out = and_then _ _ _ (line_out out it it.warehouse_item) λ _.
        and_then _ _ _ (lines_out is _) λ _. pure_ends _ _ (λ b v. record {
          balanced = v.balanced;
          held = λ w i.
              ap (λ x. lot_qty w i b.stock +ℤ x)
                (sym (
                  +ℤ_assoc (out w i) (taken_at c.workspace it.warehouse_item (unshipped_of it) w i)
                    (going_out c.workspace is w i)))
              ∙ v.held w i;
        })

    account_out :
        (out : ℕ → ℕ → ℤ) (order : Order) (manual at : ℤ) (account : Option ℕ)
        → Ensures
            (StockLess a out)
            (book_on d c id order manual at account)
            (λ _ b. StockLess a out b)
    unfolding book_on create_order_tx update_order
    account_out out order manual at none = record { at = λ b r e p run. cc }
    account_out out order manual at (some account) = aside a out _ (λ b. refl)

    cogs_out :
        (out : ℕ → ℕ → ℤ) (order : Order) (manual at : ℤ)
        → Ensures (StockLess a out) (book_cogs d c id order manual at) (λ _ b. StockLess a out b)
    unfolding book_cogs
    cogs_out out order manual at =
        if_made _ (ltb_ℤ (pos 0) manual) _ tt
          (record {
            at = λ b r e p run.
                (account_out out order manual at (resolve_cost_account c.workspace order b)).at b r
                  e p run;
          })
          (λ b v. v)

    order_out :
        (o : Order) (at : ℤ)
        → Ensures
            (StockLess a (λ w i. pos 0))
            (close_order d c id o at)
            (λ _ b. StockLess a (λ w i. going_out c.workspace o.items w i) b)
    unfolding close_order update_order
    order_out o at =
        and_then _ _ _ (lines_out (sort by_warehouse_item o.items) (λ w i. pos 0)) λ manual.
          and_then _ _ _ (cogs_out _ o manual at) λ _. and_then _ _ _ (aside a _ _ (λ b. refl)) λ _.
            weaken _ _ _ (aside a _ _ (λ b. refl)) (λ r b v. record {
              balanced = v.balanced;
              held = λ w i.
                  ap (λ x. lot_qty w i b.stock +ℤ x)
                    (sym (
                      zero_+ℤ (going_out c.workspace (sort by_warehouse_item o.items) w i)
                      ∙ sum_by-sort by_warehouse_item _ o.items))
                  ∙ v.held w i;
            })

-- The order that the call loads is known.
loads :
    {B : Type 0} {P : Books → Type 0} {R : B → Books → Type 0} (ws id : ℕ) (o : Order)
    (f : Order → Call B)
    → Ensures P (f o) R
    → Ensures (λ b. P b × (find_order ws id b ≡ some o)) (lock_and_load ws id >>= f) R
unfolding ◌>>=◌ lock_and_load
loads ws id o f k = record { at = λ a r b (p, found) e. k.at a r b p (ground (arith, found, e)) }

abbrev pub out_by_closing : Caller → Order → ℕ → ℕ → ℤ
out_by_closing c o w i = if is_done o.status then pos 0 else going_out c.workspace o.items w i

module _ (d : Decimals) (c : Caller) (id : ℕ) (o : Order) (a b : Books) (r : Unit {0}) where
  closing_if :
      (m : Call (Unit {0})) (out : ℕ → ℕ → ℤ) (closed : Bool)
      → Ensures (StockLess a.stock (λ w i. pos 0)) m (λ _ e. StockLess a.stock out e)
      → Ensures
          (StockLess a.stock (λ w i. pos 0))
          (unless closed m)
          (λ _ e. StockLess a.stock (λ w i. if closed then pos 0 else out w i) e)
  closing_if m out true h = pure_ends _ tt (λ e v. v)
  closing_if m out false h = h

  -- On a warehouse in balance, closing an order that is found takes from the warehouse, where it goes
  -- through, exactly what of its lines had not been shipped, item by item and whatever the order of the
  -- lines, or nothing where the order was done; and it leaves the warehouse in balance.
  pub finalize_stock :
      (end_of_day : ℤ) (closed_on : Option ℤ)
      → IsBalanced a.stock
      → find_order c.workspace id a ≡ some o
      → finalize d c end_of_day id closed_on a ≡ ok (r, b)
      → IsBalanced b.stock
        × ((w i : ℕ) → lot_qty w i b.stock +ℤ out_by_closing c o w i ≡ lot_qty w i a.stock)
  unfolding finalize
  finalize_stock end_of_day closed_on v found e =
      let closes = after_guard _ in_the_future _ λ _. loads c.workspace id o _ (
        after_guard _ order_cancelled _ λ _.
          closing_if _ (going_out c.workspace o.items) (is_done o.status)
            (order_out d c a.stock id o (or_now c closed_on))) in
      let start : StockLess a.stock (λ w i. pos 0) a = record {
        balanced = v;
        held = λ w i. +ℤ_zero (lot_qty w i a.stock);
      } in
      let s = closes.at a r b (start, found) e in (s.balanced, s.held)
