-- ===== src/Orders/Tests.antt =====
-- An order over a small warehouse, and the theorems about orders at work on it
-- (apps/api/src/orders/order.service.ts).
use construct_fin.Prelude.{
  inl, map, ℕ, ◌≡◌, ◌↔◌, refl, false, none, some, List, [], ◌∷◌, arith, pos, ◌+ℤ◌, ◌-ℤ◌, ◌*ℤ◌, All,
  ◌⊎◌,
}
use construct_fin.Prelude.Result.{ok, err}
use construct_fin.Decimal.{money}
use construct_fin.Decimal.Tests.{plain, plain-IsRounding}
use construct_fin.Warehouse.Tests.{shop, clerk, shop-IsBalanced}
use construct_fin.Warehouse.Repository.{find_by_id, lock_for_update, lock_open_lots, lot_qty}
use construct_fin.Warehouse.Balance.{IsBalanced}
use construct_fin.Warehouse.Consume.{consume_lots}
use construct_fin.Warehouse.Trade.{decrement_for_sale}
use construct_fin.Warehouse.Valuation.{unit_cost_at_sale}
use construct_fin.Fifo.{consume_plan}
use construct_fin.Sorting.{insert, sort}
use construct_fin.Orders.State.{
  open_order, done, partial, paid_up, order_payment, OrderTx, OrderItem, Order, OrderError, Books,
}
use construct_fin.Orders.Calls.{◌>>=◌}
use construct_fin.Orders.Repository.{
  find_order, lock_and_load, update_order, create_order_tx, assert_order_account,
}
use construct_fin.Orders.Payments.{
  resolve_payment_state, net_revenue, returned_value, sum_of, add_payment,
}
use construct_fin.Orders.Closing.{
  resolve_cost_account, ship_remaining, close_line, close_lines, book_on, book_cogs, close_order,
  finalize, reset_line, restore_line, restore_lines, reverse_finalization, cancel, reopen,
  remove_order,
}
use construct_fin.Orders.Shipping.{put_back}
use construct_fin.Orders.Edit.{ItemInput, assert_client, assert_order_refs, create_order}
use construct_fin.Orders.Numbers.{DistinctNumbers, create_order-DistinctNumbers}
use construct_fin.Orders.Taken.{NewOrder, create_order_outcome}
use construct_fin.Orders.Refused.{RemovesNothing, removed_order_refused}
use construct_fin.Warehouse.Repository.{reversible_consumptions}
use construct_fin.Warehouse.Trade.{reverse_consumption, reverse_lots, restock}
use construct_fin.Fifo.{reverse_plan}
use construct_fin.Orders.Sound.{SoundIfLive}
use construct_fin.Orders.Rows.{Rows}
use construct_fin.Orders.Writes.{Leaves}
use construct_fin.Orders.Serving.{
  delete_order, call_of, committed, Request, pay, close, reopen_order, ship_line, serve_all,
}
use construct_fin.Orders.Served.{serve_all-Rows}
use construct_fin.Orders.Closed.{ClosedFrom}
use construct_fin.Orders.Undoing.{CancelledFrom, ReopenedFrom}
use construct_fin.Orders.Outcomes.{finalize_outcome, cancel_outcome, reopen_outcome}
use construct_fin.Orders.StockOut.{out_by_closing, finalize_stock}
use construct_fin.Orders.Amounts.{StateOf, PaidMore, resolve_payment_state_lem, add_payment_outcome}

-- Two and a half pieces from the warehouse, and a service.
abbrev pieces : OrderItem
pieces = record {
  id = 2;
  warehouse_item = some 1;
  qty = pos 2500;
  unit_price = pos 10000;
  unit_cost = none;
  unit_cost_at_sale = none;
  returned_qty = pos 0;
  shipped_qty = pos 0;
  line_total = pos 25000;
}

abbrev service : OrderItem
service = record {
  id = 3;
  warehouse_item = none;
  qty = pos 1000;
  unit_price = pos 5000;
  unit_cost = some (pos 300000);
  unit_cost_at_sale = none;
  returned_qty = pos 0;
  shipped_qty = pos 0;
  line_total = pos 5000;
}

abbrev prepayment : OrderTx
prepayment = record {
  id = 4;
  kind = order_payment;
  date = pos 900;
  amount = pos 10000;
  account = 3;
  counterparty = none;
  original = none;
  deleted = false;
}

abbrev order : Order
order = record {
  id = 1;
  workspace = 7;
  number = (2026, 1);
  client = none;
  status = open_order;
  payment_status = partial;
  subtotal = pos 30000;
  discount_amount = pos 0;
  total_amount = pos 30000;
  paid_amount = pos 10000;
  closed_at = none;
  items = service ∷ pieces ∷ [];
  transactions = prepayment ∷ [];
  returns = [];
  schedule = [];
  deleted = false;
}

abbrev books : Books
books = record {
  stock = shop;
  orders = order ∷ [];
  clients = [];
  bank_lines = [];
  audit = [];
  next_id = 20;
}

books-Rows : Rows (SoundIfLive plain) books
unfolding sum_of net_revenue returned_value resolve_payment_state money ◌+ℤ◌ ◌-ℤ◌ ◌*ℤ◌
books-Rows = record {
  sound = (
    record {
      paid = refl;
      state = inl refl;
      total = refl;
      discount = omega arith;
      lines = ((refl, omega arith, omega arith), ((refl, omega arith, omega arith), tt));
      keys = (((λ e. omega (arith, e)), tt), (tt, tt));
    },
    tt,
  );
  distinct = (tt, tt);
  below = ((omega arith, (omega arith, (omega arith, tt))), tt);
}

order_found : find_order 7 1 books ≡ some order
unfolding find_order
order_found = refl

closed_books : Books
unfolding finalize
closed_books = committed books (finalize plain clerk (pos 5000) 1 none books)

closing_runs : finalize plain clerk (pos 5000) 1 none books ≡ ok (tt, closed_books)
unfolding finalize closed_books ◌>>=◌ lock_and_load find_order close_order close_lines close_line
    ship_remaining book_cogs book_on resolve_cost_account sort insert decrement_for_sale
    lock_for_update find_by_id lock_open_lots consume_lots consume_plan ◌+ℤ◌ ◌-ℤ◌ ◌*ℤ◌
    unit_cost_at_sale create_order_tx update_order
closing_runs = refl

finalize_outcome_example :
    Rows (SoundIfLive plain) closed_books × Leaves 7 1 (ClosedFrom order) closed_books
finalize_outcome_example =
    finalize_outcome plain clerk 1 order books tt closed_books (pos 5000) none books-Rows
      order_found closing_runs

finalize_stock_example :
    IsBalanced closed_books.stock
    × ((w i : ℕ)
        → lot_qty w i closed_books.stock +ℤ out_by_closing clerk order w i ≡ lot_qty w i shop)
finalize_stock_example =
    finalize_stock plain clerk 1 order books closed_books tt (pos 5000) none shop-IsBalanced
      order_found closing_runs

paid_books : Books
unfolding add_payment
paid_books = committed books (add_payment plain clerk (pos 5000) 1 (pos 20000) 3 none books)

payment_runs : add_payment plain clerk (pos 5000) 1 (pos 20000) 3 none books ≡ ok (tt, paid_books)
unfolding add_payment paid_books ◌>>=◌ lock_and_load find_order assert_order_account
payment_runs = refl

add_payment_outcome_example :
    Rows (SoundIfLive plain) paid_books × Leaves 7 1 (PaidMore plain (pos 20000) order) paid_books
add_payment_outcome_example =
    add_payment_outcome plain clerk 1 order books tt paid_books (pos 5000) (pos 20000) 3 none
      books-Rows order_found payment_runs

resolve_payment_state_lem_example :
    (resolve_payment_state (pos 30000) (pos 30000) ≡ paid_up)
    ↔ StateOf paid_up (pos 30000) (pos 30000)
resolve_payment_state_lem_example = resolve_payment_state_lem (pos 30000) (pos 30000) paid_up

-- A day at the shop: a payment, a part of the goods, an account that there is not, the closing, and the
-- reopening.
abbrev requests : List Request
requests =
    map (λ k. record { caller = clerk; end_of_day = pos 5000; call = k })
      (pay 1 (pos 20000) 3 none
        ∷ ship_line 1 2 (pos 1500)
        ∷ pay 1 (pos 1) 9 none
        ∷ close 1 none
        ∷ reopen_order 1
        ∷ [])

serve_all-Rows_example : Rows (SoundIfLive plain) (serve_all plain requests books)
serve_all-Rows_example =
    serve_all-Rows plain plain-IsRounding requests books (tt, (tt, (tt, (tt, (tt, tt))))) books-Rows

-- The order once it is closed.
abbrev done_order : Order
done_order = record order {
  status = done;
  closed_at = some (pos 950);
  items =
      record service { shipped_qty = pos 1000; unit_cost_at_sale = some (pos 300000) }
      ∷ record pieces { shipped_qty = pos 2500; unit_cost_at_sale = some (pos 50000) }
      ∷ [];
}

abbrev done_books : Books
done_books = record books { orders = done_order ∷ [] }

done_books-Rows : Rows (SoundIfLive plain) done_books
unfolding sum_of net_revenue returned_value resolve_payment_state money ◌+ℤ◌ ◌-ℤ◌ ◌*ℤ◌
done_books-Rows = record {
  sound = (
    record {
      paid = refl;
      state = inl refl;
      total = refl;
      discount = omega arith;
      lines = ((refl, omega arith, omega arith), ((refl, omega arith, omega arith), tt));
      keys = (((λ e. omega (arith, e)), tt), (tt, tt));
    },
    tt,
  );
  distinct = (tt, tt);
  below = ((omega arith, (omega arith, (omega arith, tt))), tt);
}

done_found : find_order 7 1 done_books ≡ some done_order
unfolding find_order
done_found = refl

reopened_books : Books
unfolding reopen
reopened_books = committed done_books (reopen plain clerk 1 done_books)

reopening_runs : reopen plain clerk 1 done_books ≡ ok (tt, reopened_books)
unfolding reopen reopened_books ◌>>=◌ lock_and_load find_order reverse_finalization restore_lines
    restore_line reset_line put_back reverse_consumption reverse_lots reverse_plan
    reversible_consumptions restock sort insert lock_for_update find_by_id ◌+ℤ◌ ◌-ℤ◌ ◌*ℤ◌
reopening_runs = refl

reopen_outcome_example :
    Rows (SoundIfLive plain) reopened_books
    × Leaves 7 1 (ReopenedFrom plain done_order) reopened_books
reopen_outcome_example =
    reopen_outcome plain clerk 1 done_order done_books tt reopened_books done_books-Rows done_found
      reopening_runs

cancelled_books : Books
unfolding cancel
cancelled_books = committed done_books (cancel plain clerk 1 done_books)

cancelling_runs : cancel plain clerk 1 done_books ≡ ok (tt, cancelled_books)
unfolding cancel cancelled_books ◌>>=◌ lock_and_load find_order reverse_finalization restore_lines
    restore_line reset_line put_back reverse_consumption reverse_lots reverse_plan
    reversible_consumptions restock sort insert lock_for_update find_by_id ◌+ℤ◌ ◌-ℤ◌ ◌*ℤ◌
cancelling_runs = refl

cancel_outcome_example :
    Rows (SoundIfLive plain) cancelled_books × Leaves 7 1 (CancelledFrom done_order) cancelled_books
cancel_outcome_example =
    cancel_outcome plain clerk 1 done_order done_books tt cancelled_books done_books-Rows done_found
      cancelling_runs

deleted_books : Books
unfolding remove_order
deleted_books = committed done_books (remove_order plain clerk 1 done_books)

deleting_runs : remove_order plain clerk 1 done_books ≡ ok (tt, deleted_books)
unfolding remove_order deleted_books ◌>>=◌ lock_and_load find_order reverse_finalization
    restore_lines restore_line reset_line put_back reverse_consumption reverse_lots reverse_plan
    reversible_consumptions restock sort insert lock_for_update find_by_id ◌+ℤ◌ ◌-ℤ◌ ◌*ℤ◌
deleting_runs = refl

-- A payment on the deleted order and a second deletion, by another call of the day after.
abbrev tries : List Request
tries =
    record { caller = clerk; end_of_day = pos 5000; call = pay 1 (pos 100) 3 none }
    ∷ record {
      caller = record { workspace = 7; now = pos 8000 };
      end_of_day = pos 9000;
      call = delete_order 1;
    }
    ∷ []

removed_order_refused_example :
    (serve_all plain tries deleted_books ≡ deleted_books)
    × All
        (λ q.
          RemovesNothing q.call
          ⊎ ((e : OrderError) × (call_of plain q.caller q.end_of_day q.call deleted_books ≡ err e)))
        tries
removed_order_refused_example =
    removed_order_refused plain clerk 1 done_order done_books tt deleted_books tries done_books-Rows
      done_found deleting_runs ((refl, refl), ((refl, refl), tt))

abbrev asked : ItemInput
asked = record { warehouse_item = some 1; qty = pos 1000; unit_price = pos 12000; unit_cost = none }

taken_books : Books
unfolding create_order
taken_books = committed books (create_order plain clerk 2026 none none (asked ∷ []) books)

taking_runs : create_order plain clerk 2026 none none (asked ∷ []) books ≡ ok (tt, taken_books)
unfolding create_order taken_books ◌>>=◌ assert_order_refs assert_client money ◌+ℤ◌ ◌*ℤ◌
taking_runs = refl

create_order-DistinctNumbers_example : DistinctNumbers taken_books.orders
create_order-DistinctNumbers_example =
    create_order-DistinctNumbers plain clerk books taken_books tt 2026 none none (asked ∷ [])
      (tt, tt) taking_runs

create_order_outcome_example :
    (o : Order) × (taken_books.orders ≡ o ∷ books.orders) × NewOrder plain o
create_order_outcome_example =
    create_order_outcome plain clerk books taken_books tt 2026 none none (asked ∷ [])
      plain-IsRounding taking_runs
