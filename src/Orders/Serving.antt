-- ===== src/Orders/Serving.antt =====
-- The calls of apps/api/src/orders/order.service.ts as values, and what serving one after another does:
-- `UnitOfWork.run` (apps/api/src/common/unit-of-work.ts) keeps what a call that returns has written, and
-- drops what a call that throws has written.
use construct_fin.Prelude.{ℕ, Option, List, [], ◌∷◌, ℤ, All}
use construct_fin.Prelude.Result.{Result, ok, err}
use construct_fin.Decimal.{Decimals}
use construct_fin.Warehouse.State.{Caller}
use construct_fin.Orders.State.{Books, OrderError}
use construct_fin.Orders.Calls.{Call}
use construct_fin.Orders.Payments.{
  add_payment, add_installment_payment, delete_payment, set_schedule,
}
use construct_fin.Orders.Edit.{
  ItemInput, or_no_items, create_order, edit_order, add_external_items, remove_external_items,
}
use construct_fin.Orders.Shipping.{ship, return_item}
use construct_fin.Orders.Closing.{finalize, cancel, reopen, remove_order}
use construct_fin.Orders.NewLines.{InputValid}

-- A method of the service with its arguments. `year` is that of the number of a new order.
pub data OrderCall : Type 0 where
  take_order :
      (year : ℕ) (client : Option ℕ) (discount : Option ℤ) (items : List ItemInput) → OrderCall
  edit :
      (id : ℕ) (client : Option (Option ℕ)) (discount : Option ℤ) (items : Option (List ItemInput))
      → OrderCall
  add_external : (id : ℕ) (items : List ItemInput) → OrderCall
  remove_external : (id : ℕ) (lines : List ℕ) → OrderCall
  pay : (id : ℕ) (amount : ℤ) (account : ℕ) (date : Option ℤ) → OrderCall
  pay_by_installments : (id : ℕ) (amount fee : ℤ) (account : ℕ) (date : Option ℤ) → OrderCall
  unpay : (id tx : ℕ) → OrderCall
  plan_payments : (id : ℕ) (entries : List (ℕ × ℤ)) → OrderCall
  ship_line : (id line : ℕ) (q : ℤ) → OrderCall
  return_line : (id line : ℕ) (q refund : ℤ) (account : ℕ) (date : Option ℤ) → OrderCall
  close : (id : ℕ) (closed_on : Option ℤ) → OrderCall
  cancel_order : (id : ℕ) → OrderCall
  reopen_order : (id : ℕ) → OrderCall
  delete_order : (id : ℕ) → OrderCall

-- A call, by whom, and the end of the day on which it is made.
pub record Request : Type 0 where
  pub caller : Caller
  pub end_of_day : ℤ
  pub call : OrderCall

-- What the schemas of the request let through.
abbrev pub CallValid : OrderCall → Type 0
CallValid (take_order year client discount items) = All InputValid items
CallValid (edit id client discount items) = All InputValid (or_no_items items)
CallValid (add_external id items) = All InputValid items
CallValid (remove_external id lines) = Unit
CallValid (pay id amount account date) = Unit
CallValid (pay_by_installments id amount fee account date) = Unit
CallValid (unpay id tx) = Unit
CallValid (plan_payments id entries) = Unit
CallValid (ship_line id line q) = Unit
CallValid (return_line id line q refund account date) = Unit
CallValid (close id closed_on) = Unit
CallValid (cancel_order id) = Unit
CallValid (reopen_order id) = Unit
CallValid (delete_order id) = Unit

-- What a call leaves of the books.
abbrev pub committed : Books → Result OrderError (Unit {0} × Books) → Books
committed a (ok (r, b)) = b
committed a (err e) = a

module _ (d : Decimals) where
  unfoldable pub call_of : Caller → ℤ → OrderCall → Call (Unit {0})
  call_of c end_of_day (take_order year client discount items) =
      create_order d c year client discount items
  call_of c end_of_day (edit id client discount items) = edit_order d c id client discount items
  call_of c end_of_day (add_external id items) = add_external_items d c id items
  call_of c end_of_day (remove_external id lines) = remove_external_items d c id lines
  call_of c end_of_day (pay id amount account date) =
      add_payment d c end_of_day id amount account date
  call_of c end_of_day (pay_by_installments id amount fee account date) =
      add_installment_payment d c end_of_day id amount fee account date
  call_of c end_of_day (unpay id tx) = delete_payment d c id tx
  call_of c end_of_day (plan_payments id entries) = set_schedule c id entries
  call_of c end_of_day (ship_line id line q) = ship d c id line q
  call_of c end_of_day (return_line id line q refund account date) =
      return_item d c end_of_day id line q refund account date
  call_of c end_of_day (close id closed_on) = finalize d c end_of_day id closed_on
  call_of c end_of_day (cancel_order id) = cancel d c id
  call_of c end_of_day (reopen_order id) = reopen d c id
  call_of c end_of_day (delete_order id) = remove_order d c id

  -- The books after one request, and after a list of them.
  unfoldable pub serve : Request → Books → Books
  unfolding call_of
  serve r a = committed a (call_of r.caller r.end_of_day r.call a)

  unfoldable pub serve_all : List Request → Books → Books
  unfolding serve
  serve_all [] a = a
  serve_all (r ∷ rs) a = serve_all rs (serve r a)
