-- ===== src/Orders/Served.antt =====
-- Whatever is asked of apps/api/src/orders/order.service.ts, every order stays sound.
use construct_fin.Prelude.{inl, inr, List, [], ◌∷◌, ℤ, All}
use construct_fin.Prelude.Result.{Result-cases}
use construct_fin.Decimal.{Decimals, IsRounding}
use construct_fin.Warehouse.State.{Caller}
use construct_fin.Orders.State.{Books}
use construct_fin.Orders.Rows.{Ensures, Rows}
use construct_fin.Orders.Sound.{SoundIfLive}
use construct_fin.Orders.Taking.{
  add_payment-Rows, add_installment_payment-Rows, delete_payment-Rows, set_schedule-Rows,
}
use construct_fin.Orders.Changing.{
  create_order-Rows, edit_order-Rows, add_external_items-Rows, remove_external_items-Rows,
}
use construct_fin.Orders.Shipped.{ship-Rows, return_item-Rows}
use construct_fin.Orders.Closed.{finalize-Rows}
use construct_fin.Orders.Undoing.{cancel-Rows, reopen-Rows, remove_order-Rows}
use construct_fin.Orders.Serving.{
  OrderCall, take_order, edit, add_external, remove_external, pay, pay_by_installments, unpay,
  plan_payments, ship_line, return_line, close, cancel_order, reopen_order, delete_order, Request,
  CallValid, call_of, serve, serve_all,
}

module _ (d : Decimals) (rounding : IsRounding d) where
  call_of-Rows :
      (c : Caller) (end_of_day : ℤ) (call : OrderCall)
      → CallValid call
      → Ensures (Rows (SoundIfLive d)) (call_of d c end_of_day call) (λ _ b. Rows (SoundIfLive d) b)
  unfolding call_of
  call_of-Rows c end_of_day (take_order year client discount items) v =
      create_order-Rows d c year client discount items rounding v
  call_of-Rows c end_of_day (edit id client discount items) v =
      edit_order-Rows d c id client discount items v
  call_of-Rows c end_of_day (add_external id items) v =
      add_external_items-Rows d c id items rounding v
  call_of-Rows c end_of_day (remove_external id lines) v = remove_external_items-Rows d c id lines
  call_of-Rows c end_of_day (pay id amount account date) v =
      add_payment-Rows d c end_of_day id amount account date
  call_of-Rows c end_of_day (pay_by_installments id amount fee account date) v =
      add_installment_payment-Rows d c end_of_day id amount fee account date
  call_of-Rows c end_of_day (unpay id tx) v = delete_payment-Rows d c id tx
  call_of-Rows c end_of_day (plan_payments id entries) v = set_schedule-Rows d c id entries
  call_of-Rows c end_of_day (ship_line id line q) v = ship-Rows d c id line q
  call_of-Rows c end_of_day (return_line id line q refund account date) v =
      return_item-Rows d c id end_of_day line q refund account date
  call_of-Rows c end_of_day (close id closed_on) v = finalize-Rows d c id end_of_day closed_on
  call_of-Rows c end_of_day (cancel_order id) v = cancel-Rows d c id
  call_of-Rows c end_of_day (reopen_order id) v = reopen-Rows d c id
  call_of-Rows c end_of_day (delete_order id) v = remove_order-Rows d c id

  serve-Rows :
      (r : Request) (a : Books)
      → CallValid r.call
      → Rows (SoundIfLive d) a
      → Rows (SoundIfLive d) (serve d r a)
  unfolding serve
  serve-Rows r a v p = elim (Result-cases (call_of d r.caller r.end_of_day r.call a)) [
    | inl ((x, b), went) ↦ rw went ((call_of-Rows r.caller r.end_of_day r.call v).at a x b p went)
    | inr (e, threw) ↦ rw threw p
  ]

  -- On books in which every live order is sound and no two rows share a key, whatever valid requests are
  -- served one after another, by any callers, refused or not, every live order is sound after them and no
  -- two rows share a key: what is paid is the payments less the refunds; the payment state follows from
  -- it and the revenue left, except that nothing is said of the state of a cancelled order, and that an
  -- order with a total of zero may also stand as unpaid, as it is taken; the total is the subtotal less a discount that is no larger; and the quantities of
  -- the lines fit the status.
  pub serve_all-Rows :
      (requests : List Request) (a : Books)
      → All (λ r. CallValid r.call) requests
      → Rows (SoundIfLive d) a
      → Rows (SoundIfLive d) (serve_all d requests a)
  unfolding serve_all
  serve_all-Rows [] a v p = p
  serve_all-Rows (r ∷ rs) a (v, vs) p = serve_all-Rows rs (serve d r a) vs (serve-Rows r a v p)
