-- ===== src/Orders/Edit.antt =====
-- apps/api/src/orders/order.service.ts: taking an order, and changing its lines, its client and its
-- discount. Names, phone numbers, notes and the expected date are left out, and so is the retry of a
-- number that another call took at the same moment.
use construct_fin.Prelude.{
  ℕ, suc, ◌+◌, length, Bool, true, false, not, ◌&&◌, ◌||◌, Option, none, some, List, [], ◌∷◌, ◌++◌,
  map, ℤ, pos, ◌+ℤ◌, ◌-ℤ◌, ◌*ℤ◌, ltb_ℤ, ◌==◌, if◌then◌else◌, find, keep, has, any, sum_by,
}
use construct_fin.Prelude.Result.{ok, err}
use construct_fin.Decimal.{Decimals, money}
use construct_fin.Warehouse.State.{Caller}
use construct_fin.Warehouse.Stock.{is_active, or_kept}
use construct_fin.Orders.State.{
  OrderStatus, open_order, done, cancelled, unpaid, OrderItem, Order, client_not_found,
  item_refs_not_found, discount_above_subtotal, not_editable, already_shipped, lines_not_found,
  line_in_use,
}
use construct_fin.Orders.Calls.{Call, ◌>>=◌, ◌>>◌, throw_when, gets, modify, pure, hand_out}
use construct_fin.Orders.Repository.{lock_and_load, update_order, next_number}
use construct_fin.Orders.Payments.{sync_payment_state}

-- `OrderItemInput`
pub record ItemInput : Type 0 where
  pub warehouse_item : Option ℕ
  pub qty : ℤ
  pub unit_price : ℤ
  pub unit_cost : Option ℤ

abbrev pub or_no_items : Option (List ItemInput) → List ItemInput
or_no_items none = []
or_no_items (some items) = items

-- A line of a receipt never stands for a warehouse item.
abbrev pub outside : ItemInput → ItemInput
outside i = record i { warehouse_item = none }

abbrev pub add_ref : Option ℕ → List ℕ → List ℕ
add_ref none ks = ks
add_ref (some k) ks = k ∷ ks

abbrev pub refs_of : List ItemInput → List ℕ
refs_of [] = []
refs_of (i ∷ is) = add_ref i.warehouse_item (refs_of is)

-- `[...new Set(ids)]`
abbrev pub distinct : List ℕ → List ℕ
distinct [] = []
distinct (k ∷ ks) = let rest = distinct ks in if has k ks then rest else k ∷ rest

-- `assertOrderRefs`, its two halves.
unfoldable pub assert_client : ℕ → Option ℕ → Call (Unit {0})
assert_client ws none b = ok (tt, b)
assert_client ws (some id) b = elim (find (is_active ws id) b.clients) [
  | none ↦ err client_not_found
  | some p ↦ ok (tt, b)
]

unfoldable pub assert_order_refs : ℕ → Option ℕ → List ItemInput → Call (Unit {0})
unfolding assert_client
assert_order_refs ws client items = do
  assert_client ws client
  found ← gets (λ b.
      keep (λ i. has i.id (refs_of items) && i.workspace == ws && not i.deleted) b.stock.items)
  throw_when (not (length found == length (distinct (refs_of items)))) item_refs_not_found

-- `subtotalOf`, in units of 10^-5.
abbrev pub subtotal_of : List ItemInput → ℤ
subtotal_of items = sum_by (λ i. i.qty *ℤ i.unit_price) items

abbrev pub is_closed : OrderStatus → Bool
is_closed open_order = false
is_closed done = true
is_closed cancelled = true

module _ (d : Decimals) where
  -- The lines that `items: { create: ... }` writes, with their new keys.
  abbrev pub new_items : ℕ → List ItemInput → List OrderItem
  new_items key [] = []
  new_items key (i ∷ is) =
      record {
        id = key;
        warehouse_item = i.warehouse_item;
        qty = i.qty;
        unit_price = i.unit_price;
        unit_cost = i.unit_cost;
        unit_cost_at_sale = none;
        returned_qty = pos 0;
        shipped_qty = pos 0;
        line_total = money d 3 (i.qty *ℤ i.unit_price);
      }
      ∷ new_items (suc key) is

  -- `create`: a discount above the sum of the lines is refused.
  unfoldable pub create_order : Caller → ℕ → Option ℕ → Option ℤ → List ItemInput → Call (Unit {0})
  unfolding assert_order_refs
  create_order c year client discount items = do
    assert_order_refs c.workspace client items
    let subtotal = money d 3 (subtotal_of items)
    let off = or_kept discount (pos 0)
    throw_when (ltb_ℤ subtotal off) discount_above_subtotal
    number ← gets (next_number c.workspace year)
    modify (λ b. record b {
      orders =
          record {
            id = b.next_id;
            workspace = c.workspace;
            number = number;
            client = client;
            status = open_order;
            payment_status = unpaid;
            subtotal = subtotal;
            discount_amount = off;
            total_amount = subtotal -ℤ off;
            paid_amount = pos 0;
            closed_at = none;
            items = new_items (suc b.next_id) items;
            transactions = [];
            returns = [];
            schedule = [];
            deleted = false;
          }
          ∷ b.orders;
      next_id = suc b.next_id + length items;
    })

  -- The lines are replaced, and the sums follow.
  unfoldable pub replace_items : ℕ → Order → Option ℤ → List ItemInput → Call (Unit {0})
  unfolding hand_out
  replace_items id order discount items = do
    let subtotal = money d 3 (subtotal_of items)
    let off = or_kept discount order.discount_amount
    throw_when (ltb_ℤ subtotal off) discount_above_subtotal
    key ← hand_out (length items)
    modify (
        update_order id (λ o. record o {
          subtotal = subtotal;
          discount_amount = off;
          total_amount = subtotal -ℤ off;
          items = new_items key items;
        }))

  -- `recomputeWithDiscount`, where only the discount changes.
  unfoldable pub discount_only : ℕ → Order → Option ℤ → Call (Unit {0})
  discount_only id order none = pure tt
  discount_only id order (some off) = do
    throw_when (ltb_ℤ order.subtotal off) discount_above_subtotal
    modify (
        update_order id
          (λ o. record o { discount_amount = off; total_amount = order.subtotal -ℤ off }))

  unfoldable pub update_lines : ℕ → Order → Option ℤ → Option (List ItemInput) → Call (Unit {0})
  unfolding replace_items discount_only
  update_lines id order discount none = discount_only id order discount
  update_lines id order discount (some items) = do
    throw_when (any (λ i. ltb_ℤ (pos 0) i.shipped_qty) order.items) already_shipped
    replace_items id order discount items

  -- `update`; what is `none` stays, and `some none` takes the client off.
  unfoldable pub edit_order :
      Caller → ℕ → Option (Option ℕ) → Option ℤ → Option (List ItemInput) → Call (Unit {0})
  unfolding assert_order_refs update_lines sync_payment_state
  edit_order c id client discount items = do
    assert_order_refs c.workspace (or_kept client none) (or_no_items items)
    order ← lock_and_load c.workspace id
    throw_when (is_closed order.status) not_editable
    update_lines id order discount items
    modify (update_order id (λ o. record o { client = or_kept client o.client }))
    modify (sync_payment_state d id)

  -- `addExternalItems`: lines of a receipt, outside the warehouse.
  unfoldable pub add_external_items : Caller → ℕ → List ItemInput → Call (Unit {0})
  unfolding sync_payment_state hand_out
  add_external_items c id items = do
    order ← lock_and_load c.workspace id
    throw_when (is_closed order.status) not_editable
    key ← hand_out (length items)
    let lines = new_items key (map outside items)
    let subtotal = order.subtotal +ℤ sum_by (λ l. l.line_total) lines
    modify (
        update_order id (λ o. record o {
          items = o.items ++ lines;
          subtotal = subtotal;
          total_amount = subtotal -ℤ order.discount_amount;
        }))
    modify (sync_payment_state d id)

  -- `removeExternalItems`: only lines of which nothing has left or come back.
  unfoldable pub remove_external_items : Caller → ℕ → List ℕ → Call (Unit {0})
  unfolding sync_payment_state
  remove_external_items c id [] = pure tt
  remove_external_items c id (k ∷ ks) = do
    order ← lock_and_load c.workspace id
    throw_when (is_closed order.status) not_editable
    let lines = keep (λ i. has i.id (k ∷ ks)) order.items
    throw_when (not (length lines == length (k ∷ ks))) lines_not_found
    throw_when (any (λ i. ltb_ℤ (pos 0) i.shipped_qty || ltb_ℤ (pos 0) i.returned_qty) lines)
        line_in_use
    let subtotal = order.subtotal -ℤ sum_by (λ l. l.line_total) lines
    throw_when (ltb_ℤ subtotal order.discount_amount) discount_above_subtotal
    modify (
        update_order id (λ o. record o {
          items = keep (λ i. not (has i.id (k ∷ ks))) o.items;
          subtotal = subtotal;
          total_amount = subtotal -ℤ order.discount_amount;
        }))
    modify (sync_payment_state d id)
