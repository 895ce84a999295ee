-- ===== src/Orders/Sound.antt =====
-- What holds of every order between two calls of apps/api/src/orders/order.service.ts.
use construct_fin.Prelude.{
  ◌⊎◌, ◌≡◌, ◌≢◌, refl, inl, inr, Bool, true, false, List, [], ◌∷◌, arith, ℤ, pos, ◌-ℤ◌, ◌≤ℤ◌,
  if◌then◌else◌, All, Bool-cases,
}
use construct_fin.Decimal.{Decimals}
use construct_fin.Orders.State.{unpaid, OrderStatus, open_order, done, cancelled, OrderItem, Order}
use construct_fin.Orders.Payments.{
  resolve_payment_state, sum_of, is_payment, is_refund, net_revenue, returned_value, synced,
  is_cancelled,
}

-- The quantities of a line, by the status of its order.
abbrev pub LineSound : OrderStatus → OrderItem → Type 0
LineSound open_order i =
    (i.returned_qty ≡ pos 0) × (pos 0 ≤ℤ i.shipped_qty) × (i.shipped_qty ≤ℤ i.qty)
LineSound done i = (i.shipped_qty ≡ i.qty) × (pos 0 ≤ℤ i.returned_qty) × (i.returned_qty ≤ℤ i.qty)
LineSound cancelled i = (i.returned_qty ≡ pos 0) × (i.shipped_qty ≡ pos 0) × (pos 0 ≤ℤ i.qty)

abbrev pub DistinctLines : List OrderItem → Type 0
DistinctLines [] = Unit
DistinctLines (i ∷ is) = All (λ j. j.id ≢ i.id) is × DistinctLines is

-- What has been paid, less what was paid back.
abbrev pub paid_of : Order → ℤ
paid_of o = sum_of is_payment o.transactions -ℤ sum_of is_refund o.transactions

-- The payment state follows the amounts, unless the order is cancelled; one that costs nothing may
-- also stand as it was taken.
abbrev pub InSync : Decimals → Order → Type 0
InSync d o =
    if is_cancelled o.status
    then Unit
    else (o.payment_status ≡ resolve_payment_state o.paid_amount (net_revenue d o))
    ⊎ ((o.total_amount ≡ pos 0) × (o.payment_status ≡ unpaid))

pub record Sound (d : Decimals) (o : Order) : Type 0 where
  pub paid : o.paid_amount ≡ paid_of o
  pub state : InSync d o
  pub total : o.total_amount ≡ o.subtotal -ℤ o.discount_amount
  pub discount : o.discount_amount ≤ℤ o.subtotal
  pub lines : All (LineSound o.status) o.items
  pub keys : DistinctLines o.items

abbrev pub SoundIfLive : Decimals → Order → Type 0
SoundIfLive d o = if o.deleted then Unit else Sound d o

pub live-Sound : (d : Decimals) (o : Order) → SoundIfLive d o → o.deleted ≡ false → Sound d o
live-Sound d o h live = ground (arith, h, live)

unless_deleted : (b : Bool) (P : Type 0) → P → if b then Unit else P
unless_deleted true P h = tt
unless_deleted false P h = h

pub Sound-live : (d : Decimals) (o : Order) → Sound d o → SoundIfLive d o
Sound-live d o h = unless_deleted o.deleted (Sound d o) h

-- `syncPaymentState` puts the two amounts of an order right, whatever they were.
pub synced-Sound :
    (d : Decimals) (o : Order)
    → o.total_amount ≡ o.subtotal -ℤ o.discount_amount
    → o.discount_amount ≤ℤ o.subtotal
    → All (LineSound o.status) o.items
    → DistinctLines o.items
    → Sound d (synced d o)
unfolding synced
synced-Sound d o total discount lines keys = record {
  paid = refl;
  state = elim (Bool-cases (is_cancelled o.status)) [
    | inl off ↦ rw off tt
    | inr on ↦ rw on (inl refl)
  ];
  total = total;
  discount = discount;
  lines = lines;
  keys = keys;
}

-- The state stays right where nothing that it depends on changes.
pub kept_sync :
    (d : Decimals) (o p : Order)
    → is_cancelled p.status ≡ is_cancelled o.status
    → p.total_amount ≡ o.total_amount
    → p.payment_status ≡ o.payment_status
    → p.paid_amount ≡ o.paid_amount
    → returned_value p.items ≡ returned_value o.items
    → InSync d o
    → InSync d p
unfolding net_revenue
kept_sync d o p status total state paid value h = rw (status, total, state, paid, value) h
