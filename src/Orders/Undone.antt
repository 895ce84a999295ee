-- ===== src/Orders/Undone.antt =====
-- What reverseFinalization (apps/api/src/orders/order.service.ts) leaves of an order: nothing of its
-- lines is out any more, and its payments are as they were.
use construct_fin.Prelude.{
  ℕ, ◌≡◌, refl, sym, ◌∙◌, ap, inl, inr, not, Bool, true, false, ◌||◌, ◌&&◌, Option, some, none,
  List, [], ◌∷◌, map, arith, int_laws, ℤ, pos, ◌-ℤ◌, ◌≤ℤ◌, ltb_ℤ, All, All-map, All-map₂,
  Bool-cases, if◌then◌else◌,
}
use construct_fin.Decimal.{Decimals}
use construct_fin.Sorting.{sort}
use construct_fin.Warehouse.State.{Caller}
use construct_fin.Orders.State.{
  OrderStatus, open_order, done, cancelled, OrderTxKind, order_payment, order_refund, variable_cost,
  cogs, Order, OrderItem, OrderTx,
}
use construct_fin.Orders.Calls.{modify}
use construct_fin.Orders.Repository.{update_order, update_item}
use construct_fin.Orders.Payments.{sum_of, is_payment, is_refund, delete_txs}
use construct_fin.Orders.Shipping.{by_warehouse_item, is_cogs, put_back}
use construct_fin.Orders.Closing.{
  net_out, restore_line, has_cost, fresh_line, reset_line, restore_lines,
}
use construct_fin.Orders.Rows.{Ensures, AtRow, if_made, and_then, pure_ends, weaken}
use construct_fin.Orders.Writes.{
  SomeLines, from_lines, update_item-KeepsKeys, write_ends, on_stock-AtRow,
}
use construct_fin.Orders.Sound.{LineSound, DistinctLines, Sound, SoundIfLive}
use construct_fin.Orders.Written.{written_apart, written_all}
use construct_fin.Orders.Progress.{write_line, Step, Progress, advance, start, stay, finished}

-- A row holds no more than the line that was read says is out.
abbrev pub NoMoreOut : OrderItem → OrderItem → Type 0
NoMoreOut it i =
    (pos 0 ≤ℤ i.shipped_qty)
    × (i.shipped_qty ≤ℤ it.shipped_qty)
    × (pos 0 ≤ℤ i.returned_qty)
    × (i.returned_qty ≤ℤ it.returned_qty)

abbrev pub NoneOut : OrderItem → Type 0
NoneOut i = (i.returned_qty ≡ pos 0) × (i.shipped_qty ≡ pos 0)

pub record UndoneLines (left is : List OrderItem) : Type 0 where
  pub progress : Progress NoMoreOut NoneOut left is
  pub apart : DistinctLines is
  pub whole : All (λ i. pos 0 ≤ℤ i.qty) is

reset-Step : (it : OrderItem) → Step NoMoreOut NoneOut it fresh_line
reset-Step it = record {
  key = λ i. refl;
  reach = λ i a. (refl, refl);
  keep = λ jt i a e. ground (arith, e);
}

cogs_kind : (k : OrderTxKind) → is_cogs k ≡ true → k ≡ cogs
cogs_kind order_payment h = cc
cogs_kind order_refund h = cc
cogs_kind variable_cost h = cc
cogs_kind cogs h = refl

reset_lines :
    (it : OrderItem) (left is : List OrderItem)
    → UndoneLines (it ∷ left) is
    → UndoneLines left (write_line it.id fresh_line is)
reset_lines it left is p = record {
  progress = advance NoMoreOut NoneOut it left is fresh_line (reset-Step it) p.progress;
  apart = written_apart it.id fresh_line is (λ i. refl) p.apart;
  whole = written_all _ it.id fresh_line is (λ i h. h) p.whole;
}

same_head :
    (p : OrderTxKind → Bool) (t : OrderTx) (ts us : List OrderTx)
    → sum_of p ts ≡ sum_of p us
    → sum_of p (t ∷ ts) ≡ sum_of p (t ∷ us)
unfolding sum_of
same_head p t ts us e = elim (Bool-cases (p t.kind && not t.deleted)) [
  | inl counts ↦ rw (counts, e) refl
  | inr not_so ↦ rw (not_so, e) refl
]

no_head :
    (p : OrderTxKind → Bool) (t : OrderTx) (ts : List OrderTx)
    → p t.kind ≡ false
    → sum_of p (t ∷ ts) ≡ sum_of p ts
unfolding sum_of
no_head p t ts out = rw out refl

-- The kinds of payments are not touched where costs are deleted.
cost_gone :
    (p : OrderTxKind → Bool) (ts : List OrderTx)
    → p cogs ≡ false
    → sum_of p
        (map (λ t. if is_cogs t.kind && not t.deleted then record t { deleted = true } else t) ts)
      ≡ sum_of p ts
cost_gone p [] h = refl
cost_gone p (t ∷ ts) h = elim (Bool-cases (is_cogs t.kind && not t.deleted)) [
  | inl hit ↦
      let out : p t.kind ≡ false = ap p (cogs_kind t.kind (ground (arith, hit))) ∙ h in
      rw hit (
        no_head p (record t { deleted = true }) _ out ∙ cost_gone p ts h ∙ sym (no_head p t ts out))
  | inr miss ↦ rw miss (same_head p t _ ts (cost_gone p ts h))
]

module _ (d : Decimals) (c : Caller) (id : ℕ) where
  abbrev S : Order → Type 0
  S = SoundIfLive d

  restores :
      (o : Order) (status : OrderStatus) (it : OrderItem) (key : Option ℕ)
      → Ensures (AtRow S id o) (restore_line d c id status it key) (λ _ b. AtRow S id o b)
  unfolding restore_line
  restores o status it none = pure_ends _ tt (λ b v. v)
  restores o status it (some key) =
      if_made _ (ltb_ℤ (pos 0) (net_out status it)) _ tt
        (on_stock-AtRow S id o (put_back d c id it (net_out status it) key)) (λ b v. v)

  -- A line is reset, or has nothing to be reset.
  resets_if :
      (o : Order) (it : OrderItem) (left is : List OrderItem) (test : Bool)
      → (test ≡ false → (i : OrderItem) → NoMoreOut it i → NoneOut i)
      → UndoneLines (it ∷ left) is
      → Ensures
          (AtRow S id (record o { items = is }))
          (modify (λ b. if test then update_order id (update_item it.id fresh_line) b else b))
          (λ _ b. SomeLines S (UndoneLines left) id o b)
  unfolding update_item
  resets_if o it left is true clean p =
      weaken _ _ _
        (write_ends S id (record o { items = is }) _
          (update_item-KeepsKeys it.id fresh_line (λ i. refl)))
        (λ r b v. (_, reset_lines it left is p, v))
  resets_if o it left is false clean p = pure_ends _ tt (λ b v. (
    is,
    (record {
      progress = stay NoMoreOut NoneOut it left is (clean refl) p.progress;
      apart = p.apart;
      whole = p.whole;
    }),
    v,
  ))

  resets :
      (o : Order) (it : OrderItem) (left is : List OrderItem)
      → UndoneLines (it ∷ left) is
      → Ensures
          (AtRow S id (record o { items = is }))
          (modify (reset_line id it))
          (λ _ b. SomeLines S (UndoneLines left) id o b)
  unfolding reset_line
  resets o it left is p =
      resets_if o it left is
        (ltb_ℤ (pos 0) it.shipped_qty
          || has_cost it.unit_cost_at_sale
          || ltb_ℤ (pos 0) it.returned_qty)
        (λ clean i (low, high, from, upto).
          (ground (arith, clean, from, upto), ground (arith, clean, low, high)))
        p

  pub restore_lines-Undone :
      (o : Order) (status : OrderStatus) (left : List OrderItem)
      → Ensures
          (SomeLines S (UndoneLines left) id o)
          (restore_lines d c id status left)
          (λ _ b. SomeLines S (UndoneLines []) id o b)
  unfolding restore_lines
  restore_lines-Undone o status [] = pure_ends _ tt (λ b v. v)
  restore_lines-Undone o status (it ∷ left) = from_lines _ id o _ λ is p.
      and_then _ _ _ (restores (record o { items = is }) status it it.warehouse_item)
        λ _. and_then _ _ _ (resets o it left is p) λ _. restore_lines-Undone o status left

-- The order once its closing is undone.
abbrev pub undone_order : Order → List OrderItem → Order
undone_order o is =
    record (delete_txs (λ t. is_cogs t.kind && not t.deleted) (record o { items = is })) {
      returns = [];
    }

-- What is sold, out and back is not negative, whatever the status.
line_low :
    (status : OrderStatus) (i : OrderItem)
    → LineSound status i
    → (pos 0 ≤ℤ i.shipped_qty) × (pos 0 ≤ℤ i.returned_qty) × (pos 0 ≤ℤ i.qty)
line_low open_order i (back, low, high) = (low, ground (arith, back), omega (arith, low, high))
line_low done i (out, low, high) = (ground (arith, out, low, high), low, omega (arith, low, high))
line_low cancelled i (back, out, low) = (ground (arith, out), ground (arith, back), low)

le_self : (x : ℤ) → x ≤ℤ x
le_self x = omega (arith, int_laws)

module _ (d : Decimals) (o : Order) (s : Sound d o) where
  pub undone_starts : UndoneLines (sort by_warehouse_item o.items) o.items
  undone_starts =
      let low = All-map (LineSound o.status) _ (line_low o.status) o.items s.lines in
      record {
        progress = start NoMoreOut NoneOut by_warehouse_item o.items s.keys (
            All-map _ (λ i. NoMoreOut i i)
              (λ i (out, back, qty). (out, le_self i.shipped_qty, back, le_self i.returned_qty))
              o.items low);
        apart = s.keys;
        whole = All-map _ (λ i. pos 0 ≤ℤ i.qty) (λ i (out, back, qty). qty) o.items low;
      }

  pub undone_paid :
      (is : List OrderItem)
      → o.paid_amount
        ≡ sum_of is_payment (undone_order o is).transactions
          -ℤ sum_of is_refund (undone_order o is).transactions
  undone_paid is =
      s.paid
      ∙ sym (
          rw (cost_gone is_payment o.transactions refl, cost_gone is_refund o.transactions refl)
            refl)

  pub undone_lines :
      (P : OrderItem → Type 0) (is : List OrderItem)
      → UndoneLines [] is
      → ((i : OrderItem) → NoneOut i → pos 0 ≤ℤ i.qty → P i)
      → All P is
  undone_lines P is p f =
      All-map₂ NoneOut (λ i. pos 0 ≤ℤ i.qty) P f is (finished NoMoreOut NoneOut is p.progress.goal)
        p.whole

  pub cancelled-Sound :
      (is : List OrderItem)
      → UndoneLines [] is
      → Sound d (record (undone_order o is) { status = cancelled })
  cancelled-Sound is p = record {
    paid = undone_paid is;
    state = tt;
    total = s.total;
    discount = s.discount;
    lines = undone_lines (LineSound cancelled) is p (λ i (back, out) low. (back, out, low));
    keys = p.apart;
  }
