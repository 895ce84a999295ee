-- ===== src/Orders/Changing.antt =====
-- Taking and changing an order (apps/api/src/orders/order.service.ts: create, update,
-- addExternalItems, removeExternalItems) keeps every order sound.
use construct_fin.Prelude.{
  ℕ, suc, ◌+◌, ◌<◌, length, ◌≡◌, ◌≢◌, refl, sym, ◌∙◌, ap, not, true, false, Option, some, none,
  List, [], ◌∷◌, map, arith, int_laws, ℤ, pos, ◌-ℤ◌, ◌*ℤ◌, ◌≤ℤ◌, ltb_ℤ, eqb_ℤ, max_ℤ, All, All-map,
  All-append, Bool-cases, Option-cases, inl, inr, find, has, zero_*ℤ, *ℤ_nonneg, ltb_ℤ→le, ltb_ℤ→lt,
}
use mathlib.Core.Path.{subst}
use construct_fin.Decimal.{Decimals, IsRounding, money}
use construct_fin.Warehouse.State.{Caller}
use construct_fin.Warehouse.Stock.{or_kept, is_active}
use construct_fin.Orders.State.{
  open_order, unpaid, Order, OrderItem, Books, item_refs_not_found, not_editable, already_shipped,
  discount_above_subtotal, lines_not_found, line_in_use,
}
use construct_fin.Orders.Payments.{
  net_revenue, returned_value, resolve_payment_state, is_cancelled, sum_of, is_payment, is_refund,
}
use construct_fin.Orders.Edit.{
  ItemInput, new_items, subtotal_of, outside, is_closed, assert_client, assert_order_refs,
  create_order, or_no_items, update_lines, edit_order, add_external_items, remove_external_items,
}
use construct_fin.Orders.Rows.{
  weaken, pure_ends, Below, Below-le, Ensures, Rows, AtRow, LooksOnly, and_then, after_guard,
  after_guard_only, after_check, after_load, after_gets,
}
use construct_fin.Orders.Writes.{after_write, after_keys, keys_end, write_ends, from_some}
use construct_fin.Orders.Sound.{LineSound, DistinctLines, InSync, Sound, SoundIfLive, live-Sound}
use construct_fin.Orders.Taking.{end_sync}
use construct_fin.Orders.NewLines.{
  InputValid, new_items-LineSound, new_items-DistinctLines, new_items-below, outside_below,
  outside_lines, line_totals_nonneg, appended, kept_distinct,
}
use construct_fin.Warehouse.OpenLots.{All-keep}

assert_client-LooksOnly : (ws : ℕ) (client : Option ℕ) → LooksOnly (assert_client ws client)
unfolding assert_client
assert_client-LooksOnly ws none a b r e = ground (arith, e)
assert_client-LooksOnly ws (some id) a b r e =
    elim (Option-cases (find (is_active ws id) a.clients)) [
      | inl missing ↦ absurd (ground (arith, missing, e))
      | inr (p, found) ↦ ground (arith, found, e)
    ]

pub assert_order_refs-LooksOnly :
    (ws : ℕ) (client : Option ℕ) (items : List ItemInput)
    → LooksOnly (assert_order_refs ws client items)
unfolding assert_order_refs
assert_order_refs-LooksOnly ws client items a b r e =
    (after_check {P = λ x. x ≡ a} {R = λ _ x. x ≡ a} _ _ (assert_client-LooksOnly ws client)
        (after_gets _ _ λ found. after_guard_only _ item_refs_not_found)).at
      a r b refl e

-- Nothing has come back on new lines.
pub new_returned :
    (d : Decimals) (key : ℕ) (is : List ItemInput) → returned_value (new_items d key is) ≡ pos 0
unfolding returned_value
new_returned d key [] = refl
new_returned d key (i ∷ is) =
    rw (zero_*ℤ i.unit_price, new_returned d (suc key) is) (omega int_laws)

nothing_paid : pos 0 ≡ sum_of is_payment [] -ℤ sum_of is_refund []
unfolding sum_of ◌-ℤ◌
nothing_paid = refl

max_left : (x : ℤ) → pos 0 ≤ℤ x → max_ℤ (x -ℤ pos 0) (pos 0) ≡ x
max_left x h = elim (Bool-cases (ltb_ℤ (x -ℤ pos 0) (pos 0))) [
  | inl below ↦ absurd (omega (int_laws, ltb_ℤ→lt (x -ℤ pos 0) (pos 0) below))
  | inr above ↦ rw above (omega int_laws)
]

fresh_key : (n : ℕ) (os : List Order) → All (Below n) os → All (λ p. p.id ≢ n) os
fresh_key n [] h = tt
fresh_key n (o ∷ os) ((lt, _), h) = ((λ e. omega (arith, e, lt)), fresh_key n os h)

-- Where nothing has come back, the net revenue is the total.
pub net_total :
    (d : Decimals) (o : Order)
    → IsRounding d
    → returned_value o.items ≡ pos 0
    → pos 0 ≤ℤ o.total_amount
    → net_revenue d o ≡ o.total_amount
unfolding net_revenue money
net_total d o rounding none_back total =
    let nonneg = *ℤ_nonneg o.total_amount (pos 1000) total (omega arith) in
    let whole : max_ℤ (o.total_amount *ℤ pos 1000 -ℤ returned_value o.items) (pos 0)
        ≡ o.total_amount *ℤ pos 1000 =
      rw none_back (max_left (o.total_amount *ℤ pos 1000) nonneg) in
    ap (d.half_up 3) whole ∙ rounding.exact 3 o.total_amount

starts_unpaid :
    (paid total : ℤ)
    → paid ≡ pos 0
    → pos 0 ≤ℤ total
    → eqb_ℤ total (pos 0) ≡ false
    → resolve_payment_state paid total ≡ unpaid
unfolding resolve_payment_state
starts_unpaid paid total p t n = ground arith

zero_total : (x : ℤ) → eqb_ℤ x (pos 0) ≡ true → x ≡ pos 0
zero_total x h = ground (arith, h)

-- An order that costs something starts unpaid as its amounts have it, and so does one that costs nothing.
new_InSync :
    (d : Decimals) (o : Order)
    → IsRounding d
    → o.payment_status ≡ unpaid
    → o.paid_amount ≡ pos 0
    → returned_value o.items ≡ pos 0
    → pos 0 ≤ℤ o.total_amount
    → InSync d o
new_InSync d o rounding status paid none_back total = elim (Bool-cases (is_cancelled o.status)) [
  | inl off ↦ rw off tt
  | inr on ↦ elim (Bool-cases (eqb_ℤ o.total_amount (pos 0))) [
    | inl free ↦ rw on (inr (zero_total o.total_amount free, status))
    | inr priced ↦
        let same =
          subst (λ n. resolve_payment_state o.paid_amount n ≡ unpaid)
            (sym (net_total d o rounding none_back total))
            (starts_unpaid o.paid_amount o.total_amount paid total priced) in
        rw on (inl (status ∙ sym same))
  ]
]

module _ (d : Decimals) (c : Caller) where
  pub create_order-Rows :
      (year : ℕ) (client : Option ℕ) (discount : Option ℤ) (items : List ItemInput)
      → IsRounding d
      → All InputValid items
      → Ensures
          (Rows (SoundIfLive d))
          (create_order d c year client discount items)
          (λ _ b. Rows (SoundIfLive d) b)
  unfolding create_order
  create_order-Rows year client discount items rounding valid =
      after_check _ _ (assert_order_refs-LooksOnly c.workspace client items) (
        after_guard _ discount_above_subtotal _ λ covered. after_gets _ _ λ number. record {
          at = λ a r b p e.
              let subtotal = money d 3 (subtotal_of items) in
              let off = or_kept discount (pos 0) in
              let o : Order = record {
                id = a.next_id;
                workspace = c.workspace;
                number = number;
                client = client;
                status = open_order;
                payment_status = unpaid;
                subtotal = subtotal;
                discount_amount = off;
                total_amount = subtotal -ℤ off;
                paid_amount = pos 0;
                closed_at = none;
                items = new_items d (suc a.next_id) items;
                transactions = [];
                returns = [];
                schedule = [];
                deleted = false;
              } in
              let none_back = new_returned d (suc a.next_id) items in
              let nonneg : pos 0 ≤ℤ o.total_amount =
                omega (int_laws, ltb_ℤ→le subtotal off covered) in
              let own : Below (suc a.next_id + length items) o =
                (omega arith, new_items-below d _ (suc a.next_id) items (omega arith)) in
              let sound : Sound d o = record {
                paid = nothing_paid;
                state = new_InSync d o rounding refl refl none_back nonneg;
                total = refl;
                discount = ltb_ℤ→le subtotal off covered;
                lines = new_items-LineSound d (suc a.next_id) items valid;
                keys = new_items-DistinctLines d (suc a.next_id) items;
              } in
              let b' = record a { orders = o ∷ a.orders; next_id = suc a.next_id + length items } in
              let written : b' ≡ b = ground (arith, e) in
              subst (Rows (SoundIfLive d)) written (record {
                sound = (sound, p.sound);
                distinct = (fresh_key a.next_id a.orders p.below, p.distinct);
                below = (
                  own,
                  All-map (Below a.next_id) (Below (suc a.next_id + length items))
                      (λ q h. Below-le a.next_id _ q (omega arith) h) a.orders p.below,
                );
              });
        })

  -- The order as `update` has changed its lines, before its sums paid are put right.
  record Edited (o p : Order) : Type 0 where
    pub total : p.total_amount ≡ p.subtotal -ℤ p.discount_amount
    pub discount : p.discount_amount ≤ℤ p.subtotal
    pub lines : All (LineSound p.status) p.items
    pub keys : DistinctLines p.items

  abbrev Editing : ℕ → Order → Unit {0} → Books → Type 0
  Editing id o r b = (p : Order) × Edited o p × AtRow (SoundIfLive d) id p b

  open_lines : (o : Order) → is_closed o.status ≡ false → o.status ≡ open_order
  open_lines o h = ground (arith, h)

  update_lines-Editing :
      (id : ℕ) (o : Order) (discount : Option ℤ) (items : Option (List ItemInput))
      → All InputValid (or_no_items items)
      → o.status ≡ open_order
      → Sound d o
      → Ensures (AtRow (SoundIfLive d) id o) (update_lines d id o discount items) (Editing id o)
  unfolding update_lines
  update_lines-Editing id o none none valid is_open s = pure_ends _ tt (λ b v.
      (o, record { total = s.total; discount = s.discount; lines = s.lines; keys = s.keys }, v))
  update_lines-Editing id o (some off) none valid is_open s =
      after_guard _ discount_above_subtotal _ λ covered.
        weaken _ _ _
          (write_ends (SoundIfLive d) id o
            (λ p. record p { discount_amount = off; total_amount = o.subtotal -ℤ off })
            (record { same = λ p. refl; lines = λ n p h. h }))
          (λ r b v. (
            _,
            record {
              total = refl;
              discount = ltb_ℤ→le o.subtotal off covered;
              lines = s.lines;
              keys = s.keys;
            },
            v,
          ))
  update_lines-Editing id o discount (some items) valid is_open s =
      after_guard _ already_shipped _ λ _. after_guard _ discount_above_subtotal _ λ covered.
        weaken _ _ _
          (keys_end (SoundIfLive d) id o _ _ (λ key p. refl)
            (λ key k le h. new_items-below d k key items le))
          (λ r b (key, h, v). (
            _,
            record {
              total = refl;
              discount =
                  ltb_ℤ→le (money d 3 (subtotal_of items)) (or_kept discount o.discount_amount)
                    covered;
              lines =
                  subst (λ t. All (LineSound t) (new_items d key items)) (sym is_open)
                    (new_items-LineSound d key items valid);
              keys = new_items-DistinctLines d key items;
            },
            v,
          ))

  pub edit_order-Rows :
      (id : ℕ) (client : Option (Option ℕ)) (discount : Option ℤ) (items : Option (List ItemInput))
      → All InputValid (or_no_items items)
      → Ensures
          (Rows (SoundIfLive d))
          (edit_order d c id client discount items)
          (λ _ b. Rows (SoundIfLive d) b)
  unfolding edit_order
  edit_order-Rows id client discount items valid =
      after_check _ _ (assert_order_refs-LooksOnly c.workspace _ (or_no_items items)) (
        after_load (SoundIfLive d) c.workspace id _ λ o s key live.
          after_guard _ not_editable _ λ is_open.
            and_then (Editing id o) _ _
              (update_lines-Editing id o discount items valid (open_lines o is_open)
                (live-Sound d o s live))
              λ r. from_some (Edited o) id _ λ p edited.
                after_write (SoundIfLive d) id p _ _
                  (record { same = λ q. refl; lines = λ n q h. h })
                  (end_sync d id _ edited.total edited.discount edited.lines edited.keys))

  pub add_external_items-Rows :
      (id : ℕ) (items : List ItemInput)
      → IsRounding d
      → All InputValid items
      → Ensures
          (Rows (SoundIfLive d))
          (add_external_items d c id items)
          (λ _ b. Rows (SoundIfLive d) b)
  unfolding add_external_items
  add_external_items-Rows id items rounding valid =
      after_load (SoundIfLive d) c.workspace id _ λ o s key live.
        after_guard _ not_editable _ λ is_open.
          let v = live-Sound d o s live in
          after_keys (SoundIfLive d) id o (length items) _ _ (λ key p. refl)
            (λ key k le h.
              All-append _ o.items _
                (All-map (λ i. i.id < key) (λ i. i.id < k) (λ i p. omega arith) o.items h)
                (outside_below d k key items le))
            λ key h.
              let worth = line_totals_nonneg d key items rounding valid in
              end_sync d id _ refl (omega (int_laws, v.discount, worth))
                (All-append _ o.items _ v.lines (
                  subst (λ t. All (LineSound t) (new_items d key (map outside items)))
                    (sym (open_lines o is_open)) (outside_lines d key items valid)))
                (appended d key o.items (map outside items) h v.keys)

  pub remove_external_items-Rows :
      (id : ℕ) (ks : List ℕ)
      → Ensures
          (Rows (SoundIfLive d))
          (remove_external_items d c id ks)
          (λ _ b. Rows (SoundIfLive d) b)
  unfolding remove_external_items
  remove_external_items-Rows id [] = pure_ends _ tt (λ b v. v)
  remove_external_items-Rows id (k ∷ ks) =
      after_load (SoundIfLive d) c.workspace id _ λ o s key live. after_guard _ not_editable _ λ _.
        after_guard _ lines_not_found _ λ _. after_guard _ line_in_use _ λ _.
          after_guard _ discount_above_subtotal _ λ covered.
            let v = live-Sound d o s live in
            let stay = λ (i : OrderItem). not (has i.id (k ∷ ks)) in
            after_write (SoundIfLive d) id o _ _
              (record { same = λ p. refl; lines = λ n p h. All-keep stay _ p.items h })
              (end_sync d id _ refl (ltb_ℤ→le _ o.discount_amount covered)
                (All-keep stay _ o.items v.lines) (kept_distinct stay o.items v.keys))
