-- ===== src/Warehouse/Consumed.antt =====
-- What the loop of `consumeLots` (apps/api/src/warehouse/warehouse.service.ts) does to the lots: the
-- item loses exactly what the steps take, and no other item loses or gains.
use construct_fin.Prelude.{
  ℕ, ◌≡◌, refl, ◌∙◌, ◌≢◌, inl, inr, true, ◌&&◌, none, some, List, [], ◌∷◌, map, arith, ℤ, pos, ◌+ℤ◌,
  ◌-ℤ◌, ◌≤ℤ◌, ◌<ℤ◌, int_laws, ◌==◌, if◌then◌else◌, sum_by, All, All-map₂, Bool-cases,
}
use construct_fin.Fifo.{OpenLot, ConsumeStep, consume_step}
use construct_fin.Fifo.Drain.{Draws, end, pass, draw}
use construct_fin.Warehouse.State.{Lot, Db, consume}
use construct_fin.Warehouse.Repository.{is_open, update_lot_remaining, record_consumption}
use construct_fin.Warehouse.Consume.{Consuming, Remaining, put, consume_steps}
use construct_fin.Warehouse.Lots.{
  weight, Distinct, lot_by_id, with_remaining, sum_by-write, lot_by_id-write_ne, All-write,
  Distinct-write,
}

-- A quantity that belongs to one item, as it counts at another.
abbrev pub at_item : ℕ → ℕ → ℤ → ℕ → ℕ → ℤ
at_item ws item q w i = if w == ws && i == item then q else pos 0

-- An open lot as it was read still stands in the table.
abbrev pub Backs : ℕ → ℕ → List Lot → OpenLot → Type 0
Backs ws item lots o =
    (l : Lot) × (lot_by_id o.id lots ≡ some l)
    × (is_open ws item l ≡ true)
    × (l.qty_remaining ≡ o.qty_remaining)

abbrev pub DistinctOpen : List OpenLot → Type 0
DistinctOpen [] = Unit
DistinctOpen (o ∷ os) = All (λ p. p.id ≢ o.id) os × DistinctOpen os

abbrev pub NonNegative : List Lot → Type 0
NonNegative = All (λ l. pos 0 ≤ℤ l.qty_remaining)

weight_take :
    (ws item w i : ℕ) (l : Lot) (t : ℤ)
    → is_open ws item l ≡ true
    → pos 0 <ℤ t
    → t ≤ℤ l.qty_remaining
    → weight w i (record l { qty_remaining = l.qty_remaining -ℤ t })
      ≡ weight w i l -ℤ at_item ws item t w i
unfolding ◌-ℤ◌
weight_take ws item w i l t op p q = ground arith

-- What a loop has done to the rows: the item lost `q`, the others nothing, and no row came or went.
pub record Spent (ws item : ℕ) (q : ℤ) (a b : List Lot) : Type 0 where
  pub held : (w i : ℕ) → sum_by (weight w i) b ≡ sum_by (weight w i) a -ℤ at_item ws item q w i
  pub distinct : Distinct b
  pub nonneg : NonNegative b
  pub keys : map (λ l. l.id) b ≡ map (λ l. l.id) a

pub keys-write :
    (id : ℕ) (q : ℤ) (ls : List Lot)
    → map (λ l. l.id) (map (with_remaining id q) ls) ≡ map (λ l. l.id) ls
keys-write id q [] = refl
keys-write id q (l ∷ ls) = ground (arith, keys-write id q ls)

-- The write of one step.
write_step :
    (ws item : ℕ) (o : OpenLot) (t : ℤ) (lots : List Lot)
    → Distinct lots
    → NonNegative lots
    → Backs ws item lots o
    → pos 0 <ℤ t
    → t ≤ℤ o.qty_remaining
    → Spent ws item t lots (map (with_remaining o.id (o.qty_remaining -ℤ t)) lots)
write_step ws item o t lots d n (l, found, op, same) p q = record {
  held = λ w i.
      sum_by-write o.id (o.qty_remaining -ℤ t) (weight w i) lots d found
      ∙ rw (← same, weight_take ws item w i l t op p (rw same q)) (omega int_laws);
  distinct = Distinct-write o.id (o.qty_remaining -ℤ t) lots d;
  nonneg =
      All-write o.id (o.qty_remaining -ℤ t) (λ m. pos 0 ≤ℤ m.qty_remaining) lots
        (λ m h. omega int_laws) n;
  keys = keys-write o.id (o.qty_remaining -ℤ t) lots;
}

pub Spent-both :
    (ws item : ℕ) (s t : ℤ) {a b c : List Lot}
    → Spent ws item s a b
    → Spent ws item t b c
    → Spent ws item (s +ℤ t) a c
Spent-both ws item s t x y = record {
  held = λ w i. rw (y.held w i, x.held w i) (add_at w i _);
  distinct = y.distinct;
  nonneg = y.nonneg;
  keys = y.keys ∙ x.keys;
}
  where
    add_at :
        (w i : ℕ) (v : ℤ)
        → v -ℤ at_item ws item s w i -ℤ at_item ws item t w i ≡ v -ℤ at_item ws item (s +ℤ t) w i
    add_at w i v = elim (Bool-cases (w == ws && i == item)) [
      | inl here ↦ rw here (omega int_laws)
      | inr away ↦ rw away (omega int_laws)
    ]

pub at_zero : (ws item w i : ℕ) → at_item ws item (pos 0) w i ≡ pos 0
at_zero ws item w i = ground arith

put_ne :
    (k : ℕ) (v : ℤ) (m : Remaining) (o : OpenLot)
    → o.id ≢ k
    → m o.id ≡ some o.qty_remaining
    → put k v m o.id ≡ some o.qty_remaining
unfolding put
put_ne k v m o ne e = ground arith

module _ (c : Consuming) (movement : ℕ) where
  -- The loop takes from the item the sum of its steps.
  pub consume_steps-Spent :
      {os : List OpenLot} {steps : List ConsumeStep} (m : Remaining) (db : Db)
      → Draws (λ o. o.qty_remaining) consume_step os steps
      → DistinctOpen os
      → All (Backs c.workspace c.item db.lots) os
      → All (λ o. m o.id ≡ some o.qty_remaining) os
      → Distinct db.lots
      → NonNegative db.lots
      → Spent c.workspace c.item
          (sum_by (λ s. s.qty) steps)
          db.lots
          (consume_steps c movement steps m db).lots
  unfolding consume_steps record_consumption update_lot_remaining
  consume_steps-Spent m db (end xs) u backs known d n = record {
    held = λ w i. rw (at_zero c.workspace c.item w i) (omega int_laws);
    distinct = d;
    nonneg = n;
    keys = refl;
  }
  consume_steps-Spent m db (pass a rest) u backs known d n =
      consume_steps-Spent m db rest u.1 backs.1 known.1 d n
  consume_steps-Spent m db (draw a t {xs} p q rest) (fresh, u) (back, backs) (knows, known) d n =
      let after = a.qty_remaining -ℤ t in
      let one = write_step c.workspace c.item a t db.lots d n back p q in
      let backs' =
        All-map₂ (λ o. o.id ≢ a.id) (Backs c.workspace c.item db.lots)
          (Backs c.workspace c.item (map (with_remaining a.id after) db.lots))
          (λ o ne b. (b.0, lot_by_id-write_ne a.id after o.id db.lots ne ∙ b.1, b.2, b.3)) xs fresh
          backs in
      let known' =
        All-map₂ (λ o. o.id ≢ a.id) (λ o. m o.id ≡ some o.qty_remaining)
          (λ o. put a.id after m o.id ≡ some o.qty_remaining) (λ o ne e. put_ne a.id after m o ne e)
          xs fresh known in
      let written =
        record_consumption
          (record {
            id = 0;
            workspace = c.workspace;
            lot = a.id;
            movement = movement;
            order_item = c.order_item;
            qty = t;
            unit_cost = a.unit_cost;
            kind = consume;
            reversal_of = none;
          })
          (update_lot_remaining a.id after db) in
      rw (consume_steps, knows)
        (Spent-both c.workspace c.item t _ one (
          consume_steps-Spent (put a.id after m) written rest u backs' known' one.distinct
            one.nonneg))
