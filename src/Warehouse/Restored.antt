-- ===== src/Warehouse/Restored.antt =====
-- What the loop of `reverseConsumption` (apps/api/src/warehouse/warehouse.service.ts) gives back to the
-- rows of `StockLot`.
use construct_fin.Prelude.{
  ℕ, ◌≡◌, refl, sym, ◌∙◌, ap, ◌≢◌, inl, inr, false, ◌&&◌, Option, some, List, [], ◌∷◌, map, arith,
  ℤ, pos, neg, ◌+ℤ◌, ◌-ℤ◌, ◌≤ℤ◌, ◌<ℤ◌, int_laws, ◌==◌, sum_by, find_has, All, All-map, Bool-cases,
}
use mathlib.Core.Path.{subst}
use mathlib.Core.Option.{some-injective}
use construct_fin.Fifo.{ReverseStep, ReversibleConsumption, reverse_step}
use construct_fin.Fifo.Drain.{Draws, end, pass, draw}
use construct_fin.Warehouse.State.{Lot, reversal, Db}
use construct_fin.Warehouse.Repository.{update_lot_remaining, record_consumption}
use construct_fin.Warehouse.Consume.{Remaining, put, or_zero}
use construct_fin.Warehouse.Trade.{left_in, reverse_steps}
use construct_fin.Warehouse.Lots.{
  weight, Distinct, lot_by_id, with_remaining, sum_by-write, lot_by_id-write_ne, All-write,
  Distinct-write,
}
use construct_fin.Warehouse.Consumed.{at_item, NonNegative, Spent, Spent-both, keys-write}

-- The lot of a consumption still stands in the table, at the item.
abbrev pub Stands : ℕ → ℕ → List Lot → ℕ → Type 0
Stands ws item lots id =
    (l : Lot) × (lot_by_id id lots ≡ some l)
    × (l.workspace ≡ ws)
    × (l.item ≡ item)
    × (l.deleted ≡ false)

abbrev pub rest_of : List Lot → ℕ → Option ℤ
rest_of lots k = left_in (lot_by_id k lots)

weight_give :
    (ws item w i : ℕ) (l : Lot) (t : ℤ)
    → l.workspace ≡ ws
    → l.item ≡ item
    → l.deleted ≡ false
    → pos 0 ≤ℤ l.qty_remaining
    → pos 0 <ℤ t
    → weight w i (record l { qty_remaining = l.qty_remaining +ℤ t })
      ≡ weight w i l +ℤ at_item ws item t w i
unfolding ◌+ℤ◌
weight_give ws item w i l t ew ei live h p = ground arith

lot_by_id-write_eq :
    (id : ℕ) (q : ℤ) (ls : List Lot) {l : Lot}
    → lot_by_id id ls ≡ some l
    → lot_by_id id (map (with_remaining id q) ls) ≡ some (record l { qty_remaining = q })
lot_by_id-write_eq id q [] e = cc
lot_by_id-write_eq id q (m ∷ ls) {l} e = elim (Bool-cases (m.id == id)) [
  | inl same ↦
      let hit = some-injective _ _ (rw same at e) in
      subst
        (λ z.
          lot_by_id id (map (with_remaining id q) (m ∷ ls)) ≡ some (record z { qty_remaining = q }))
        hit (ground (arith, same))
  | inr other ↦
      let later : lot_by_id id ls ≡ some l = rw other at e in
      ground (arith, other, lot_by_id-write_eq id q ls {l = l} later)
]

neg_sum : (x y : ℤ) → neg x +ℤ neg y ≡ neg (x +ℤ y)
neg_sum x y = omega int_laws

pub at_neg :
    (ws item w i : ℕ) (t x : ℤ) → x +ℤ at_item ws item t w i ≡ x -ℤ at_item ws item (neg t) w i
at_neg ws item w i t x = elim (Bool-cases (w == ws && i == item)) [
  | inl here ↦ rw here (omega int_laws)
  | inr away ↦ rw away (omega int_laws)
]

-- The write of one step.
give_step :
    (ws item id : ℕ) (t : ℤ) (lots : List Lot) (l : Lot)
    → Distinct lots
    → NonNegative lots
    → lot_by_id id lots ≡ some l
    → (l.workspace ≡ ws) × (l.item ≡ item) × (l.deleted ≡ false)
    → pos 0 <ℤ t
    → Spent ws item (neg t) lots (map (with_remaining id (l.qty_remaining +ℤ t)) lots)
give_step ws item id t lots l d n found (ew, ei, live) p =
    let whole = find_has (λ m. m.id == id) (λ m. pos 0 ≤ℤ m.qty_remaining) lots n found in
    record {
      held = λ w i.
          sum_by-write id (l.qty_remaining +ℤ t) (weight w i) lots d found
          ∙ ap (λ z. sum_by (weight w i) lots -ℤ weight w i l +ℤ z)
              (weight_give ws item w i l t ew ei live whole p)
          ∙ back _ (weight w i l) _
          ∙ at_neg ws item w i t _;
      distinct = Distinct-write id (l.qty_remaining +ℤ t) lots d;
      nonneg =
          All-write id (l.qty_remaining +ℤ t) (λ m. pos 0 ≤ℤ m.qty_remaining) lots
            (λ m h. omega (int_laws, whole, p)) n;
      keys = keys-write id (l.qty_remaining +ℤ t) lots;
    }
  where
    back : (s x y : ℤ) → s -ℤ x +ℤ (x +ℤ y) ≡ s +ℤ y
    back s x y = omega int_laws

put_here : (k : ℕ) (v : ℤ) (m : Remaining) → put k v m k ≡ some v
unfolding put
put_here k v m = ground arith

put_away : (k j : ℕ) (v : ℤ) (m : Remaining) → (j == k) ≡ false → put k v m j ≡ m j
unfolding put
put_away k j v m e = ground (arith, e)

nothing_given : (ws item w i : ℕ) (x : ℤ) → x ≡ x -ℤ at_item ws item (neg (pos 0)) w i
nothing_given ws item w i x = elim (Bool-cases (w == ws && i == item)) [
  | inl here ↦ rw here (omega int_laws)
  | inr away ↦ rw away (omega int_laws)
]

-- The remainders that are read before the loop are those of the rows, and stay so.
rest_of-write :
    (id k : ℕ) (v : ℤ) (lots : List Lot) (m : Remaining) {l : Lot}
    → lot_by_id id lots ≡ some l
    → m k ≡ rest_of lots k
    → put id v m k ≡ rest_of (map (with_remaining id v) lots) k
unfolding put
rest_of-write id k v lots m {l} found knows = elim (Bool-cases (k == id)) [
  | inl same ↦
      let here : k ≡ id = ground (arith, same) in
      rw here (put_here id v m ∙ ap left_in (sym (lot_by_id-write_eq id v lots {l = l} found)))
  | inr other ↦
      let away : k ≢ id = ground (arith, other) in
      put_away id k v m other ∙ knows ∙ ap left_in (sym (lot_by_id-write_ne id v k lots away))
]

Stands-write :
    (ws item id k : ℕ) (v : ℤ) (lots : List Lot)
    → Stands ws item lots k
    → Stands ws item (map (with_remaining id v) lots) k
Stands-write ws item id k v lots (l, found, ew, ei, live) = elim (Bool-cases (k == id)) [
  | inl same ↦
      let here : k ≡ id = ground (arith, same) in
      (
        record l { qty_remaining = v },
        subst
            (λ z.
              lot_by_id z (map (with_remaining id v) lots) ≡ some (record l { qty_remaining = v }))
            (sym here)
            (lot_by_id-write_eq id v lots (subst (λ z. lot_by_id z lots ≡ some l) here found)),
        ew,
        ei,
        live,
      )
  | inr other ↦
      let away : k ≢ id = ground (arith, other) in
      (l, lot_by_id-write_ne id v k lots away ∙ found, ew, ei, live)
]

module _ (ws item line movement : ℕ) where
  -- The loop gives the item the sum of its steps.
  pub reverse_steps-Spent :
      {cs : List ReversibleConsumption} {steps : List ReverseStep} (m : Remaining) (db : Db)
      → Draws (λ c. c.remaining) reverse_step cs steps
      → All (λ c. Stands ws item db.lots c.lot_id) cs
      → ((k : ℕ) → m k ≡ rest_of db.lots k)
      → Distinct db.lots
      → NonNegative db.lots
      → Spent ws item
          (neg (sum_by (λ s. s.qty) steps))
          db.lots
          (reverse_steps ws line movement steps m db).lots
  unfolding reverse_steps record_consumption update_lot_remaining
  reverse_steps-Spent m db (end xs) stands knows d n = record {
    held = λ w i. nothing_given ws item w i _;
    distinct = d;
    nonneg = n;
    keys = refl;
  }
  reverse_steps-Spent m db (pass a rest) stands knows d n =
      reverse_steps-Spent m db rest stands.1 knows d n
  reverse_steps-Spent m db (draw a t {xs} {ss} p q rest) (stand, stands) knows d n =
      let (l, found, ew, ei, live) = stand in
      let after = or_zero (m a.lot_id) +ℤ t in
      let read : or_zero (m a.lot_id) ≡ l.qty_remaining =
        ap or_zero (knows a.lot_id ∙ ap left_in found) in
      let one =
        subst (λ z. Spent ws item (neg t) db.lots (map (with_remaining a.lot_id (z +ℤ t)) db.lots))
          (sym read) (give_step ws item a.lot_id t db.lots l d n found (ew, ei, live) p) in
      let stands' =
        All-map (λ c. Stands ws item db.lots c.lot_id)
          (λ c. Stands ws item (map (with_remaining a.lot_id after) db.lots) c.lot_id)
          (λ c s. Stands-write ws item a.lot_id c.lot_id after db.lots s) xs stands in
      let written =
        record_consumption
          (record {
            id = 0;
            workspace = ws;
            lot = a.lot_id;
            movement = movement;
            order_item = some line;
            qty = neg t;
            unit_cost = a.unit_cost;
            kind = reversal;
            reversal_of = some a.id;
          })
          (update_lot_remaining a.lot_id after db) in
      let more =
        reverse_steps-Spent (put a.lot_id after m) written rest stands'
          (λ k. rest_of-write a.lot_id k after db.lots m found (knows k)) one.distinct one.nonneg in
      subst
        (λ z.
          Spent ws item z db.lots
            (reverse_steps ws line movement (reverse_step a t ∷ ss) m db).lots)
        (neg_sum t (sum_by (λ s. s.qty) ss))
        (Spent-both ws item (neg t) (neg (sum_by (λ s. s.qty) ss)) one more)
