-- ===== src/Warehouse/OpenLots.antt =====
-- `lockOpenLots` (apps/api/src/warehouse/warehouse.repository.ts): the list that is consumed holds the
-- open lots of the item, each once, as they stand in the table.
use construct_fin.Prelude.{
  sym, ℕ, ◌≡◌, refl, ◌∙◌, ◌≢◌, inl, inr, Bool, true, some, List, [], ◌∷◌, map, arith, leb_ℤ, keep,
  All, All-map₂, Bool-cases,
}
use construct_fin.Fifo.{OpenLot}
use construct_fin.Warehouse.State.{Lot, Db}
use construct_fin.Warehouse.Repository.{is_open, insert_lot, by_received, to_open, lock_open_lots}
use construct_fin.Warehouse.Consume.{Remaining, put, remaining_by_id}
use construct_fin.Warehouse.Lots.{Distinct, lot_by_id}
use construct_fin.Warehouse.Consumed.{Backs, DistinctOpen}

module _ {A : Type 0} (p : A → Bool) where
  pub All-keep : (P : A → Type 0) (xs : List A) → All P xs → All P (keep p xs)
  All-keep P [] h = tt
  All-keep P (x ∷ xs) (q, qs) = elim (Bool-cases (p x)) [
    | inl kept ↦ rw kept (q, All-keep P xs qs)
    | inr dropped ↦ rw dropped (All-keep P xs qs)
  ]

  pub keep-All : (xs : List A) → All (λ x. p x ≡ true) (keep p xs)
  keep-All [] = tt
  keep-All (x ∷ xs) = elim (Bool-cases (p x)) [
    | inl kept ↦ rw kept (kept, keep-All xs)
    | inr dropped ↦ rw dropped (keep-All xs)
  ]

Distinct-keep : (p : Lot → Bool) (ls : List Lot) → Distinct ls → Distinct (keep p ls)
Distinct-keep p [] d = tt
Distinct-keep p (l ∷ ls) (fresh, d) = elim (Bool-cases (p l)) [
  | inl kept ↦ rw kept (All-keep p (λ m. m.id ≢ l.id) ls fresh, Distinct-keep p ls d)
  | inr dropped ↦ rw dropped (Distinct-keep p ls d)
]

All-insert_lot :
    (P : Lot → Type 0) (l : Lot) (ls : List Lot) → P l → All P ls → All P (insert_lot l ls)
unfolding insert_lot
All-insert_lot P l [] q h = (q, tt)
All-insert_lot P l (m ∷ ms) q (h, hs) = elim (Bool-cases (leb_ℤ l.received_at m.received_at)) [
  | inl before ↦ rw before (q, (h, hs))
  | inr after ↦ rw after (h, All-insert_lot P l ms q hs)
]

Distinct-insert_lot :
    (l : Lot) (ls : List Lot) → All (λ m. m.id ≢ l.id) ls → Distinct ls → Distinct (insert_lot l ls)
unfolding insert_lot
Distinct-insert_lot l [] f d = (tt, tt)
Distinct-insert_lot l (m ∷ ms) (f, fs) (fresh, d) =
    elim (Bool-cases (leb_ℤ l.received_at m.received_at)) [
      | inl before ↦ rw before ((f, fs), (fresh, d))
      | inr after ↦ rw after (
        All-insert_lot (λ k. k.id ≢ m.id) l ms (λ e. f (sym e)) fresh,
        Distinct-insert_lot l ms fs d,
      )
    ]

All-by_received : (P : Lot → Type 0) (ls : List Lot) → All P ls → All P (by_received ls)
unfolding by_received
All-by_received P [] h = tt
All-by_received P (l ∷ ls) (q, qs) = All-insert_lot P l (by_received ls) q (All-by_received P ls qs)

Distinct-by_received : (ls : List Lot) → Distinct ls → Distinct (by_received ls)
unfolding by_received
Distinct-by_received [] d = tt
Distinct-by_received (l ∷ ls) (fresh, d) =
    Distinct-insert_lot l (by_received ls) (All-by_received (λ m. m.id ≢ l.id) ls fresh)
      (Distinct-by_received ls d)

-- Each row is the one that its key finds.
lot_by_id_self : (ls : List Lot) → Distinct ls → All (λ l. lot_by_id l.id ls ≡ some l) ls
lot_by_id_self [] d = tt
lot_by_id_self (l ∷ ls) (fresh, d) = (
  ground arith,
  All-map₂ (λ m. m.id ≢ l.id) (λ m. lot_by_id m.id ls ≡ some m)
      (λ m. lot_by_id m.id (l ∷ ls) ≡ some m) (λ m ne e. ground arith) ls fresh
      (lot_by_id_self ls d),
)

All-to_open :
    (P : OpenLot → Type 0) (ls : List Lot) → All (λ l. P (to_open l)) ls → All P (map to_open ls)
All-to_open P [] h = tt
All-to_open P (l ∷ ls) (q, qs) = (q, All-to_open P ls qs)

DistinctOpen-map : (ls : List Lot) → Distinct ls → DistinctOpen (map to_open ls)
DistinctOpen-map [] d = tt
DistinctOpen-map (l ∷ ls) (fresh, d) =
    (All-to_open (λ o. o.id ≢ l.id) ls fresh, DistinctOpen-map ls d)

module _ (ws item : ℕ) (db : Db) (d : Distinct db.lots) where
  pub lock_open_lots-DistinctOpen : DistinctOpen (lock_open_lots ws item db)
  unfolding lock_open_lots
  lock_open_lots-DistinctOpen =
      DistinctOpen-map (by_received (keep (is_open ws item) db.lots))
        (Distinct-by_received _ (Distinct-keep (is_open ws item) db.lots d))

  pub lock_open_lots-Backs : All (Backs ws item db.lots) (lock_open_lots ws item db)
  unfolding lock_open_lots
  lock_open_lots-Backs =
      let open_lots = keep (is_open ws item) db.lots in
      let found =
        All-keep (is_open ws item) (λ l. lot_by_id l.id db.lots ≡ some l) db.lots
          (lot_by_id_self db.lots d) in
      All-to_open (Backs ws item db.lots) (by_received open_lots) (
        All-by_received (λ l. Backs ws item db.lots (to_open l)) open_lots
          (All-map₂ _ _ (λ l. Backs ws item db.lots (to_open l)) (λ l e op. (l, e, op, refl))
            open_lots found (keep-All (is_open ws item) db.lots)))

remaining_by_id_other :
    (os : List OpenLot) (m : Remaining) (k : ℕ)
    → All (λ o. o.id ≢ k) os
    → remaining_by_id os m k ≡ m k
unfolding remaining_by_id
remaining_by_id_other [] m k h = refl
remaining_by_id_other (o ∷ os) m k (ne, h) =
    remaining_by_id_other os (put o.id o.qty_remaining m) k h ∙ ground arith

-- The Map knows what remains of every lot of the list.
pub remaining_by_id-knows :
    (os : List OpenLot) (m : Remaining)
    → DistinctOpen os
    → All (λ o. remaining_by_id os m o.id ≡ some o.qty_remaining) os
unfolding remaining_by_id
remaining_by_id-knows [] m u = tt
remaining_by_id-knows (o ∷ os) m (fresh, u) =
    let m' = put o.id o.qty_remaining m in
    (remaining_by_id_other os m' o.id fresh ∙ ground arith, remaining_by_id-knows os m' u)
