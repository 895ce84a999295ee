-- ===== src/Warehouse/Lots.antt =====
-- The rows of `StockLot` (apps/api/src/warehouse/warehouse.repository.ts): what an item holds as a sum
-- over all rows, and how the write of one remainder changes it.
use construct_fin.Prelude.{
  ℕ, ◌≡◌, refl, ◌≢◌, inl, inr, Bool, Option, some, List, [], ◌∷◌, map, arith, ℤ, pos, ◌+ℤ◌, ◌-ℤ◌,
  int_laws, zero_+ℤ, ◌==◌, if◌then◌else◌, find, keep, sum_by, All, All-map, Bool-cases,
}
use mathlib.Core.Option.{some-injective}
use construct_fin.Warehouse.State.{Lot, Db}
use construct_fin.Warehouse.Repository.{is_open, lot_qty}

-- What a row counts for at an item: its remainder, if it is an open lot of the item.
abbrev pub weight : ℕ → ℕ → Lot → ℤ
weight ws item l = if is_open ws item l then l.qty_remaining else pos 0

pub sum_by-keep :
    {A : Type 0} (p : A → Bool) (f : A → ℤ) (xs : List A)
    → sum_by f (keep p xs) ≡ sum_by (λ x. if p x then f x else pos 0) xs
sum_by-keep p f [] = refl
sum_by-keep p f (x ∷ xs) = elim (Bool-cases (p x)) [
  | inl yes' ↦ rw (yes', sum_by-keep p f xs)
  | inr no' ↦ rw (no', sum_by-keep p f xs, zero_+ℤ)
]

pub lot_qty-eq-sum : (ws item : ℕ) (db : Db) → lot_qty ws item db ≡ sum_by (weight ws item) db.lots
unfolding lot_qty
lot_qty-eq-sum ws item db = sum_by-keep (is_open ws item) (λ l. l.qty_remaining) db.lots

-- No two rows have one key.
abbrev pub Distinct : List Lot → Type 0
Distinct [] = Unit
Distinct (l ∷ ls) = All (λ m. m.id ≢ l.id) ls × Distinct ls

abbrev pub lot_by_id : ℕ → List Lot → Option Lot
lot_by_id id = find (λ l. l.id == id)

-- The write of one remainder.
abbrev pub with_remaining : ℕ → ℤ → Lot → Lot
with_remaining id q l = if l.id == id then record l { qty_remaining = q } else l

module _ (id : ℕ) (q : ℤ) where
  write_elsewhere :
      (f : Lot → ℤ) (ls : List Lot)
      → All (λ m. m.id ≢ id) ls
      → sum_by f (map (with_remaining id q) ls) ≡ sum_by f ls
  write_elsewhere f [] h = refl
  write_elsewhere f (l ∷ ls) (p, ps) = elim (Bool-cases (l.id == id)) [
    | inl same ↦ absurd (p (ground arith))
    | inr other ↦ rw (other, write_elsewhere f ls ps)
  ]

  -- A sum over the rows changes by what the one row that is written counts for.
  pub sum_by-write :
      (f : Lot → ℤ) (ls : List Lot) {l : Lot}
      → Distinct ls
      → lot_by_id id ls ≡ some l
      → sum_by f (map (with_remaining id q) ls)
        ≡ sum_by f ls -ℤ f l +ℤ f (record l { qty_remaining = q })
  sum_by-write f [] d e = cc
  sum_by-write f (m ∷ ls) {l} (fresh, d) e = elim (Bool-cases (m.id == id)) [
    | inl same ↦
        let hit = some-injective _ _ (rw same at e) in
        rw (same, write_elsewhere f ls (All-map _ _ (λ x p. ground arith) ls fresh), ← hit)
          (omega int_laws)
    | inr other ↦ rw (other, sum_by-write f ls d (rw other at e)) (omega int_laws)
  ]

  pub lot_by_id-write_ne :
      (k : ℕ) (ls : List Lot) → k ≢ id → lot_by_id k (map (with_remaining id q) ls) ≡ lot_by_id k ls
  lot_by_id-write_ne k [] h = refl
  lot_by_id-write_ne k (l ∷ ls) h = ground (arith, lot_by_id-write_ne k ls h)

  pub All-write :
      (P : Lot → Type 0) (ls : List Lot)
      → ((l : Lot) → P l → P (record l { qty_remaining = q }))
      → All P ls
      → All P (map (with_remaining id q) ls)
  All-write P [] f h = tt
  All-write P (l ∷ ls) f (p, ps) = elim (Bool-cases (l.id == id)) [
    | inl same ↦ rw same (f l p, All-write P ls f ps)
    | inr other ↦ rw other (p, All-write P ls f ps)
  ]

  pub Distinct-write : (ls : List Lot) → Distinct ls → Distinct (map (with_remaining id q) ls)
  Distinct-write [] d = tt
  Distinct-write (l ∷ ls) (fresh, d) =
      let rest = All-write (λ m. m.id ≢ l.id) ls (λ m p. p) fresh in
      elim (Bool-cases (l.id == id)) [
        | inl same ↦ rw same (rest, Distinct-write ls d)
        | inr other ↦ rw other (rest, Distinct-write ls d)
      ]
