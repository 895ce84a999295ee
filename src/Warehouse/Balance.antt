-- ===== src/Warehouse/Balance.antt =====
-- The balance of the batch warehouse (apps/api/src/warehouse/warehouse.service.ts): the cached quantity
-- of an item, the remainders of its lots and the journal of its movements say the same.
use construct_fin.Prelude.{
  ℕ, ◌<◌, ◌≡◌, refl, sym, ◌≢◌, inl, inr, false, some, List, [], ◌∷◌, map, arith, ℤ, pos, ◌+ℤ◌,
  ltb_ℤ, +ℤ_zero, ◌==◌, if◌then◌else◌, find, find_passes, find_has, sum_by, All, All-map,
  Bool-cases,
}
use mathlib.Core.Path.{subst}
use construct_fin.Decimal.{Decimals}
use construct_fin.Warehouse.State.{Item, Db}
use construct_fin.Warehouse.Repository.{is_live, find_by_id, lot_qty, lot_value, update_cache}
use construct_fin.Warehouse.Consume.{recompute_caches}
use construct_fin.Warehouse.Lots.{Distinct}
use construct_fin.Warehouse.Consumed.{at_item, NonNegative}

-- Σ qtyDelta over the journal of an item.
abbrev pub moved : ℕ → ℕ → Db → ℤ
moved w i db = sum_by (λ m. at_item m.workspace m.item m.qty_delta w i) db.movements

abbrev pub DistinctItems : List Item → Type 0
DistinctItems [] = Unit
DistinctItems (i ∷ is) = All (λ j. j.id ≢ i.id) is × DistinctItems is

-- An item that is not deleted: its cache is what its lots hold, and what its movements add up to.
abbrev pub Agrees : Db → Item → Type 0
Agrees db it =
    if it.deleted
    then Unit
    else (it.qty ≡ lot_qty it.workspace it.id db)
      × (lot_qty it.workspace it.id db ≡ moved it.workspace it.id db)

pub record IsStore (db : Db) : Type 0 where
  pub distinct : Distinct db.lots
  pub nonneg : NonNegative db.lots
  pub below : All (λ l. l.id < db.next_id) db.lots

pub record IsBalanced (db : Db) : Type 0 where
  pub store : IsStore db
  pub distinct_items : DistinctItems db.items
  pub agree : All (Agrees db) db.items

-- From `a` to `b` the lots and the journal of one item have moved by `q`, and nothing else has.
pub record Shift (ws item : ℕ) (q : ℤ) (a b : Db) : Type 0 where
  pub held : (w i : ℕ) → lot_qty w i b ≡ lot_qty w i a +ℤ at_item ws item q w i
  pub journal : (w i : ℕ) → moved w i b ≡ moved w i a +ℤ at_item ws item q w i
  pub items : b.items ≡ a.items
  pub store : IsStore b

-- Where the item is found, no row with its key is of another workspace.
abbrev Sole : ℕ → ℕ → Item → Type 0
Sole ws id it = if it.id == id then it.workspace ≡ ws else Unit

sole :
    (ws id : ℕ) (is : List Item) {it : Item}
    → DistinctItems is
    → find (is_live ws id) is ≡ some it
    → All (Sole ws id) is
sole ws id [] u e = tt
sole ws id (i ∷ is) {it} (fresh, u) e = elim (Bool-cases (is_live ws id i)) [
  | inl found ↦
      (ground arith, All-map (λ j. j.id ≢ i.id) (Sole ws id) (λ j ne. ground arith) is fresh)
  | inr other ↦
      let later = rw other at e in
      let hit = find_passes (is_live ws id) is later in
      let ne = find_has (is_live ws id) (λ j. j.id ≢ i.id) is fresh later in
      (ground arith, sole ws id is u later)
]

DistinctItems-cache :
    (id : ℕ) (q avg : ℤ) (is : List Item)
    → DistinctItems is
    → DistinctItems (map (λ i. if i.id == id then record i { qty = q; avg_cost = avg } else i) is)
DistinctItems-cache id q avg [] u = tt
DistinctItems-cache id q avg (i ∷ is) (fresh, u) =
    let cached = λ (j : Item). if j.id == id then record j { qty = q; avg_cost = avg } else j in
    let rest = DistinctItems-cache id q avg is u in
    elim (Bool-cases (i.id == id)) [
      | inl same ↦ rw same (keeps is fresh, rest)
      | inr other ↦ rw other (keeps is fresh, rest)
    ]
  where
    keeps :
        (js : List Item)
        → All (λ j. j.id ≢ i.id) js
        → All
            (λ j. j.id ≢ i.id)
            (map (λ j. if j.id == id then record j { qty = q; avg_cost = avg } else j) js)
    keeps [] h = tt
    keeps (j ∷ js) (p, ps) = (ground arith, keeps js ps)

module _ (d : Decimals) (ws item : ℕ) (q : ℤ) (a b : Db) (s : Shift ws item q a b) where
  cached_held : (w i : ℕ) → lot_qty w i (recompute_caches d ws item b) ≡ lot_qty w i b
  unfolding recompute_caches update_cache lot_qty
  cached_held w i = refl

  cached_journal : (w i : ℕ) → moved w i (recompute_caches d ws item b) ≡ moved w i b
  unfolding recompute_caches update_cache
  cached_journal w i = refl

  -- One item's cache is written anew; the other items keep theirs.
  agree_one :
      (it : Item)
      → Sole ws item it
      → Agrees a it
      → let cached =
          if it.id == item
          then record it {
            qty = lot_qty ws item b;
            avg_cost =
                if ltb_ℤ (pos 0) (lot_qty ws item b)
                then d.quotient (lot_value ws item b) (lot_qty ws item b)
                else pos 0;
          }
          else it in
        Agrees (recompute_caches d ws item b) cached
  agree_one it one agrees =
      let w = it.workspace in
      let i = it.id in
      ground (
        arith,
        cached_held w i,
        cached_journal w i,
        s.held w i,
        s.journal w i,
        +ℤ_zero (lot_qty w i a),
        +ℤ_zero (moved w i a),
      )

  agree-All :
      (is : List Item)
      → All (Sole ws item) is
      → All (Agrees a) is
      → let q' = lot_qty ws item b in
        let avg = if ltb_ℤ (pos 0) q' then d.quotient (lot_value ws item b) q' else pos 0 in
        All
          (Agrees (recompute_caches d ws item b))
          (map (λ i. if i.id == item then record i { qty = q'; avg_cost = avg } else i) is)
  agree-All [] one agrees = tt
  agree-All (it ∷ is) (one, ones) (agrees, rest) = (agree_one it one agrees, agree-All is ones rest)

  -- The caches of an item that is found are written after its lots and journal moved: all agree again.
  pub settle :
      {it : Item}
      → IsBalanced a
      → find_by_id ws item a ≡ some it
      → IsBalanced (recompute_caches d ws item b)
  unfolding recompute_caches update_cache find_by_id
  settle v found =
      let same = sym s.items in
      let ones = subst (All (Sole ws item)) same (sole ws item a.items v.distinct_items found) in
      record {
        store = record {
          distinct = s.store.distinct;
          nonneg = s.store.nonneg;
          below = s.store.below;
        };
        distinct_items =
            DistinctItems-cache item _ _ b.items (subst DistinctItems same v.distinct_items);
        agree = agree-All b.items ones (subst (All (Agrees a)) same v.agree);
      }

-- What the cache of an item that is found says, is what its lots hold.
pub cache_agrees :
    (ws id : ℕ) (a : Db) {it : Item}
    → IsBalanced a
    → find_by_id ws id a ≡ some it
    → it.qty ≡ lot_qty ws id a
unfolding find_by_id
cache_agrees ws id a {it} v found =
    let agrees = find_has (is_live ws id) (Agrees a) a.items v.agree found in
    let live = find_passes (is_live ws id) a.items found in
    cached (ground (arith, live)) (ground (arith, live)) (ground (arith, live)) agrees
  where
    cached :
        {w i : ℕ}
        → it.deleted ≡ false
        → it.workspace ≡ w
        → it.id ≡ i
        → Agrees a it
        → it.qty ≡ lot_qty w i a
    cached live ew ei agrees = ground (arith, live, ew, ei, agrees)
