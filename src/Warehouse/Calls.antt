-- ===== src/Warehouse/Calls.antt =====
-- How a chain of calls inside a transaction runs, link by link (apps/api/src/common/unit-of-work.ts and
-- the checks of apps/api/src/warehouse/warehouse.service.ts).
use construct_fin.Prelude.{
  ℕ, ◌≡◌, ◌⊎◌, refl, inl, inr, Bool, true, false, Option, none, some, arith, find, Option-cases,
  AnyOf, find-AnyOf, find-not-AnyOf, List,
}
use construct_fin.Prelude.Result.{ok, err, Result-cases}
use construct_fin.Warehouse.State.{
  Item, Db, Party, WarehouseError, M, ◌>>=◌, ◌>>◌, throw_when, account_not_found,
  supplier_not_found,
}
use construct_fin.Warehouse.Repository.{is_live, find_by_id, lock_for_update}
use construct_fin.Warehouse.Consume.{modify}
use construct_fin.Warehouse.Stock.{or_not_found, is_active, assert_supplier}
use construct_fin.Warehouse.Returns.{assert_account}

-- An entry in the audit never fails, so a refusal is that of the call before it.
pub refused_first :
    (m : M (Unit {0})) (f : Db → Db) (a : Db) {e : WarehouseError}
    → (m >> modify f) a ≡ err e
    → m a ≡ err e
refused_first m f a bad = elim (Result-cases (m a)) [
  | inl ((u, b), run) ↦ absurd (ground (arith, run, bad))
  | inr (e', run) ↦ ground (arith, run, bad)
]

-- A guard that is passed, an item that is found and a call that returns leave what comes after them.
pub passes :
    {A : Type 0} {bad : Bool} (e : WarehouseError) (m : M A) (a : Db)
    → bad ≡ false
    → (throw_when bad e >> m) a ≡ m a
passes e m a h = ground (arith, h)

pub finds :
    {A : Type 0} {it : Item} (ws id : ℕ) (f : Item → M A) (a : Db)
    → find_by_id ws id a ≡ some it
    → (do item ← or_not_found (← lock_for_update ws id); f item) a ≡ f it a
unfolding lock_for_update
finds ws id f a h = ground (arith, h)

pub goes_on :
    {A B : Type 0} {r : A} {b : Db} (m : M A) (f : A → M B) (a : Db)
    → m a ≡ ok (r, b)
    → (m >>= f) a ≡ f r b
goes_on m f a h = ground (arith, h)

pub continues :
    {A B : Type 0} {r : A} {b : Db} (m : M A) (k : M B) (a : Db)
    → m a ≡ ok (r, b)
    → (m >> k) a ≡ k b
continues m k a h = ground (arith, h)

pub stops :
    {A B : Type 0} {e : WarehouseError} (m : M A) (k : M B) (a : Db)
    → m a ≡ err e
    → (m >> k) a ≡ err e
stops m k a h = ground (arith, h)

pub blocks :
    {A : Type 0} {bad : Bool} (e : WarehouseError) (m : M A) (a : Db)
    → bad ≡ true
    → (throw_when bad e >> m) a ≡ err e
blocks e m a h = ground (arith, h)

-- A row of the workspace with the key, not deleted, is in the table.
abbrev pub HasItem : ℕ → ℕ → Db → Type 0
HasItem ws id a = AnyOf (λ i. (i.id ≡ id) × (i.workspace ≡ ws) × (i.deleted ≡ false)) a.items

abbrev pub HasParty : ℕ → ℕ → List Party → Type 0
HasParty ws id ps = AnyOf (λ p. (p.id ≡ id) × (p.workspace ≡ ws) × (p.deleted ≡ false)) ps

-- A supplier need not be named.
abbrev pub HasSupplier : ℕ → Option ℕ → Db → Type 0
HasSupplier ws none a = Unit
HasSupplier ws (some id) a = HasParty ws id a.suppliers

pub found_item : (ws id : ℕ) (a : Db) {it : Item} → find_by_id ws id a ≡ some it → HasItem ws id a
unfolding find_by_id
found_item ws id a e = find-AnyOf (is_live ws id) _ (λ i t. ground (arith, t)) a.items e

pub missing_item : (ws id : ℕ) (a : Db) → find_by_id ws id a ≡ none → ¬ HasItem ws id a
unfolding find_by_id
missing_item ws id a e = find-not-AnyOf (is_live ws id) _ (λ i h. ground (arith, h)) a.items e

found_party :
    (ws id : ℕ) (ps : List Party) {p : Party}
    → find (is_active ws id) ps ≡ some p
    → HasParty ws id ps
found_party ws id ps e = find-AnyOf (is_active ws id) _ (λ i t. ground (arith, t)) ps e

missing_party :
    (ws id : ℕ) (ps : List Party) → find (is_active ws id) ps ≡ none → ¬ HasParty ws id ps
missing_party ws id ps e = find-not-AnyOf (is_active ws id) _ (λ i h. ground (arith, h)) ps e

pub account_checked :
    (ws id : ℕ) (a : Db)
    → ((assert_account ws id a ≡ ok (tt, a)) × HasParty ws id a.accounts)
      ⊎ ((assert_account ws id a ≡ err account_not_found) × ¬ HasParty ws id a.accounts)
unfolding assert_account
account_checked ws id a = elim (Option-cases (find (is_active ws id) a.accounts)) [
  | inl missing ↦ inr (ground (arith, missing), missing_party ws id a.accounts missing)
  | inr (p, found) ↦ inl (ground (arith, found), found_party ws id a.accounts found)
]

pub supplier_checked :
    (ws : ℕ) (s : Option ℕ) (a : Db)
    → ((assert_supplier ws s a ≡ ok (tt, a)) × HasSupplier ws s a)
      ⊎ ((assert_supplier ws s a ≡ err supplier_not_found) × ¬ HasSupplier ws s a)
unfolding assert_supplier
supplier_checked ws none a = inl (refl, tt)
supplier_checked ws (some id) a = elim (Option-cases (find (is_active ws id) a.suppliers)) [
  | inl missing ↦ inr (ground (arith, missing), missing_party ws id a.suppliers missing)
  | inr (p, found) ↦ inl (ground (arith, found), found_party ws id a.suppliers found)
]
