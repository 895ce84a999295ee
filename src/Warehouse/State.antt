-- ===== src/Warehouse/State.antt =====
-- The tables that the warehouse reads and writes (packages/db/prisma/schema.prisma), and a call
-- inside `UnitOfWork.run` (apps/api/src/common/unit-of-work.ts): it throws, and the database is as it
-- was, or it returns with the new tables.
use construct_fin.Prelude.{◌≡◌, refl, ℕ, Bool, true, false, Option, List, ℤ}
use construct_fin.Prelude.Result.{Result, ok, err}

pub data LotSource : Type 0 where
  purchase opening adjustment return_customer migration : LotSource

pub data MovementType : Type 0 where
  purchase sale return_supplier return_customer adjustment write_off opening : MovementType

pub data ConsumptionKind : Type 0 where
  consume reversal : ConsumptionKind

pub data RefType : Type 0 where
  opening adjust write_off cost_init purchase order transaction wb_receipt : RefType

pub record Item : Type 0 where
  pub id : ℕ
  pub workspace : ℕ
  pub qty : ℤ
  pub avg_cost : ℤ
  pub default_supplier : Option ℕ
  pub is_archived : Bool
  pub deleted : Bool

-- `StockLot`; the rows stand in the order of their `seq`.
pub record Lot : Type 0 where
  pub id : ℕ
  pub workspace : ℕ
  pub item : ℕ
  pub qty_initial : ℤ
  pub qty_remaining : ℤ
  pub unit_cost : ℤ
  pub source : LotSource
  pub source_id : Option ℕ
  pub purchase_line : Option ℕ
  pub supplier : Option ℕ
  pub account : Option ℕ
  pub received_at : ℤ
  pub deleted : Bool

pub record Movement : Type 0 where
  pub id : ℕ
  pub workspace : ℕ
  pub item : ℕ
  pub kind : MovementType
  pub qty_delta : ℤ
  pub qty_after : ℤ
  pub unit_cost : Option ℤ
  pub ref_type : Option RefType
  pub ref_id : Option ℕ

-- `LotConsumption`; the quantity is positive for a CONSUME row and negative for a REVERSAL row.
pub record Consumption : Type 0 where
  pub id : ℕ
  pub workspace : ℕ
  pub lot : ℕ
  pub movement : ℕ
  pub order_item : Option ℕ
  pub qty : ℤ
  pub unit_cost : ℤ
  pub kind : ConsumptionKind
  pub reversal_of : Option ℕ

pub data TransactionKind : Type 0 where
  write_off supplier_refund : TransactionKind

pub record Transaction : Type 0 where
  pub id : ℕ
  pub workspace : ℕ
  pub date : ℤ
  pub amount : ℤ
  pub kind : TransactionKind
  pub account : ℕ
  pub counterparty : Option ℕ

-- A row of `Account` or `Counterparty`, as far as the warehouse reads it.
pub record Party : Type 0 where
  pub id : ℕ
  pub workspace : ℕ
  pub is_archived : Bool
  pub deleted : Bool

pub data AuditAction : Type 0 where
  write_off supplier_return : AuditAction

pub record AuditEntry : Type 0 where
  pub action : AuditAction
  pub entity : ℕ
  pub qty : ℤ
  pub amount : ℤ

pub record Db : Type 0 where
  pub items : List Item
  pub lots : List Lot
  pub movements : List Movement
  pub consumptions : List Consumption
  pub transactions : List Transaction
  pub accounts : List Party
  pub suppliers : List Party
  pub audit : List AuditEntry
  -- The next key that the database hands out.
  pub next_id : ℕ

-- Who calls, and when.
pub record Caller : Type 0 where
  pub workspace : ℕ
  pub now : ℤ

pub data WarehouseError : Type 0 where
  item_not_found account_not_found supplier_not_found : WarehouseError
  insufficient_stock insufficient_reversible : ℤ → ℤ → WarehouseError
  not_positive : WarehouseError
  no_consumptions : WarehouseError
  cost_required cost_already_set empty_stock cost_not_positive : WarehouseError
  stock_left : ℤ → WarehouseError
  no_account in_the_future : WarehouseError
  lot_consumed lot_changed : WarehouseError

abbrev pub M : Type 0 → Type 0
M A = Db → Result WarehouseError (A × Db)

infixl 5 ◌>>=◌ ◌>>◌
abbrev pub ◌>>=◌ : {A B : Type 0} → M A → (A → M B) → M B
◌>>=◌ m f db = elim (m db) [ ok (a, db') ↦ f a db' | err e ↦ err e ]

abbrev pub ◌>>◌ : {A B : Type 0} → M A → M B → M B
m >> k = m >>= λ _. k

abbrev pub pure : {A : Type 0} → A → M A
pure a db = ok (a, db)

abbrev pub throw : {A : Type 0} → WarehouseError → M A
throw e db = err e

abbrev pub throw_when : Bool → WarehouseError → M (Unit {0})
throw_when true e db = err e
throw_when false e db = ok (tt, db)

abbrev pub gets : {A : Type 0} → (Db → A) → M A
gets f db = ok (f db, db)

-- Inversion of a call that returns.
pub bind-ok :
    {A B : Type 0} (m : M A) (f : A → M B) {db : Db} {r : B × Db}
    → (m >>= f) db ≡ ok r
    → (a : A) × (mid : Db) × (m db ≡ ok (a, mid)) × (f a mid ≡ ok r)
bind-ok {A} {B} m f {db} {r} e = go (m db) refl e
  where
    go :
        (x : Result WarehouseError (A × Db))
        → m db ≡ x
        → elim x [ ok (a, db') ↦ f a db' | err q ↦ err q ] ≡ ok r
        → (a : A) × (mid : Db) × (m db ≡ ok (a, mid)) × (f a mid ≡ ok r)
    go (ok (a, mid)) same h = (a, mid, same, h)
    go (err q) same h = cc
