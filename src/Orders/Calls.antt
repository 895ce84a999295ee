-- ===== src/Orders/Calls.antt =====
-- A call of apps/api/src/orders/order.service.ts inside `UnitOfWork.run`: it throws, and the books are as
-- they were, or it returns with the new books. A call of the warehouse runs in the same transaction.
use construct_fin.Prelude.{ℕ, ◌+◌, Bool, true, false, Option, none, some}
use construct_fin.Prelude.Result.{Result, ok, err}
use construct_fin.Warehouse.State
use construct_fin.Warehouse.State.{no_consumptions, Db, WarehouseError}
use construct_fin.Orders.State.{Books, OrderError, stock_refused}

abbrev pub Call : Type 0 → Type 0
Call A = Books → Result OrderError (A × Books)

infixl 5 ◌>>=◌ ◌>>◌
unfoldable pub ◌>>=◌ : {A B : Type 0} → Call A → (A → Call B) → Call B
◌>>=◌ m f b = elim (m b) [ ok (a, b') ↦ f a b' | err e ↦ err e ]

abbrev pub ◌>>◌ : {A B : Type 0} → Call A → Call B → Call B
m >> k = m >>= λ _. k

abbrev pub pure : {A : Type 0} → A → Call A
pure a b = ok (a, b)

abbrev pub throw : {A : Type 0} → OrderError → Call A
throw e b = err e

abbrev pub throw_when : Bool → OrderError → Call (Unit {0})
throw_when true e b = err e
throw_when false e b = ok (tt, b)

-- `if (done) return ...` before the rest of a call.
abbrev pub unless : Bool → Call (Unit {0}) → Call (Unit {0})
unless true m b = ok (tt, b)
unless false m b = m b

abbrev pub gets : {A : Type 0} → (Books → A) → Call A
gets f b = ok (f b, b)

abbrev pub modify : (Books → Books) → Call (Unit {0})
modify f b = ok (tt, f b)

-- The keys of `n` new rows: the first of them.
unfoldable pub hand_out : ℕ → Call ℕ
hand_out n b = ok (b.next_id, record b { next_id = b.next_id + n })

abbrev pub or_throw : {A : Type 0} → OrderError → Option A → Call A
or_throw e none = throw e
or_throw e (some a) = pure a

-- A call of the warehouse: what it throws goes on to the caller.
abbrev pub on_stock : {A : Type 0} → State.M A → Call A
on_stock m b = elim (m b.stock) [
  | ok (a, db) ↦ ok (a, record b { stock = db })
  | err e ↦ err (stock_refused e)
]

-- `try { ... } catch (e) { if (e instanceof NoConsumptionsError) ... else throw e }`
abbrev pub unless_no_consumptions :
    {A : Type 0} → Result WarehouseError (A × Db) → Db → Result WarehouseError (Unit {0} × Db)
unless_no_consumptions (ok (a, db)) other = ok (tt, db)
unless_no_consumptions (err no_consumptions) other = ok (tt, other)
unless_no_consumptions (err e) other = err e
