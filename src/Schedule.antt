-- ===== src/Schedule.antt =====
-- The payment schedule of an order (apps/api/src/orders/payment-schedule.ts): what was paid covers the
-- entries in the order of their due dates. Amounts are in kopecks, so that `money` of an entry's amount
-- is that amount and `toFixed(2)` writes the number that the model keeps; notes are left out.
-- `localeCompare` on ids is a parameter.
pub mod DueOrder
pub mod Coverage
mod Tests
use construct_fin.Prelude.{
  ℕ, Bool, true, false, Option, none, some, List, [], ◌∷◌, ℤ, pos, ◌+ℤ◌, ◌-ℤ◌, ltb_ℤ, eqb_ℤ, max_ℤ,
  min_ℤ, ltb, if◌then◌else◌,
}
use construct_fin.Calendar.{end_of_day, business_day}
use construct_fin.Sorting.{Comparator, ◌or_else◌, sort}
use construct_fin.Sorting.Comparators.{by_key}

pub data ScheduleEntryStatus : Type 0 where
  paid partial pending overdue : ScheduleEntryStatus

pub record ScheduleEntry : Type 0 where
  pub id : ℕ
  pub seq : ℕ
  pub due_date : ℕ
  pub amount : ℤ

pub record ScheduleEntryView : Type 0 where
  pub id : ℕ
  pub seq : ℕ
  pub due_date : ℕ
  pub amount : ℤ
  pub covered : ℤ
  pub remaining : ℤ
  pub status : ScheduleEntryStatus

pub record ScheduleSummary : Type 0 where
  pub planned : ℤ
  pub matches_total : Bool
  pub overdue_amount : ℤ
  pub next_due : Option (ℕ × ℤ)

pub record ScheduleView : Type 0 where
  pub entries : List ScheduleEntryView
  pub summary : ScheduleSummary

-- The variables that the callback of `map` writes; the next due date and its amount are set together.
pub record Running : Type 0 where
  pub pool : ℤ
  pub planned : ℤ
  pub overdue_amount : ℤ
  pub next_due : Option (ℕ × ℤ)

abbrev pub status_of : ℤ → ℤ → Bool → ScheduleEntryStatus
status_of covered remaining due_past =
    if eqb_ℤ remaining (pos 0)
    then paid
    else if due_past
    then overdue
    else if ltb_ℤ (pos 0) covered
    then partial
    else pending

abbrev pub is_overdue : ScheduleEntryStatus → Bool
is_overdue paid = false
is_overdue partial = false
is_overdue pending = false
is_overdue overdue = true

abbrev pub or_next : Option (ℕ × ℤ) → ℕ → ℤ → Option (ℕ × ℤ)
or_next (some n) due remaining = some n
or_next none due remaining = if ltb_ℤ (pos 0) remaining then some (due, remaining) else none

-- The view of one entry, and what the callback does to the variables.
unfoldable pub view_entry : ℕ → ScheduleEntry → Running → ScheduleEntryView
unfolding end_of_day business_day
view_entry as_of e r =
    let covered = min_ℤ r.pool e.amount in
    let remaining = e.amount -ℤ covered in
    record {
      id = e.id;
      seq = e.seq;
      due_date = e.due_date;
      amount = e.amount;
      covered = covered;
      remaining = remaining;
      status = status_of covered remaining (ltb (end_of_day e.due_date) as_of);
    }

unfoldable pub run_entry : ScheduleEntryView → Running → Running
run_entry v r = record {
  pool = r.pool -ℤ v.covered;
  planned = r.planned +ℤ v.amount;
  overdue_amount =
      if is_overdue v.status then r.overdue_amount +ℤ v.remaining else r.overdue_amount;
  next_due = or_next r.next_due v.due_date v.remaining;
}

unfoldable pub views : ℕ → List ScheduleEntry → Running → List ScheduleEntryView × Running
unfolding view_entry run_entry
views as_of [] r = ([], r)
views as_of (e ∷ es) r =
    let v = view_entry as_of e r in
    let rest = views as_of es (run_entry v r) in (v ∷ rest.0, rest.1)

abbrev pub by_due : Comparator ℕ → Comparator ScheduleEntry
by_due compare_ids a b =
    by_key (λ (e : ScheduleEntry). pos e.due_date) a b
    or_else (by_key (λ (e : ScheduleEntry). pos e.seq) a b or_else compare_ids a.id b.id)

abbrev pub summary_of : Running → ℤ → ScheduleSummary
summary_of r total = record {
  planned = r.planned;
  matches_total = eqb_ℤ r.planned total;
  overdue_amount = r.overdue_amount;
  next_due = r.next_due;
}

unfoldable pub start : ℤ → Running
start paid_amount = record {
  pool = max_ℤ paid_amount (pos 0);
  planned = pos 0;
  overdue_amount = pos 0;
  next_due = none;
}

-- `scheduleView`; an order without entries has no schedule.
unfoldable pub schedule_view : Comparator ℕ → List ScheduleEntry → ℤ → ℤ → ℕ → Option ScheduleView
unfolding views start
schedule_view compare_ids [] paid_amount total as_of = none
schedule_view compare_ids (e ∷ es) paid_amount total as_of =
    let out = views as_of (sort (by_due compare_ids) (e ∷ es)) (start paid_amount) in
    some (record { entries = out.0; summary = summary_of (out.1) total })
