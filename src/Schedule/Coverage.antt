-- ===== src/Schedule/Coverage.antt =====
-- How the payments cover the entries of a schedule (apps/api/src/orders/payment-schedule.ts).
use construct_fin.Prelude.{
  ℕ, ◌≡◌, refl, sym, ◌∙◌, ap, ◌⊎◌, inl, inr, Bool, true, false, Option, none, some, List, [], ◌∷◌,
  map, arith, ℤ, pos, ◌+ℤ◌, ◌-ℤ◌, ◌≤ℤ◌, ltb_ℤ, eqb_ℤ, max_ℤ, min_ℤ, ltb, if◌then◌else◌, sum_by,
  sum_by_nonneg, le_max₂, All, Bool-cases, int_laws, +ℤ_zero, +ℤ_assoc, zero_+ℤ,
}
use construct_fin.Calendar.{business_day, end_of_day_lt}
use mathlib.Core.List.{Perm}
use construct_fin.Sorting.{Comparator, sort, All-sort, sum_by-sort}
use construct_fin.Schedule.DueOrder.{InDueOrder, entry_of, shown-Perm, shown-InDueOrder}
use construct_fin.Schedule.{
  ScheduleEntry, ScheduleEntryView, ScheduleView, Running, is_overdue, or_next, status_of,
  view_entry, run_entry, views, by_due, start, schedule_view,
}

-- Nothing is covered behind an entry that is not paid in full.
abbrev pub InOrder : List ScheduleEntryView → Type 0
InOrder [] = Unit
InOrder (v ∷ vs) = ((v.remaining ≡ pos 0) ⊎ All (λ w. w.covered ≡ pos 0) vs) × InOrder vs

abbrev pub overdue_of : ScheduleEntryView → ℤ
overdue_of v = if is_overdue v.status then v.remaining else pos 0

-- The first entry that is not paid in full.
abbrev pub first_unpaid : List ScheduleEntryView → Option (ℕ × ℤ)
first_unpaid [] = none
first_unpaid (v ∷ vs) =
    if ltb_ℤ (pos 0) v.remaining then some (v.due_date, v.remaining) else first_unpaid vs

-- One view: the cover lies between 0 and the amount, the rest remains, and what remains is overdue once
-- the day of the entry is over.
pub record IsView (as_of : ℕ) (v : ScheduleEntryView) : Type 0 where
  pub covered_nonneg : pos 0 ≤ℤ v.covered
  pub remaining_nonneg : pos 0 ≤ℤ v.remaining
  pub parts : v.amount ≡ v.covered +ℤ v.remaining
  pub late : is_overdue v.status ≡ (
      if eqb_ℤ v.remaining (pos 0)
      then false
      else ltb (business_day v.due_date) (business_day as_of))

min_nonneg : (a b : ℤ) → pos 0 ≤ℤ a → pos 0 ≤ℤ b → pos 0 ≤ℤ min_ℤ a b
min_nonneg a b h k = ground arith

min_le₁ : (a b : ℤ) → min_ℤ a b ≤ℤ a
min_le₁ a b = ground arith

min_le₂ : (a b : ℤ) → min_ℤ a b ≤ℤ b
min_le₂ a b = ground arith

rest_nonneg : (a m : ℤ) → m ≤ℤ a → pos 0 ≤ℤ a -ℤ m
rest_nonneg a m h = omega int_laws

status_late :
    (c r : ℤ) (b : Bool) → is_overdue (status_of c r b) ≡ (if eqb_ℤ r (pos 0) then false else b)
status_late c r b = ground arith

view_entry-IsView :
    (as_of : ℕ) (e : ScheduleEntry) (r : Running)
    → pos 0 ≤ℤ e.amount
    → pos 0 ≤ℤ r.pool
    → IsView as_of (view_entry as_of e r)
unfolding view_entry
view_entry-IsView as_of e r h k = record {
  covered_nonneg = min_nonneg r.pool e.amount k h;
  remaining_nonneg = rest_nonneg e.amount _ (min_le₂ r.pool e.amount);
  parts = omega int_laws;
  late =
      status_late _ (e.amount -ℤ min_ℤ r.pool e.amount) _
      ∙ ap (λ z. if eqb_ℤ (e.amount -ℤ min_ℤ r.pool e.amount) (pos 0) then false else z)
          (end_of_day_lt e.due_date as_of);
}

both_zero : (p m : ℤ) → p ≡ pos 0 → m ≡ pos 0 → p -ℤ m ≡ pos 0
both_zero p m z n = rw (z, n) (omega int_laws)

spent_pool :
    (as_of : ℕ) (es : List ScheduleEntry) (r : Running)
    → r.pool ≡ pos 0
    → All (λ e. pos 0 ≤ℤ e.amount) es
    → All (λ v. v.covered ≡ pos 0) ((views as_of es r).0)
unfolding views view_entry run_entry
spent_pool as_of [] r z h = tt
spent_pool as_of (e ∷ es) r z (p, h) =
    let none : min_ℤ r.pool e.amount ≡ pos 0 = ground (arith, z, p) in
    (none, spent_pool as_of es (run_entry (view_entry as_of e r) r) (both_zero r.pool _ z none) h)

-- What the loop has done from one state of the variables to another.
pub record Ran (as_of : ℕ) (es : List ScheduleEntry) (r : Running) : Type 0 where
  pub each : All (IsView as_of) ((views as_of es r).0)
  pub in_order : InOrder ((views as_of es r).0)
  pub covered :
      sum_by (λ v. v.covered) ((views as_of es r).0) ≡ min_ℤ r.pool (sum_by (λ e. e.amount) es)
  pub planned : ((views as_of es r).1).planned ≡ r.planned +ℤ sum_by (λ e. e.amount) es
  pub late :
      ((views as_of es r).1).overdue_amount
      ≡ r.overdue_amount +ℤ sum_by overdue_of ((views as_of es r).0)
  pub next :
      ((views as_of es r).1).next_due
      ≡ elim r.next_due [ none ↦ first_unpaid ((views as_of es r).0) | some n ↦ some n ]

min_split :
    (p a s : ℤ)
    → pos 0 ≤ℤ a
    → pos 0 ≤ℤ s
    → pos 0 ≤ℤ p
    → min_ℤ p a +ℤ min_ℤ (p -ℤ min_ℤ p a) s ≡ min_ℤ p (a +ℤ s)
unfolding ◌+ℤ◌ ◌-ℤ◌
min_split p a s h k l = ground arith

late_step :
    (t : Bool) (o r s : ℤ) → (if t then o +ℤ r else o) +ℤ s ≡ o +ℤ ((if t then r else pos 0) +ℤ s)
late_step true o r s = +ℤ_assoc o r s
late_step false o r s = ap (λ z. o +ℤ z) (sym (zero_+ℤ s))

next_step :
    (n : Option (ℕ × ℤ)) (due : ℕ) (rest : ℤ) (f : Option (ℕ × ℤ))
    → elim (or_next n due rest) [ none ↦ f | some m ↦ some m ]
      ≡ elim n [ none ↦ if ltb_ℤ (pos 0) rest then some (due, rest) else f | some m ↦ some m ]
next_step (some n) due rest f = refl
next_step none due rest f = ground arith

-- Either the entry is paid in full or the pool is empty behind it.
paid_or_spent : (p a : ℤ) → (a -ℤ min_ℤ p a ≡ pos 0) ⊎ (p -ℤ min_ℤ p a ≡ pos 0)
paid_or_spent p a = elim (Bool-cases (ltb_ℤ a p)) [
  | inl full ↦ inl (rw full (omega int_laws))
  | inr short ↦ inr (rw short (omega int_laws))
]

ran :
    (as_of : ℕ) (es : List ScheduleEntry) (r : Running)
    → All (λ e. pos 0 ≤ℤ e.amount) es
    → pos 0 ≤ℤ r.pool
    → Ran as_of es r
unfolding views view_entry run_entry
ran as_of [] r h k = record {
  each = tt;
  in_order = tt;
  covered = ground (arith, k);
  planned = sym (+ℤ_zero _);
  late = sym (+ℤ_zero _);
  next = elim r.next_due as (λ n. n ≡ elim n [ none ↦ none | some m ↦ some m ]) [
    | none ↦ refl
    | some n ↦ refl
  ];
}
ran as_of (e ∷ es) r (h, hs) k =
    let v = view_entry as_of e r in
    let r' = run_entry v r in
    let k' = rest_nonneg r.pool _ (min_le₁ r.pool e.amount) in
    let rest = ran as_of es r' hs k' in
    record {
      each = (view_entry-IsView as_of e r h k, rest.each);
      in_order = (
        elim (paid_or_spent r.pool e.amount) [
          | inl full ↦ inl full
          | inr spent ↦ inr (spent_pool as_of es r' spent hs)
        ],
        rest.in_order,
      );
      covered =
          ap (λ z. min_ℤ r.pool e.amount +ℤ z) rest.covered
          ∙ min_split r.pool e.amount (sum_by (λ x. x.amount) es) h
              (sum_by_nonneg (λ x. x.amount) es hs) k;
      planned = rest.planned ∙ +ℤ_assoc _ _ _;
      late = rest.late ∙ late_step (is_overdue v.status) r.overdue_amount v.remaining _;
      next = rest.next ∙ next_step r.next_due e.due_date v.remaining _;
    }

-- What a schedule promises.
pub record IsSchedule (entries : List ScheduleEntry) (paid_amount : ℤ) (as_of : ℕ)
    (s : ScheduleView) : Type 0 where
  pub same_entries : Perm (map entry_of s.entries) entries
  pub due_order : InDueOrder (map entry_of s.entries)
  pub each : All (IsView as_of) s.entries
  pub in_order : InOrder s.entries
  pub covered :
      sum_by (λ v. v.covered) s.entries ≡ min_ℤ (max_ℤ paid_amount (pos 0)) s.summary.planned
  pub planned : s.summary.planned ≡ sum_by (λ e. e.amount) entries
  pub late : s.summary.overdue_amount ≡ sum_by overdue_of s.entries
  pub next : s.summary.next_due ≡ first_unpaid s.entries

-- An order with entries, whose amounts are not negative, has a schedule: its views show exactly the
-- entries, by due date and, on one due date, by `seq`; the payments, clamped at zero, cover them in this
-- order up to what is planned; each entry's cover and rest
-- add up to its amount and are not negative; no entry is covered behind one that is not paid in full; an
-- entry is overdue exactly where something remains and a later business day has come; and the summary
-- adds up the amounts and the overdue rests and names the first entry that is not paid in full.
pub schedule_view-IsSchedule :
    (compare_ids : Comparator ℕ) (e : ScheduleEntry) (es : List ScheduleEntry)
    (paid_amount total : ℤ) (as_of : ℕ)
    → All (λ x. pos 0 ≤ℤ x.amount) (e ∷ es)
    → (s : ScheduleView) × (schedule_view compare_ids (e ∷ es) paid_amount total as_of ≡ some s)
      × IsSchedule (e ∷ es) paid_amount as_of s
unfolding schedule_view start
schedule_view-IsSchedule compare_ids e es paid_amount total as_of h =
    let r = start paid_amount in
    let ordered = sort (by_due compare_ids) (e ∷ es) in
    let out =
      ran as_of ordered r (All-sort (by_due compare_ids) _ (e ∷ es) h)
        (le_max₂ paid_amount (pos 0)) in
    let all = sum_by-sort (by_due compare_ids) (λ x. x.amount) (e ∷ es) in
    let planned = out.planned ∙ zero_+ℤ _ in
    (
      _,
      refl,
      record {
        same_entries = shown-Perm compare_ids as_of (e ∷ es) r;
        due_order = shown-InDueOrder compare_ids as_of (e ∷ es) r;
        each = out.each;
        in_order = out.in_order;
        covered = out.covered ∙ ap (λ z. min_ℤ (max_ℤ paid_amount (pos 0)) z) (sym planned);
        planned = planned ∙ all;
        late = out.late ∙ zero_+ℤ _;
        next = out.next;
      },
    )
