-- ===== src/Schedule/DueOrder.antt =====
-- The order in which apps/api/src/orders/payment-schedule.ts takes the entries: by the due date, then
-- by `seq`, whatever `localeCompare` says of the ids.
use mathlib.Core.List.{Perm}
use mathlib.Core.Path.{subst}
use construct_fin.Prelude.{
  ℕ, ◌<◌, ◌≤◌, ◌≡◌, refl, sym, ap, ◌⊎◌, inl, inr, true, false, List, [], ◌∷◌, map, arith, ℤ, pos,
  ◌<ℤ◌, ◌-ℤ◌, leb_ℤ, int_laws, All, All-map, Bool-cases,
}
use construct_fin.Sorting.{Comparator, ◌or_else◌, insert, sort, All-insert, sort-Perm}
use construct_fin.Schedule.{
  ScheduleEntry, ScheduleEntryView, Running, view_entry, run_entry, views, by_due,
}

-- One entry is due no later than another, and stands no later in the schedule where they are due
-- together.
abbrev pub NoLater : ScheduleEntry → ScheduleEntry → Type 0
NoLater x y = (x.due_date < y.due_date) ⊎ ((x.due_date ≡ y.due_date) × (x.seq ≤ y.seq))

abbrev pub InDueOrder : List ScheduleEntry → Type 0
InDueOrder [] = Unit
InDueOrder (x ∷ xs) = All (NoLater x) xs × InDueOrder xs

-- The entry that a view shows.
abbrev pub entry_of : ScheduleEntryView → ScheduleEntry
entry_of v = record { id = v.id; seq = v.seq; due_date = v.due_date; amount = v.amount }

NoLater-trans : (x y z : ScheduleEntry) → NoLater x y → NoLater y z → NoLater x z
NoLater-trans x y z (inl h) (inl k) = inl (omega arith)
NoLater-trans x y z (inl h) (inr (e, k)) = inl (omega arith)
NoLater-trans x y z (inr (d, h)) (inl k) = inl (omega arith)
NoLater-trans x y z (inr (d, h)) (inr (e, k)) = inr (omega arith, omega arith)

diff_zero : (m n : ℕ) → pos m -ℤ pos n ≡ pos 0 → m ≡ n
unfolding ◌-ℤ◌
diff_zero m n h = ground (arith, h)

equal_le : {m n : ℕ} → m ≡ n → m ≤ n
equal_le e = omega (arith, e)

-- What the first of two comparators says of the answer of both.
below_first :
    (a b : ℤ)
    → leb_ℤ (a or_else b) (pos 0) ≡ true
    → (a <ℤ pos 0) ⊎ ((a ≡ pos 0) × (leb_ℤ b (pos 0) ≡ true))
below_first a b h = ground (arith, h)

above_first :
    (a b : ℤ)
    → leb_ℤ (a or_else b) (pos 0) ≡ false
    → (pos 0 <ℤ a) ⊎ ((a ≡ pos 0) × (leb_ℤ b (pos 0) ≡ false))
above_first a b h = ground (arith, h)

module _ (ids : Comparator ℕ) where
  first_NoLater : (x y : ScheduleEntry) → leb_ℤ (by_due ids x y) (pos 0) ≡ true → NoLater x y
  first_NoLater x y h =
      elim (below_first (pos x.due_date -ℤ pos y.due_date)
        (pos x.seq -ℤ pos y.seq or_else ids x.id y.id) h) [
          | inl less ↦ inl (omega (int_laws, less))
          | inr (same, rest) ↦ elim (below_first (pos x.seq -ℤ pos y.seq) (ids x.id y.id) rest) [
            | inl less ↦ inr (diff_zero _ _ same, omega (int_laws, less))
            | inr (equal, ties) ↦ inr (diff_zero _ _ same, equal_le (diff_zero _ _ equal))
          ]
        ]

  later_NoLater : (x y : ScheduleEntry) → leb_ℤ (by_due ids x y) (pos 0) ≡ false → NoLater y x
  later_NoLater x y h =
      elim (above_first (pos x.due_date -ℤ pos y.due_date)
        (pos x.seq -ℤ pos y.seq or_else ids x.id y.id) h) [
          | inl more ↦ inl (omega (int_laws, more))
          | inr (same, rest) ↦ elim (above_first (pos x.seq -ℤ pos y.seq) (ids x.id y.id) rest) [
            | inl more ↦ inr (sym (diff_zero _ _ same), omega (int_laws, more))
            | inr (equal, ties) ↦
                inr (sym (diff_zero _ _ same), equal_le (sym (diff_zero _ _ equal)))
          ]
        ]

  insert-InDueOrder :
      (x : ScheduleEntry) (ys : List ScheduleEntry)
      → InDueOrder ys
      → InDueOrder (insert (by_due ids) x ys)
  unfolding insert
  insert-InDueOrder x [] h = (tt, tt)
  insert-InDueOrder x (y ∷ ys) (le, h) = elim (Bool-cases (leb_ℤ (by_due ids x y) (pos 0))) [
    | inl first ↦
        let here = first_NoLater x y first in
        rw first ((here, All-map _ _ (λ z k. NoLater-trans x y z here k) ys le), (le, h))
    | inr later ↦ rw later (
      All-insert (by_due ids) (NoLater y) x ys (later_NoLater x y later) le,
      insert-InDueOrder x ys h,
    )
  ]

  sort-InDueOrder : (xs : List ScheduleEntry) → InDueOrder (sort (by_due ids) xs)
  unfolding sort
  sort-InDueOrder [] = tt
  sort-InDueOrder (x ∷ xs) = insert-InDueOrder x (sort (by_due ids) xs) (sort-InDueOrder xs)

  shown :
      (as_of : ℕ) (es : List ScheduleEntry) (r : Running) → map entry_of ((views as_of es r).0) ≡ es
  unfolding views view_entry
  shown as_of [] r = refl
  shown as_of (e ∷ es) r = ap (λ l. e ∷ l) (shown as_of es (run_entry (view_entry as_of e r) r))

  -- The views show the entries, each once, in the order of their due dates.
  pub shown-InDueOrder :
      (as_of : ℕ) (es : List ScheduleEntry) (r : Running)
      → InDueOrder (map entry_of ((views as_of (sort (by_due ids) es) r).0))
  shown-InDueOrder as_of es r =
      subst InDueOrder (sym (shown as_of (sort (by_due ids) es) r)) (sort-InDueOrder es)

  pub shown-Perm :
      (as_of : ℕ) (es : List ScheduleEntry) (r : Running)
      → Perm (map entry_of ((views as_of (sort (by_due ids) es) r).0)) es
  shown-Perm as_of es r =
      subst (λ l. Perm l es) (sym (shown as_of (sort (by_due ids) es) r))
        (sort-Perm (by_due ids) es)
