-- ===== src/MonthSummary/Tests.antt =====
-- Small months, and the theorems about the month's summary at work on them
-- (apps/api/src/reports/month-summary.calc.ts).
use construct_fin.Prelude.{
  ℕ, ◌≡◌, refl, true, false, some, none, Option, List, [], ◌∷◌, arith, int_laws, ℤ, pos, negsuc,
  ◌+ℤ◌, ◌-ℤ◌, ◌*ℤ◌, ◌+◌, length, sum_by,
}
use construct_fin.Sorting.{insert, sort}
use construct_fin.Text.{Text}
use construct_fin.Tax.Classify.{fixed, TransactionKind}
use construct_fin.MonthSummary.Months.{Month, month_parts, digits, decimal, month_text, shift_month}
use construct_fin.MonthSummary.ShiftedBack.{ShiftedBy, shift_month-back}
use construct_fin.MonthSummary.Remainders.{
  lower, lift, whole_part, give, remainder_rows, spread, largest_remainder,
}
use construct_fin.MonthSummary.Floors.{IsFloor, whole_part-IsFloor}
use construct_fin.MonthSummary.Spread.{total_of, largest_remainder-total}
use construct_fin.MonthSummary.Roots.{CategoryNode, climb, root_of}
use construct_fin.MonthSummary.Climbing.{IsTop, Reaches, root_of-IsTop}
use construct_fin.MonthSummary.Groups.{
  GroupKey, root_key, system_key, tax_group, ExpenseLine, ExpenseGroup, group_expenses,
  compare_groups,
}
use construct_fin.MonthSummary.Totals.{GroupsOf, counted, total_amount, group_expenses-GroupsOf}
use construct_fin.MonthSummary.Compared.{compare_groups-totals}

-- "2026-01"
abbrev january : Text
january = 50 ∷ 48 ∷ 50 ∷ 54 ∷ 45 ∷ 48 ∷ 49 ∷ []

abbrev january_parts : Month
january_parts = record { year = pos 2026; number = pos 1 }

january_read : month_parts january ≡ some january_parts
unfolding month_parts
january_read = refl

-- "2025-12"
before_january : shift_month january (negsuc 0) ≡ some (50 ∷ 48 ∷ 50 ∷ 53 ∷ 45 ∷ 49 ∷ 50 ∷ [])
unfolding shift_month month_parts month_text decimal digits ◌+ℤ◌ ◌-ℤ◌ ◌*ℤ◌
before_january = refl

-- In the year 999 the text has six characters, and is not read.
too_early : shift_month (57 ∷ 57 ∷ 57 ∷ 45 ∷ 48 ∷ 49 ∷ []) (pos 1) ≡ none
unfolding shift_month month_parts
too_early = refl

shift_month-back_example :
    (u : Text) × (n : Month) × ShiftedBy january january_parts (negsuc 12) u n
unfolding ◌+ℤ◌ ◌*ℤ◌
shift_month-back_example =
    shift_month-back january january_parts (negsuc 12) january_read (omega arith) (omega (int_laws))
      (omega (int_laws))

-- An estimate that is always wrong.
abbrev nought : ℤ → ℤ → ℤ
nought num den = pos 0

whole_part-IsFloor_example : IsFloor (negsuc 6) (pos 2) (whole_part nought (negsuc 6) (pos 2))
whole_part-IsFloor_example = whole_part-IsFloor nought (negsuc 6) (pos 2) (omega arith)

-- A third of ten, three times.
thirds :
    largest_remainder nought (pos 10 ∷ pos 10 ∷ pos 10 ∷ []) (pos 10) (pos 3)
    ≡ some (pos 4 ∷ pos 3 ∷ pos 3 ∷ [])
unfolding largest_remainder spread remainder_rows whole_part lower lift give sort insert ◌+ℤ◌ ◌-ℤ◌
    ◌*ℤ◌
thirds = refl

largest_remainder-total_example : total_of (pos 4 ∷ pos 3 ∷ pos 3 ∷ []) ≡ pos 10
largest_remainder-total_example =
    largest_remainder-total nought (pos 10) (pos 10 ∷ pos 10 ∷ []) (pos 10) (pos 3)
      (pos 4 ∷ pos 3 ∷ pos 3 ∷ []) thirds

abbrev category : ℕ → Option ℕ → CategoryNode
category id parent = record {
  id = id;
  name = id ∷ [];
  parent = parent;
  is_expense = true;
  deleted = false;
}

-- The first two are each other's parents.
abbrev circle : List CategoryNode
circle = category 1 (some 2) ∷ category 2 (some 1) ∷ category 3 (some 1) ∷ category 4 none ∷ []

root_of-IsTop_example :
    (climb (length circle + 100) circle (3 ∷ []) (category 3 (some 1))
      ≡ root_of circle (category 3 (some 1)))
    × IsTop circle (root_of circle (category 3 (some 1)))
    × Reaches circle (category 3 (some 1)) (root_of circle (category 3 (some 1)))
root_of-IsTop_example = root_of-IsTop circle (category 3 (some 1)) 100 refl

abbrev spent : Option ℕ → ℤ → ExpenseLine
spent category v = record {
  bucket = fixed;
  category = category;
  kind = TransactionKind.fixed_cost;
  expense = v;
}

abbrev as_it_is : Text → Text
as_it_is t = t

abbrev month_lines : List ExpenseLine
month_lines =
    spent (some 3) (pos 500)
    ∷ spent none (pos 70)
    ∷ spent (some 4) (pos 30)
    ∷ spent (some 1) (negsuc 9)
    ∷ []

group_expenses-GroupsOf_example :
    GroupsOf
      (sum_by counted month_lines +ℤ pos 45)
      (group_expenses as_it_is circle month_lines (pos 45))
group_expenses-GroupsOf_example = group_expenses-GroupsOf as_it_is circle month_lines (pos 45)

abbrev group : GroupKey → ℤ → ExpenseGroup
group k v = record { key = k; name = []; amount = v; tax_accrual = false }

abbrev this_month : List ExpenseGroup
this_month = group (root_key 1) (pos 100) ∷ group (system_key tax_group) (pos 20) ∷ []

abbrev last_month : List ExpenseGroup
last_month = group (root_key 4) (pos 5) ∷ group (root_key 1) (pos 90) ∷ []

abbrev same_place : Text → Text → ℤ
same_place a b = pos 0

compare_groups-totals_example :
    (sum_by (λ c. c.group.amount) (compare_groups same_place this_month last_month)
      ≡ total_amount this_month)
    × (sum_by (λ c. c.prev_amount) (compare_groups same_place this_month last_month)
        ≡ total_amount last_month)
compare_groups-totals_example =
    compare_groups-totals same_place this_month last_month ((refl, tt), (tt, tt))
      ((refl, tt), (tt, tt))
