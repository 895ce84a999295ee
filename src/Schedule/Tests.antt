-- ===== src/Schedule/Tests.antt =====
-- A schedule of three payments.
use construct_fin.Prelude.{ℕ, ◌≡◌, some, List, [], ◌∷◌, arith, pos, ◌-ℤ◌}
use construct_fin.Sorting.{Comparator}
use construct_fin.Schedule.{ScheduleEntry, ScheduleView, schedule_view}
use construct_fin.Schedule.Coverage.{IsSchedule, schedule_view-IsSchedule}

abbrev by_number : Comparator ℕ
by_number a b = pos a -ℤ pos b

abbrev entry : ℕ → ℕ → ℕ → ScheduleEntry
entry id due amount = record { id = id; seq = id; due_date = due; amount = pos amount }

-- The entry that is due last stands first.
abbrev later : List ScheduleEntry
later = entry 2 1000000000 30000 ∷ entry 1 500000000 50000 ∷ []

schedule_view-IsSchedule_example :
    (s : ScheduleView) × (schedule_view by_number
        (entry 3 2000000000 20000 ∷ later)
        (pos 60000)
        (pos 100000)
        1200000000
      ≡ some s)
    × IsSchedule (entry 3 2000000000 20000 ∷ later) (pos 60000) 1200000000 s
schedule_view-IsSchedule_example =
    schedule_view-IsSchedule by_number (entry 3 2000000000 20000) later (pos 60000) (pos 100000)
      1200000000 (omega arith, (omega arith, (omega arith, tt)))
