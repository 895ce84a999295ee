-- ===== src/Matching/Planned.antt =====
-- apps/api/src/integrations/planned-match.ts: lines of bank statements against planned payments.
-- Amounts are in kopecks and dates in milliseconds; `localeCompare` on ids is a parameter.
pub mod Laws
use construct_fin.Prelude.{
  ℕ, ◌*◌, Bool, true, false, not, ◌&&◌, ◌||◌, Option, none, some, List, [], ◌∷◌, map, ℤ, pos, ltb_ℤ,
  eqb_ℤ, ◌==◌, if◌then◌else◌, has,
}
use construct_fin.Text.{Text, is_empty, same_text, digits_only}
use construct_fin.Sorting.{Comparator, ◌or_else◌, sort}
use construct_fin.Sorting.Comparators.{by_key}
use construct_fin.Matching.{greedy, pairs}
use construct_fin.Matching.Transfers.{apart, day_ms}

pub record PlannedMatchLine : Type 0 where
  pub id : ℕ
  pub date : ℤ
  pub amount : ℤ
  pub counterparty_inn : Option Text

pub record PlannedMatchPlan : Type 0 where
  pub id : ℕ
  pub due_date : ℤ
  pub amount : ℤ
  pub counterparty_inn : Option Text

pub record PlannedSuggestion : Type 0 where
  pub line : PlannedMatchLine
  pub plan : PlannedMatchPlan

pub record PlannedCandidate : Type 0 where
  pub suggestion : PlannedSuggestion
  pub gap : ℤ
  pub inn_match : Bool

abbrev pub suggest : PlannedMatchLine → PlannedMatchPlan → PlannedCandidate
suggest line plan =
    let line_inn = digits_only line.counterparty_inn in
    let plan_inn = digits_only plan.counterparty_inn in
    record {
      suggestion = record { line = line; plan = plan };
      gap = apart line.date plan.due_date;
      inn_match = not (is_empty line_inn) && same_text line_inn plan_inn;
    }

-- The body of the nested loops.
unfoldable pub planned_candidate : ℕ → PlannedMatchLine → PlannedMatchPlan → Option PlannedCandidate
planned_candidate window_days line plan =
    let gap = apart line.date plan.due_date in
    let line_inn = digits_only line.counterparty_inn in
    let plan_inn = digits_only plan.counterparty_inn in
    if not (eqb_ℤ line.amount plan.amount)
    then none
    else if ltb_ℤ (pos (window_days * day_ms)) gap
    then none
    else if not (is_empty line_inn)
        && (not (is_empty plan_inn) && not (same_text line_inn plan_inn))
    then none
    else some (suggest line plan)

abbrev pub inn_rank : PlannedCandidate → ℤ
inn_rank c = if c.inn_match then pos 0 else pos 1

abbrev pub line_id : PlannedCandidate → ℕ
line_id c = c.suggestion.line.id

abbrev pub plan_id : PlannedCandidate → ℕ
plan_id c = c.suggestion.plan.id

-- The sets `usedLines` and `usedPlans`.
abbrev pub planned_blocked : List ℕ × List ℕ → PlannedCandidate → Bool
planned_blocked used c = has (line_id c) used.0 || has (plan_id c) used.1

abbrev pub planned_add : PlannedCandidate → List ℕ × List ℕ → List ℕ × List ℕ
planned_add c used = (line_id c ∷ used.0, plan_id c ∷ used.1)

module _ (compare_ids : Comparator ℕ) where
  abbrev pub by_inn : Comparator PlannedCandidate
  by_inn a b =
      by_key inn_rank a b
      or_else (by_key (λ c. c.gap) a b
          or_else (compare_ids (line_id a) (line_id b) or_else compare_ids (plan_id a) (plan_id b)))

  unfoldable pub planned_taken :
      List PlannedMatchLine → List PlannedMatchPlan → ℕ → List PlannedCandidate
  unfolding planned_candidate
  planned_taken lines plans window_days =
      greedy planned_blocked planned_add ([], [])
        (sort by_inn (pairs (planned_candidate window_days) lines plans))

  unfoldable pub match_planned_payments :
      List PlannedMatchLine → List PlannedMatchPlan → ℕ → List PlannedSuggestion
  unfolding planned_taken
  match_planned_payments lines plans window_days =
      map (λ c. c.suggestion) (planned_taken lines plans window_days)
