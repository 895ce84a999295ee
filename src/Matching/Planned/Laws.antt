-- ===== src/Matching/Planned/Laws.antt =====
-- The suggestions of apps/api/src/integrations/planned-match.ts agree with their plans, are one to one,
-- and leave out no pair that is better than what they suggest.
use construct_fin.Prelude.{
  ℕ, ◌*◌, ◌≡◌, inl, inr, Bool, true, not, ◌&&◌, ◌||◌, some, List, [], arith, pos, ◌≤ℤ◌, ltb_ℤ,
  ltb_ℤ→le, eqb_ℤ, ◌==◌, All, All-map, All-map_of, All-hold, Bool-cases,
}
use mathlib.Core.Path.{subst}
use mathlib.Core.Option.{some-injective}
use construct_fin.Text.{is_empty, same_text, digits_only}
use construct_fin.Sorting.{Comparator, IsPreorder, ◌or_else◌, sort-All, All-sort, sort-IsOrdered}
use construct_fin.Sorting.Comparators.{by_key, by_key-IsPreorder, on-IsPreorder, or_else-IsPreorder}
use construct_fin.Matching.Greedy.{
  all_at, Some, Apart, Prevents, Blocks, greedy-Apart, All-greedy, greedy-Prevents,
}
use construct_fin.Matching.Pairs.{pairs-All, All-pairs}
use construct_fin.Matching.Transfers.{apart, day_ms}
use construct_fin.Matching.Planned.{
  suggest, PlannedMatchLine, PlannedMatchPlan, PlannedSuggestion, PlannedCandidate,
  planned_candidate, line_id, plan_id, planned_blocked, planned_add, by_inn, inn_rank,
  planned_taken, match_planned_payments,
}

abbrev pub planned_shares : PlannedCandidate → PlannedCandidate → Bool
planned_shares x c = line_id c == line_id x || plan_id c == plan_id x

planned-Blocks : Blocks planned_blocked planned_add planned_shares
planned-Blocks u x c = ground arith

same_plan : (c : PlannedCandidate) → planned_shares c c ≡ true
same_plan c = ground arith

-- A line fits a plan: to the kopeck, within the window, and with no other INN.
pub record Fits (window_days : ℕ) (s : PlannedSuggestion) : Type 0 where
  pub amount : s.line.amount ≡ s.plan.amount
  pub near : apart s.line.date s.plan.due_date ≤ℤ pos (window_days * day_ms)
  pub inn :
      is_empty (digits_only s.line.counterparty_inn)
        || (is_empty (digits_only s.plan.counterparty_inn)
            || same_text
                (digits_only s.line.counterparty_inn)
                (digits_only s.plan.counterparty_inn))
      ≡ true

module _ (window_days : ℕ) where
  planned_candidate-Fits :
      (line : PlannedMatchLine) (plan : PlannedMatchPlan) (c : PlannedCandidate)
      → Unit {0}
      → Unit {0}
      → planned_candidate window_days line plan ≡ some c
      → Fits window_days c.suggestion
  unfolding planned_candidate
  planned_candidate-Fits line plan c u v e =
      let li = digits_only line.counterparty_inn in
      let pi = digits_only plan.counterparty_inn in
      elim (Bool-cases (eqb_ℤ line.amount plan.amount)) [
        | inr differ ↦ absurd (ground (arith, differ, e))
        | inl same ↦
            elim (Bool-cases (ltb_ℤ (pos (window_days * day_ms)) (apart line.date plan.due_date))) [
              | inl far ↦ absurd (ground (arith, same, far, e))
              | inr near ↦
                  elim (Bool-cases
                    (not (is_empty li) && (not (is_empty pi) && not (same_text li pi)))) [
                      | inl other ↦ absurd (ground (arith, same, near, other, e))
                      | inr agree ↦
                          subst (λ k. Fits window_days k.suggestion)
                            (some-injective (suggest line plan) c
                              (ground (arith, same, near, agree, e)))
                            (record {
                              amount = ground (arith, same);
                              near =
                                  ltb_ℤ→le (pos (window_days * day_ms))
                                    (apart line.date plan.due_date) near;
                              inn = ground (arith, agree);
                            })
                    ]
            ]
      ]

  module _ (compare_ids : Comparator ℕ) where
    -- In every suggestion the amounts are equal, the line is within the window of days around the plan,
    -- and the INNs are the same where both are known.
    pub match_planned_payments-Fits :
        (lines : List PlannedMatchLine) (plans : List PlannedMatchPlan)
        → All (Fits window_days) (match_planned_payments compare_ids lines plans window_days)
    unfolding match_planned_payments planned_taken
    match_planned_payments-Fits lines plans =
        All-map_of (λ c. c.suggestion) (Fits window_days) _
          (All-greedy planned_blocked planned_add planned_shares planned-Blocks
            (λ c. Fits window_days c.suggestion) ([], []) _
            (All-sort (by_inn compare_ids) (λ c. Fits window_days c.suggestion) _
              (All-pairs (planned_candidate window_days) (λ c. Fits window_days c.suggestion)
                (λ _. Unit {0}) (λ _. Unit {0}) planned_candidate-Fits lines plans
                (All-hold (λ _. Unit {0}) (λ _. tt) lines)
                (All-hold (λ _. Unit {0}) (λ _. tt) plans))))

    -- No line and no plan is in two of the suggestions.
    pub planned_taken-Apart :
        (lines : List PlannedMatchLine) (plans : List PlannedMatchPlan)
        → Apart planned_shares (planned_taken compare_ids lines plans window_days)
    unfolding planned_taken
    planned_taken-Apart lines plans =
        greedy-Apart planned_blocked planned_add planned_shares planned-Blocks ([], []) _

    module _ (pre : IsPreorder compare_ids) where
      by_inn-IsPreorder : IsPreorder (by_inn compare_ids)
      by_inn-IsPreorder =
          or_else-IsPreorder (by_key inn_rank)
            (λ a b.
              by_key (λ c. c.gap) a b
              or_else (compare_ids (line_id a) (line_id b)
                  or_else compare_ids (plan_id a) (plan_id b)))
            (by_key-IsPreorder inn_rank)
            (or_else-IsPreorder (by_key (λ c. c.gap))
              (λ a b.
                compare_ids (line_id a) (line_id b) or_else compare_ids (plan_id a) (plan_id b))
              (by_key-IsPreorder (λ c. c.gap))
              (or_else-IsPreorder (λ a b. compare_ids (line_id a) (line_id b))
                (λ a b. compare_ids (plan_id a) (plan_id b)) (on-IsPreorder line_id compare_ids pre)
                (on-IsPreorder plan_id compare_ids pre)))

      -- Each fitting pair is blocked by one that is no worse.
      All-prevented :
          (lines : List PlannedMatchLine) (plans : List PlannedMatchPlan)
          → All
              (λ l.
                All
                  (λ p.
                    (c : PlannedCandidate)
                    → planned_candidate window_days l p ≡ some c
                    → Some
                        (Prevents planned_shares (by_inn compare_ids) c)
                        (planned_taken compare_ids lines plans window_days))
                  plans)
              lines
      unfolding planned_taken
      All-prevented lines plans =
          pairs-All (planned_candidate window_days)
            (λ c.
              Some (Prevents planned_shares (by_inn compare_ids) c)
                (planned_taken compare_ids lines plans window_days))
            _ _
            (sort-All (by_inn compare_ids) _ _ (
              All-map _ _
                (λ c s. elim s [ inl used ↦ absurd (ground (arith, used)) | inr found ↦ found ]) _
                (greedy-Prevents planned_blocked planned_add planned_shares planned-Blocks
                  (by_inn compare_ids) by_inn-IsPreorder same_plan ([], []) _
                  (sort-IsOrdered (by_inn compare_ids) by_inn-IsPreorder _))))

      -- Where ids are compared by a total preorder, a line and a plan that make a candidate pair are
      -- suggested, or a suggestion that is no worse shares the line or the plan.
      pub planned_taken-no_better :
          (lines : List PlannedMatchLine) (plans : List PlannedMatchPlan) (l : PlannedMatchLine)
          (p : PlannedMatchPlan) (c : PlannedCandidate)
          → Some (λ x. x ≡ l) lines
          → Some (λ x. x ≡ p) plans
          → planned_candidate window_days l p ≡ some c
          → Some
              (Prevents planned_shares (by_inn compare_ids) c)
              (planned_taken compare_ids lines plans window_days)
      planned_taken-no_better lines plans l p c ml mp e =
          all_at _ _ p (all_at _ _ l (All-prevented lines plans) ml) mp c e
