-- ===== src/Matching/Tests.antt =====
-- Lines of two accounts, and planned payments.
use construct_fin.Prelude.{ℕ, ◌≡◌, refl, inl, inr, none, some, List, [], ◌∷◌, pos, ◌-ℤ◌, ◌*ℤ◌, All}
use construct_fin.Text.{digits_only}
use construct_fin.Sorting.{Comparator, sort, insert}
use construct_fin.Sorting.Comparators.{by_key, by_key-IsPreorder}
use construct_fin.Matching.{greedy}
use construct_fin.Matching.Greedy.{Some, Apart, Prevents}
use construct_fin.Matching.Transfers.{
  Direction, income, expense, is_expense, MatchLine, TransferPair, Candidate, fee_if_plausible,
  candidate, by_confidence, taken, match_transfer_pairs,
}
use construct_fin.Matching.Transfers.Laws.{
  shares, IsTransfer, match_transfer_pairs-IsTransfer, taken-Apart, taken-no_better,
}
use construct_fin.Matching.Planned.{
  PlannedMatchLine, PlannedMatchPlan, PlannedCandidate, suggest, planned_candidate, by_inn,
  planned_taken, match_planned_payments,
}
use construct_fin.Matching.Planned.Laws.{
  planned_shares, Fits, match_planned_payments-Fits, planned_taken-Apart, planned_taken-no_better,
}

abbrev by_number : Comparator ℕ
by_number = by_key (λ n. pos n)

abbrev line : ℕ → ℕ → ℕ → Direction → MatchLine
line id account amount direction = record {
  id = id;
  account = account;
  date = pos 0;
  amount = pos amount;
  direction = direction;
}

-- An expense of 1000, an income of 995 and one of 1000 elsewhere.
abbrev lines : List MatchLine
lines = line 1 10 100000 expense ∷ line 2 20 99500 income ∷ line 3 30 100000 income ∷ []

paired :
    match_transfer_pairs by_number lines 3
    ≡ record {
      out = line 1 10 100000 expense;
      into = line 3 30 100000 income;
      fee = pos 0;
      confidence = construct_fin.Matching.Transfers.exact;
    }
      ∷ []
unfolding match_transfer_pairs taken greedy sort insert candidate fee_if_plausible ◌-ℤ◌ ◌*ℤ◌
paired = refl

match_transfer_pairs-IsTransfer_example :
    All (IsTransfer 3) (match_transfer_pairs by_number lines 3)
match_transfer_pairs-IsTransfer_example = match_transfer_pairs-IsTransfer 3 by_number lines

taken-Apart_example : Apart shares (taken by_number lines 3)
taken-Apart_example = taken-Apart 3 by_number lines

abbrev best : Candidate
best = record {
  pair = record {
    out = line 1 10 100000 expense;
    into = line 3 30 100000 income;
    fee = pos 0;
    confidence = construct_fin.Matching.Transfers.exact;
  };
  gap = pos 0;
}

plausible : candidate 3 (line 1 10 100000 expense) (line 3 30 100000 income) ≡ some best
unfolding candidate fee_if_plausible ◌-ℤ◌ ◌*ℤ◌
plausible = refl

taken-no_better_example :
    Some (Prevents shares (by_confidence by_number) best) (taken by_number lines 3)
taken-no_better_example =
    taken-no_better 3 by_number (by_key-IsPreorder (λ n. pos n)) lines (line 1 10 100000 expense)
      (line 3 30 100000 income) best (inl refl) (inr (inr (inl refl))) refl refl plausible

abbrev rent : ℕ → ℕ → PlannedMatchLine
rent id amount = record {
  id = id;
  date = pos 0;
  amount = pos amount;
  counterparty_inn = some (49 ∷ []);
}

abbrev plan : ℕ → ℕ → PlannedMatchPlan
plan id amount = record {
  id = id;
  due_date = pos 86400000;
  amount = pos amount;
  counterparty_inn = none;
}

match_planned_payments-Fits_example :
    All
      (Fits 10)
      (match_planned_payments by_number (rent 1 5000 ∷ []) (plan 2 5000 ∷ plan 3 4900 ∷ []) 10)
match_planned_payments-Fits_example =
    match_planned_payments-Fits 10 by_number (rent 1 5000 ∷ []) (plan 2 5000 ∷ plan 3 4900 ∷ [])

planned_taken-Apart_example :
    Apart planned_shares
      (planned_taken by_number (rent 1 5000 ∷ []) (plan 2 5000 ∷ plan 3 4900 ∷ []) 10)
planned_taken-Apart_example =
    planned_taken-Apart 10 by_number (rent 1 5000 ∷ []) (plan 2 5000 ∷ plan 3 4900 ∷ [])

abbrev fitting : PlannedCandidate
fitting = suggest (rent 1 5000) (plan 2 5000)

fits : planned_candidate 10 (rent 1 5000) (plan 2 5000) ≡ some fitting
unfolding planned_candidate digits_only ◌-ℤ◌
fits = refl

planned_taken-no_better_example :
    Some
      (Prevents planned_shares (by_inn by_number) fitting)
      (planned_taken by_number (rent 1 5000 ∷ []) (plan 2 5000 ∷ plan 3 4900 ∷ []) 10)
planned_taken-no_better_example =
    planned_taken-no_better 10 by_number (by_key-IsPreorder (λ n. pos n)) (rent 1 5000 ∷ [])
      (plan 2 5000 ∷ plan 3 4900 ∷ []) (rent 1 5000) (plan 2 5000) fitting (inl refl) (inl refl)
      fits
