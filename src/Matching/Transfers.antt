-- ===== src/Matching/Transfers.antt =====
-- apps/api/src/integrations/transfer-match.ts: transfers between own accounts among the lines of bank
-- statements. Amounts are in kopecks and dates in milliseconds; a gap in days is compared with a window
-- in days as the milliseconds of both. `localeCompare` on ids is a parameter.
pub mod Laws
use construct_fin.Prelude.{
  ℕ, ◌*◌, Bool, true, false, not, ◌||◌, Option, none, some, List, [], ◌∷◌, map, ℤ, pos, ◌-ℤ◌, ◌*ℤ◌,
  ltb_ℤ, eqb_ℤ, abs, ◌==◌, if◌then◌else◌, keep, has,
}
use construct_fin.Sorting.{Comparator, ◌or_else◌, sort}
use construct_fin.Sorting.Comparators.{by_key}
use construct_fin.Matching.{greedy, pairs}

pub data Direction : Type 0 where
  income expense : Direction

abbrev pub is_expense : Direction → Bool
is_expense income = false
is_expense expense = true

pub record MatchLine : Type 0 where
  pub id : ℕ
  pub account : ℕ
  pub date : ℤ
  pub amount : ℤ
  pub direction : Direction

pub data Confidence : Type 0 where
  exact with_fee : Confidence

pub record TransferPair : Type 0 where
  pub out : MatchLine
  pub into : MatchLine
  pub fee : ℤ
  pub confidence : Confidence

pub record Candidate : Type 0 where
  pub pair : TransferPair
  pub gap : ℤ

abbrev pub day_ms : ℕ
day_ms = 86400000

-- FEE_MAX_ABS; FEE_MAX_SHARE is a hundredth.
abbrev pub fee_max_abs : ℤ
fee_max_abs = pos 500000

-- `feeIfPlausible`
unfoldable pub fee_if_plausible : ℤ → ℤ → Option ℤ
fee_if_plausible out inc =
    let diff = out -ℤ inc in
    if eqb_ℤ out inc
    then some (pos 0)
    else if ltb_ℤ out inc
    then none
    else if ltb_ℤ fee_max_abs diff
    then none
    else if ltb_ℤ out (pos 100 *ℤ diff)
    then none
    else some diff

-- `daysApart`, in milliseconds.
abbrev pub apart : ℤ → ℤ → ℤ
apart a b = abs (a -ℤ b)

abbrev pub with_fee_rank : Candidate → ℤ
with_fee_rank c = elim c.pair.confidence [ exact ↦ pos 0 | with_fee ↦ pos 1 ]

abbrev pub of_fee : MatchLine → MatchLine → ℤ → Option ℤ → Option Candidate
of_fee out inc gap none = none
of_fee out inc gap (some fee) = some (record {
  pair = record {
    out = out;
    into = inc;
    fee = fee;
    confidence = if eqb_ℤ fee (pos 0) then exact else with_fee;
  };
  gap = gap;
})

-- The body of the nested loops.
unfoldable pub candidate : ℕ → MatchLine → MatchLine → Option Candidate
unfolding fee_if_plausible
candidate window_days out inc =
    if out.account == inc.account
    then none
    else if ltb_ℤ (pos (window_days * day_ms)) (apart out.date inc.date)
    then none
    else of_fee out inc (apart out.date inc.date) (fee_if_plausible out.amount inc.amount)

abbrev pub blocked : List ℕ → Candidate → Bool
blocked used c = has c.pair.out.id used || has c.pair.into.id used

abbrev pub add : Candidate → List ℕ → List ℕ
add c used = c.pair.into.id ∷ c.pair.out.id ∷ used

module _ (compare_ids : Comparator ℕ) where
  abbrev pub by_confidence : Comparator Candidate
  by_confidence a b =
      by_key with_fee_rank a b
      or_else (by_key (λ c. c.gap) a b or_else compare_ids a.pair.out.id b.pair.out.id)

  -- The candidates that are taken.
  unfoldable pub taken : List MatchLine → ℕ → List Candidate
  unfolding candidate
  taken lines window_days =
      let outs = keep (λ l. is_expense l.direction) lines in
      let ins = keep (λ l. not (is_expense l.direction)) lines in
      greedy blocked add [] (sort by_confidence (pairs (candidate window_days) outs ins))

  unfoldable pub match_transfer_pairs : List MatchLine → ℕ → List TransferPair
  unfolding taken
  match_transfer_pairs lines window_days = map (λ c. c.pair) (taken lines window_days)
