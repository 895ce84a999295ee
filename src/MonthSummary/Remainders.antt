-- ===== src/MonthSummary/Remainders.antt =====
-- apps/api/src/reports/month-summary.calc.ts, `largestRemainder`: numbers are rounded to whole units so
-- that their sum is the target. The rounded quotient that the integer part starts from is a parameter,
-- `estimate`: what it is does not matter.
use construct_fin.Prelude.{
  ℕ, zero, suc, ◌-◌, ◌%◌, length, Option, none, some, List, [], ◌∷◌, map, ℤ, pos, negsuc, neg, ◌+ℤ◌,
  ◌-ℤ◌, ◌*ℤ◌, ltb_ℤ, leb_ℤ, abs, pos_part, if◌then◌else◌, sum_by,
}
use construct_fin.Sorting.{Comparator, ◌or_else◌, sort}

-- `while (f * den > num) f -= 1`, on fuel.
unfoldable pub lower : ℕ → ℤ → ℤ → ℤ → ℤ
lower zero num den f = f
lower (suc k) num den f =
    let rest = lower k num den (f -ℤ pos 1) in if ltb_ℤ num (f *ℤ den) then rest else f

-- `while ((f + 1) * den <= num) f += 1`, on fuel.
unfoldable pub lift : ℕ → ℤ → ℤ → ℤ → ℤ
lift zero num den f = f
lift (suc k) num den f =
    let rest = lift k num den (f +ℤ pos 1) in if leb_ℤ ((f +ℤ pos 1) *ℤ den) num then rest else f

-- By how much one number is above the other.
abbrev pub gap : ℤ → ℤ → ℕ
gap a b = pos_part (a -ℤ b)

pub record RemainderRow : Type 0 where
  pub index : ℕ
  pub num : ℤ
  pub whole : ℤ
  pub rem : ℤ

-- The order of `order`: the largest remainder first, then the larger number, then the earlier one.
abbrev pub by_remainder : Comparator RemainderRow
by_remainder a b =
    (b.rem -ℤ a.rem) or_else (abs b.num -ℤ abs a.num) or_else (pos a.index -ℤ pos b.index)

abbrev pub add_at : ℕ → ℤ → List ℤ → List ℤ
add_at i v [] = []
add_at zero v (x ∷ xs) = (x +ℤ v) ∷ xs
add_at (suc i) v (x ∷ xs) = x ∷ add_at i v xs

-- `order[k]`, where it is there.
abbrev pub place : List ℕ → ℕ → ℕ
place [] k = 0
place (i ∷ is) zero = i
place (i ∷ is) (suc k) = place is k

-- The two loops over `diff`.
unfoldable pub give : ℕ → ℕ → List ℕ → List ℤ → List ℤ
give zero k order out = out
give (suc diff) k order out =
    give diff (suc k) order (add_at (place order (k % length order)) (pos 1) out)

unfoldable pub take_back : ℕ → ℕ → List ℕ → List ℤ → List ℤ
take_back zero k order out = out
take_back (suc diff) k order out =
    take_back diff (suc k) order
      (add_at (place order (length order - 1 - k % length order)) (neg (pos 1)) out)

abbrev pub settle_diff : ℤ → List ℕ → List ℤ → List ℤ
settle_diff (pos n) order out = give n 0 order out
settle_diff (negsuc n) order out = take_back (suc n) 0 order out

module _ (estimate : ℤ → ℤ → ℤ) where
  -- The integer part of a quotient, from the estimate.
  unfoldable pub whole_part : ℤ → ℤ → ℤ
  unfolding lower lift
  whole_part num den =
      let est = estimate num den in
      let low = lower (gap (est *ℤ den) num) num den est in lift (gap num (low *ℤ den)) num den low

  unfoldable pub remainder_rows : ℕ → List ℤ → ℤ → List RemainderRow
  unfolding whole_part
  remainder_rows i [] den = []
  remainder_rows i (num ∷ nums) den =
      let whole = whole_part num den in
      record { index = i; num = num; whole = whole; rem = num -ℤ whole *ℤ den }
      ∷ remainder_rows (suc i) nums den

  unfoldable pub spread : List ℤ → ℤ → ℤ → List ℤ
  unfolding remainder_rows give take_back
  spread nums target den =
      let rows = remainder_rows 0 nums den in
      let floors = map (λ r. r.whole) rows in
      let order = map (λ r. r.index) (sort by_remainder rows) in
      settle_diff (target -ℤ sum_by (λ f. f) floors) order floors

  -- `none` is the exception on a denominator that is not above 0.
  unfoldable pub largest_remainder : List ℤ → ℤ → ℤ → Option (List ℤ)
  unfolding spread
  largest_remainder [] target den = if ltb_ℤ (pos 0) den then some [] else none
  largest_remainder (num ∷ nums) target den =
      if ltb_ℤ (pos 0) den then some (spread (num ∷ nums) target den) else none
