-- ===== src/MonthSummary/Months.antt =====
-- apps/api/src/reports/month-summary.calc.ts, `monthParts` and `shiftMonth` on texts `YYYY-MM`. The
-- digits of a number are written with the number itself as fuel: a tenth of it is left each round.
use construct_fin.Prelude.{
  Bool, ℕ, zero, suc, ◌+◌, ◌-◌, ◌*◌, ◌/◌, ◌%◌, ◌&&◌, ◌||◌, true, false, Option, none, some, [], ◌∷◌,
  ◌++◌, ℤ, pos, negsuc, ◌+ℤ◌, ◌-ℤ◌, ◌*ℤ◌, ◌==◌, ltb, leb, if◌then◌else◌,
}
use construct_fin.Text.{Text, is_digit}

pub record Month : Type 0 where
  pub year : ℤ
  pub number : ℤ

-- `0[1-9]|1[0-2]`
abbrev pub is_month_number : ℕ → ℕ → Bool
is_month_number e f = e == 48 && (leb 49 f && leb f 57) || e == 49 && (leb 48 f && leb f 50)

-- `MONTH_RE`, and the numbers in its groups; `none` is the error that `monthParts` throws.
unfoldable pub month_parts : Text → Option Month
month_parts (a ∷ b ∷ c ∷ d ∷ h ∷ e ∷ f ∷ []) =
    if is_digit a
      && (is_digit b && (is_digit c && (is_digit d && (h == 45 && is_month_number e f))))
    then some (record {
      year = pos ((a - 48) * 1000 + ((b - 48) * 100 + ((c - 48) * 10 + (d - 48))));
      number = pos ((e - 48) * 10 + (f - 48));
    })
    else none
month_parts t = none

unfoldable pub digits : ℕ → ℕ → Text
digits zero n = (48 + n) ∷ []
digits (suc fuel) n = elim (ltb n 10) [
  | true ↦ (48 + n) ∷ []
  | false ↦ digits fuel (n / 10) ++ (48 + n % 10) ∷ []
]

-- `String` of an integer.
unfoldable pub decimal : ℤ → Text
unfolding digits
decimal (pos n) = digits n n
decimal (negsuc n) = 45 ∷ digits (suc n) (suc n)

-- `padStart(2, '0')`
abbrev pub pad_two : Text → Text
pad_two [] = 48 ∷ 48 ∷ []
pad_two (c ∷ []) = 48 ∷ c ∷ []
pad_two (c ∷ d ∷ t) = c ∷ d ∷ t

-- `Math.floor(idx / 12)`
abbrev pub floor_12 : ℤ → ℤ
floor_12 (pos n) = pos (n / 12)
floor_12 (negsuc n) = negsuc (n / 12)

abbrev pub month_index : Month → ℤ
month_index m = m.year *ℤ pos 12 +ℤ (m.number -ℤ pos 1)

abbrev pub month_at : ℤ → Month
month_at idx = record { year = floor_12 idx; number = idx -ℤ floor_12 idx *ℤ pos 12 +ℤ pos 1 }

unfoldable pub month_text : Month → Text
unfolding decimal
month_text m = decimal m.year ++ 45 ∷ pad_two (decimal m.number)

abbrev pub shift_parts : Option Month → ℤ → Option Text
shift_parts none delta = none
shift_parts (some m) delta = some (month_text (month_at (month_index m +ℤ delta)))

unfoldable pub shift_month : Text → ℤ → Option Text
unfolding month_parts month_text
shift_month t delta = shift_parts (month_parts t) delta
