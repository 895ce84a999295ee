-- ===== src/Calendar.antt =====
-- Days and months of the business, which lives at UTC+5 (apps/api/src/reports/period.ts). A moment is
-- the milliseconds since 1970; those before are not modelled. The calendar behind `Date.UTC` and
-- `getUTCFullYear`, `getUTCMonth`, `getUTCDate` is the Gregorian one of the language, by days.
mod Tests
use construct_fin.Prelude.{
  ℕ, suc, ◌+◌, ◌-◌, ◌*◌, ◌/◌, ◌%◌, Bool, true, false, ltb, leb, if◌then◌else◌, ◌≡◌, inl, inr, arith,
  ltb→lt, lt→ltb, ltb→le, le→not_ltb, Bool-cases, ◌<◌, ◌≤◌,
}

abbrev pub day_ms : ℕ
day_ms = 86400000

-- OFFSET_MS
abbrev pub offset_ms : ℕ
offset_ms = 18000000

-- Years that begin in March: the day's number in its era of 400 years, its year there, and its number
-- in that year.
abbrev pub of_era : ℕ → ℕ
of_era day = (day + 719468) % 146097

abbrev pub year_of_era : ℕ → ℕ
year_of_era e = (e - e / 1460 + e / 36524 - e / 146096) / 365

abbrev pub day_of_year : ℕ → ℕ
day_of_year e = let y = year_of_era e in e - (365 * y + y / 4 - y / 100)

abbrev pub march_month : ℕ → ℕ
march_month e = (5 * day_of_year e + 2) / 153

-- The date, 1 to 31.
unfoldable pub day_of_month : ℕ → ℕ
day_of_month day = let e = of_era day in day_of_year e - (153 * march_month e + 2) / 5 + 1

-- The months since the year 0: twelve times the year, and the month from 0.
unfoldable pub month_number : ℕ → ℕ
month_number day =
    let e = of_era day in (year_of_era e + 400 * ((day + 719468) / 146097)) * 12 + march_month e + 2

-- `tzParts`: the day of a moment, by its number.
unfoldable pub business_day : ℕ → ℕ
business_day t = (t + offset_ms) / day_ms

-- `businessMonthLabel`
unfoldable pub business_month : ℕ → ℕ
unfolding month_number business_day
business_month t = month_number (business_day t)

-- `endOfDay`: the last millisecond of the business day of a moment.
unfoldable pub end_of_day : ℕ → ℕ
unfolding business_day
end_of_day t = business_day t * day_ms + (day_ms - 1) - offset_ms

-- `startOfDay`, where the day begins after 1970.
unfoldable pub start_of_day : ℕ → ℕ
unfolding business_day
start_of_day t = business_day t * day_ms - offset_ms

end_before : (t u : ℕ) → business_day t < business_day u → end_of_day t < u
unfolding end_of_day business_day
end_before t u h = omega arith

end_after : (t u : ℕ) → business_day u ≤ business_day t → u ≤ end_of_day t
unfolding end_of_day business_day
end_after t u h = omega arith

-- A moment is past the end of the day of another exactly where its day is a later one.
pub end_of_day_lt : (t u : ℕ) → ltb (end_of_day t) u ≡ ltb (business_day t) (business_day u)
end_of_day_lt t u = elim (Bool-cases (ltb (business_day t) (business_day u))) [
  | inl later ↦ rw later (lt→ltb _ _ (end_before t u (ltb→lt _ _ later)))
  | inr same ↦ rw same (le→not_ltb _ _ (end_after t u (ltb→le _ _ same)))
]
