-- ===== src/Calendar/Tests.antt =====
-- Days of the business at the turn of a day and of a year.
use construct_fin.Prelude.{ℕ, ◌*◌, ◌≡◌, refl, ltb}
use construct_fin.Calendar.{
  business_day, business_month, day_of_month, month_number, end_of_day, end_of_day_lt,
}

-- 31.12.2024, 19:00 UTC is the first midnight of 2025 at UTC+5.
abbrev new_year : ℕ
new_year = 1735671600000

new_month : business_month new_year ≡ 2025 * 12
unfolding business_month business_day month_number
new_month = refl

new_date : day_of_month (business_day new_year) ≡ 1
unfolding business_day day_of_month
new_date = refl

day_before : end_of_day 1735671599999 ≡ 1735671599999
unfolding end_of_day
day_before = refl

end_of_day_lt_example :
    ltb (end_of_day 1735671599999) new_year
    ≡ ltb (business_day 1735671599999) (business_day new_year)
end_of_day_lt_example = end_of_day_lt 1735671599999 new_year
