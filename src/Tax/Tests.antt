-- ===== src/Tax/Tests.antt =====
-- A month of operations, and its tax.
use construct_fin.Prelude.{ℕ, ◌≡◌, refl, Option, none, some, List, [], ◌∷◌, pos, ◌+ℤ◌, ◌-ℤ◌, ◌*ℤ◌}
use construct_fin.Decimal.{money}
use construct_fin.Decimal.Tests.{plain, plain-IsRounding}
use construct_fin.Calendar.{business_day, business_month, month_number, day_of_month}
use construct_fin.Tax.Classify.{
  order_payment, order_refund, purchase, TxType, income, expense, TransactionKind, other,
  CategoryBucket, bucket_tax, AccountType, bank, cash, AusnTx, classify_ausn,
  classify_ausn_with_bucket,
}
use construct_fin.Tax.Sums.{
  MonthSums, or_no_sums, get, count, add_tx, add_all, ausn_sums_by_month, ausn_month_tax,
  inferred_tax_period,
}
use construct_fin.Tax.Bounds.{Within, ausn_month_tax-Within}
use construct_fin.Tax.Months.{
  over_month, income_by, expense_by, income_tick, expense_tick, ausn_sums_by_month_outcome,
}

abbrev tx : TxType → TransactionKind → ℕ → Option CategoryBucket → AccountType → AusnTx
tx t k amount bucket account = record {
  tx_type = t;
  kind = k;
  ausn_mark = none;
  amount = pos amount;
  date = 1735671600000;
  category_bucket = bucket;
  account_type = some account;
}

-- A payment of 1000, a refund of 100, a purchase of 300, taxes paid by the bank, and cash.
abbrev january : List AusnTx
january =
    tx income order_payment 100000 none bank
    ∷ tx expense order_refund 10000 none bank
    ∷ tx expense purchase 30000 none bank
    ∷ tx expense other 5000 (some bucket_tax) bank
    ∷ tx income order_payment 77700 none cash
    ∷ []

abbrev sums : MonthSums
sums = record { income = pos 90000; expense = pos 30000; income_count = 2; expense_count = 1 }

summed : get 24300 (ausn_sums_by_month january) ≡ some sums
unfolding ausn_sums_by_month add_all add_tx count classify_ausn_with_bucket classify_ausn
    business_month business_day month_number ◌+ℤ◌ ◌-ℤ◌
summed = refl

taxed : (ausn_month_tax plain (some sums)).tax_due ≡ pos 12000
unfolding ausn_month_tax money ◌-ℤ◌ ◌*ℤ◌
taxed = refl

-- 25.08.2025 pays for July, and 10.09.2025 for July as well.
paid_in_august : inferred_tax_period 1756105200000 ≡ 24306
unfolding inferred_tax_period business_day month_number day_of_month
paid_in_august = refl

paid_in_september : inferred_tax_period 1757487600000 ≡ 24306
unfolding inferred_tax_period business_day month_number day_of_month
paid_in_september = refl

ausn_month_tax-Within_example : Within (some sums) (ausn_month_tax plain (some sums))
ausn_month_tax-Within_example = ausn_month_tax-Within plain plain-IsRounding (some sums)

ausn_sums_by_month_outcome_example :
    let s = or_no_sums (get 24300 (ausn_sums_by_month january)) in
    (s.income ≡ over_month income_by 24300 january)
    × (s.expense ≡ over_month expense_by 24300 january)
    × (pos s.income_count ≡ over_month income_tick 24300 january)
    × (pos s.expense_count ≡ over_month expense_tick 24300 january)
ausn_sums_by_month_outcome_example = ausn_sums_by_month_outcome 24300 january
