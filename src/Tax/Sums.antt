-- ===== src/Tax/Sums.antt =====
-- The sums of a month, its tax and what was paid of it (apps/api/src/reports/ausn-tax.ts).
use construct_fin.Prelude.{
  ℕ, suc, ◌-◌, Bool, true, false, Option, none, some, List, [], ◌∷◌, ℤ, pos, ◌+ℤ◌, ◌-ℤ◌, ◌*ℤ◌,
  max_ℤ, ltb, ◌==◌, if◌then◌else◌, has,
}
use construct_fin.Decimal.{Decimals, money}
use construct_fin.Calendar.{business_day, business_month, month_number, day_of_month}
use construct_fin.Tax.Classify.{
  AusnClass, AusnTx, TransactionKind, order_payment, order_refund, purchase, supplier_refund,
  salary, fixed_cost, variable_cost, capital_in, capital_out, classify_ausn_with_bucket, cogs,
  expense_minus, expense_plus, income_minus, income_plus, non_op, not_counted, other, tax,
  transfer_in, transfer_out, write_off,
}

pub record MonthSums : Type 0 where
  pub income : ℤ
  pub expense : ℤ
  pub income_count : ℕ
  pub expense_count : ℕ

abbrev pub no_sums : MonthSums
no_sums = record { income = pos 0; expense = pos 0; income_count = 0; expense_count = 0 }

abbrev pub or_no_sums : Option MonthSums → MonthSums
or_no_sums none = no_sums
or_no_sums (some s) = s

-- The `switch` of `ausnSumsByMonth`.
unfoldable pub count : AusnClass → ℤ → MonthSums → MonthSums
count income_plus amount s = record s {
  income = s.income +ℤ amount;
  income_count = suc s.income_count;
}
count income_minus amount s = record s {
  income = s.income -ℤ amount;
  income_count = suc s.income_count;
}
count expense_plus amount s = record s {
  expense = s.expense +ℤ amount;
  expense_count = suc s.expense_count;
}
count expense_minus amount s = record s {
  expense = s.expense -ℤ amount;
  expense_count = suc s.expense_count;
}
count not_counted amount s = s

-- A `Map` with months for keys.
abbrev pub get : {V : Type 0} → ℕ → List (ℕ × V) → Option V
get k [] = none
get k ((j, v) ∷ rest) = if j == k then some v else get k rest

abbrev pub set : {V : Type 0} → ℕ → V → List (ℕ × V) → List (ℕ × V)
set k v [] = (k, v) ∷ []
set k v ((j, w) ∷ rest) =
    let later = set k v rest in if j == k then (k, v) ∷ rest else (j, w) ∷ later

abbrev pub is_counted : AusnClass → Bool
is_counted income_plus = true
is_counted income_minus = true
is_counted expense_plus = true
is_counted expense_minus = true
is_counted not_counted = false

unfoldable pub add_tx : AusnTx → List (ℕ × MonthSums) → List (ℕ × MonthSums)
unfolding count classify_ausn_with_bucket business_month
add_tx tx by_month =
    let class = classify_ausn_with_bucket tx in
    let label = business_month tx.date in
    if is_counted class
    then set label (count class tx.amount (or_no_sums (get label by_month))) by_month
    else by_month

unfoldable pub add_all : List AusnTx → List (ℕ × MonthSums) → List (ℕ × MonthSums)
unfolding add_tx
add_all [] by_month = by_month
add_all (tx ∷ txs) by_month = add_all txs (add_tx tx by_month)

unfoldable pub ausn_sums_by_month : List AusnTx → List (ℕ × MonthSums)
unfolding add_all
ausn_sums_by_month txs = add_all txs []

pub record MonthTax : Type 0 where
  pub income : ℤ
  pub expense : ℤ
  pub base : ℤ
  pub tax_calc : ℤ
  pub tax_min : ℤ
  pub tax_due : ℤ

-- `ausnMonthTax`; the rates are 2/10 and 3/100.
unfoldable pub ausn_month_tax : Decimals → Option MonthSums → MonthTax
ausn_month_tax d sums =
    let income = money d 0 (max_ℤ ((or_no_sums sums).income) (pos 0)) in
    let expense = money d 0 (max_ℤ ((or_no_sums sums).expense) (pos 0)) in
    let base = money d 0 (max_ℤ (income -ℤ expense) (pos 0)) in
    let tax_calc = money d 1 (base *ℤ pos 2) in
    let tax_min = money d 2 (income *ℤ pos 3) in
    record {
      income = income;
      expense = expense;
      base = base;
      tax_calc = tax_calc;
      tax_min = tax_min;
      tax_due = money d 0 (max_ℤ tax_calc tax_min);
    }

pub record TaxPaymentRow : Type 0 where
  pub kind : TransactionKind
  pub tax_period : Option ℕ
  pub amount : ℤ
  pub date : ℕ

abbrev pub is_tax : TransactionKind → Bool
is_tax order_payment = false
is_tax order_refund = false
is_tax purchase = false
is_tax supplier_refund = false
is_tax salary = false
is_tax fixed_cost = false
is_tax variable_cost = false
is_tax cogs = false
is_tax write_off = false
is_tax transfer_in = false
is_tax transfer_out = false
is_tax capital_in = false
is_tax capital_out = false
is_tax tax = true
is_tax non_op = false
is_tax other = false

-- The number of the month before last before the 15th, and of the last month from then on.
unfoldable pub inferred_tax_period : ℕ → ℕ
inferred_tax_period paid_at =
    let day = business_day paid_at in
    month_number day - (if ltb (day_of_month day) 15 then 2 else 1)

abbrev pub or_inferred : ℕ → Option ℕ → ℕ
or_inferred date none = inferred_tax_period date
or_inferred date (some p) = p

abbrev pub period_of : TaxPaymentRow → Option ℕ
period_of r = if is_tax r.kind then r.tax_period else some (or_inferred r.date r.tax_period)

abbrev pub or_nothing : Option ℤ → ℤ
or_nothing none = pos 0
or_nothing (some a) = a

abbrev pub pay : List ℕ → ℤ → Option ℕ → List (ℕ × ℤ) → List (ℕ × ℤ)
pay labels amount none paid = paid
pay labels amount (some p) paid =
    if has p labels then set p (or_nothing (get p paid) +ℤ amount) paid else paid

unfoldable pub tax_paid_by_period : List ℕ → List TaxPaymentRow → List (ℕ × ℤ) → List (ℕ × ℤ)
unfolding inferred_tax_period
tax_paid_by_period labels [] paid = paid
tax_paid_by_period labels (r ∷ rows) paid =
    tax_paid_by_period labels rows (pay labels r.amount (period_of r) paid)
