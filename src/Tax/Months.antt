-- ===== src/Tax/Months.antt =====
-- The sums by month of apps/api/src/reports/ausn-tax.ts are those of the counted operations of the
-- month, each with its sign.
use construct_fin.Prelude.{
  ℕ, ◌≡◌, sym, ◌∙◌, inl, inr, Bool, false, some, List, [], ◌∷◌, arith, ℤ, pos, neg, ◌+ℤ◌, ◌==◌,
  if◌then◌else◌, sum_by, Bool-cases, int_laws, +ℤ_zero, +ℤ_assoc, zero_+ℤ,
}
use construct_fin.Calendar.{business_month}
use construct_fin.Tax.Classify.{
  AusnTx, AusnClass, income_plus, income_minus, expense_plus, expense_minus, not_counted,
  classify_ausn_with_bucket,
}
use construct_fin.Tax.Sums.{
  MonthSums, no_sums, or_no_sums, count, get, set, is_counted, add_tx, add_all, ausn_sums_by_month,
}

-- What an operation of a class adds to the income and to the expense of its month.
abbrev pub income_by : AusnClass → ℤ → ℤ
income_by income_plus a = a
income_by income_minus a = neg a
income_by expense_plus a = pos 0
income_by expense_minus a = pos 0
income_by not_counted a = pos 0

abbrev pub expense_by : AusnClass → ℤ → ℤ
expense_by income_plus a = pos 0
expense_by income_minus a = pos 0
expense_by expense_plus a = a
expense_by expense_minus a = neg a
expense_by not_counted a = pos 0

abbrev pub in_month : ℕ → AusnTx → Bool
unfolding business_month
in_month m tx = business_month tx.date == m

get-set :
    {V : Type 0} (k j : ℕ) (v : V) (t : List (ℕ × V))
    → get k (set j v t) ≡ (if j == k then some v else get k t)
get-set k j v [] = ground arith
get-set k j v ((i, w) ∷ t) = ground (arith, get-set k j v t)

abbrev pub month_of : ℕ → List (ℕ × MonthSums) → MonthSums
month_of m t = or_no_sums (get m t)

written :
    (f : MonthSums → MonthSums) (label m : ℕ) (t : List (ℕ × MonthSums))
    → month_of m (set label (f (month_of label t)) t)
      ≡ (if label == m then f (month_of m t) else month_of m t)
written f label m t = elim (Bool-cases (label == m)) [
  | inl here ↦
      let same : label ≡ m = ground (arith, here) in
      rw (get-set m label (f (month_of label t)) t, here, same)
  | inr away ↦ rw (get-set m label (f (month_of label t)) t, away)
]

-- What an operation of a class adds to the counts of its month.
abbrev pub income_tick : AusnClass → ℤ → ℤ
income_tick income_plus a = pos 1
income_tick income_minus a = pos 1
income_tick expense_plus a = pos 0
income_tick expense_minus a = pos 0
income_tick not_counted a = pos 0

abbrev pub expense_tick : AusnClass → ℤ → ℤ
expense_tick income_plus a = pos 0
expense_tick income_minus a = pos 0
expense_tick expense_plus a = pos 1
expense_tick expense_minus a = pos 1
expense_tick not_counted a = pos 0

-- Σ over the operations of a month, by their class.
abbrev pub over_month : (AusnClass → ℤ → ℤ) → ℕ → List AusnTx → ℤ
unfolding classify_ausn_with_bucket business_month
over_month by m txs =
    sum_by (λ tx. if in_month m tx then by (classify_ausn_with_bucket tx) tx.amount else pos 0) txs

cancel : (x y : ℤ) → x ≡ x +ℤ y → y ≡ pos 0
unfolding ◌+ℤ◌
cancel x y e = ground (arith, e)

-- A part of the sums that grows by what is counted.
module _ (part : MonthSums → ℤ) (by : AusnClass → ℤ → ℤ) where
  abbrev Grows : Type 0
  Grows = (c : AusnClass) (a : ℤ) (s : MonthSums) → part (count c a s) ≡ part s +ℤ by c a

  module _ (grows : Grows) where
    not_counted_zero : (c : AusnClass) (a : ℤ) → is_counted c ≡ false → by c a ≡ pos 0
    unfolding count
    not_counted_zero income_plus a e = cc
    not_counted_zero income_minus a e = cc
    not_counted_zero expense_plus a e = cc
    not_counted_zero expense_minus a e = cc
    not_counted_zero not_counted a e =
        cancel (part no_sums) (by not_counted a) (grows not_counted a no_sums)

    one_more :
        (c : AusnClass) (a : ℤ) (label m : ℕ) (t : List (ℕ × MonthSums))
        → part (month_of m (if is_counted c then set label (count c a (month_of label t)) t else t))
          ≡ part (month_of m t) +ℤ (if label == m then by c a else pos 0)
    one_more c a label m t = elim (Bool-cases (is_counted c)) [
      | inr out ↦ elim (Bool-cases (label == m)) [
        | inl here ↦ rw (out, here, not_counted_zero c a out) (sym (+ℤ_zero _))
        | inr away ↦ rw (out, away) (sym (+ℤ_zero _))
      ]
      | inl counted ↦ elim (Bool-cases (label == m)) [
        | inl here ↦ rw (counted, written (count c a) label m t, here) (grows c a (month_of m t))
        | inr away ↦ rw (counted, written (count c a) label m t, away) (sym (+ℤ_zero _))
      ]
    ]

    all_more :
        (m : ℕ) (txs : List AusnTx) (t : List (ℕ × MonthSums))
        → part (month_of m (add_all txs t)) ≡ part (month_of m t) +ℤ over_month by m txs
    unfolding add_all add_tx
    all_more m [] t = sym (+ℤ_zero _)
    all_more m (tx ∷ txs) t =
        all_more m txs (add_tx tx t)
        ∙ rw (one_more (classify_ausn_with_bucket tx) tx.amount (business_month tx.date) m t)
            (+ℤ_assoc _ _ _)

income_grows : Grows (λ s. s.income) income_by
unfolding count
income_grows income_plus a s = omega int_laws
income_grows income_minus a s = omega int_laws
income_grows expense_plus a s = omega int_laws
income_grows expense_minus a s = omega int_laws
income_grows not_counted a s = omega int_laws

expense_grows : Grows (λ s. s.expense) expense_by
unfolding count
expense_grows income_plus a s = omega int_laws
expense_grows income_minus a s = omega int_laws
expense_grows expense_plus a s = omega int_laws
expense_grows expense_minus a s = omega int_laws
expense_grows not_counted a s = omega int_laws

income_ticks : Grows (λ s. pos s.income_count) income_tick
unfolding count
income_ticks income_plus a s = omega int_laws
income_ticks income_minus a s = omega int_laws
income_ticks expense_plus a s = omega int_laws
income_ticks expense_minus a s = omega int_laws
income_ticks not_counted a s = omega int_laws

expense_ticks : Grows (λ s. pos s.expense_count) expense_tick
unfolding count
expense_ticks income_plus a s = omega int_laws
expense_ticks income_minus a s = omega int_laws
expense_ticks expense_plus a s = omega int_laws
expense_ticks expense_minus a s = omega int_laws
expense_ticks not_counted a s = omega int_laws

-- The income and the expense of a month are the signed sums, and its counts the numbers, of the
-- operations of that month that are counted.
pub ausn_sums_by_month_outcome :
    (m : ℕ) (txs : List AusnTx)
    → let s = or_no_sums (get m (ausn_sums_by_month txs)) in
      (s.income ≡ over_month income_by m txs)
      × (s.expense ≡ over_month expense_by m txs)
      × (pos s.income_count ≡ over_month income_tick m txs)
      × (pos s.expense_count ≡ over_month expense_tick m txs)
unfolding ausn_sums_by_month
ausn_sums_by_month_outcome m txs = (
  all_more (λ s. s.income) income_by income_grows m txs [] ∙ zero_+ℤ _,
  all_more (λ s. s.expense) expense_by expense_grows m txs [] ∙ zero_+ℤ _,
  all_more (λ s. pos s.income_count) income_tick income_ticks m txs [] ∙ zero_+ℤ _,
  all_more (λ s. pos s.expense_count) expense_tick expense_ticks m txs [] ∙ zero_+ℤ _,
)
