-- ===== src/Tax/Classify.antt =====
-- The class of an operation for the tax (apps/api/src/reports/ausn-classify.ts, and the group of the
-- category in apps/api/src/reports/ausn-tax.ts).
use construct_fin.Prelude.{ℕ, Bool, true, false, ◌&&◌, Option, none, some, ℤ, if◌then◌else◌}

pub data TxType : Type 0 where
  income expense : TxType

pub data TransactionKind : Type 0 where
  order_payment order_refund purchase supplier_refund salary fixed_cost variable_cost :
      TransactionKind
  cogs write_off transfer_in transfer_out capital_in capital_out tax non_op other : TransactionKind

pub data AusnMark : Type 0 where
  mark_income mark_expense mark_not_counted : AusnMark

pub data AusnClass : Type 0 where
  income_plus income_minus expense_plus expense_minus not_counted : AusnClass

pub data CategoryBucket : Type 0 where
  revenue bucket_cogs purchases fixed variable bucket_tax capital bucket_other : CategoryBucket

pub data AccountType : Type 0 where
  cash bank account_other : AccountType

pub record AusnTx : Type 0 where
  pub tx_type : TxType
  pub kind : TransactionKind
  pub ausn_mark : Option AusnMark
  pub amount : ℤ
  pub date : ℕ
  pub category_bucket : Option CategoryBucket
  pub account_type : Option AccountType

abbrev pub by_sign : TxType → AusnClass
by_sign income = income_plus
by_sign expense = expense_plus

-- The `switch` of `classifyAusn`.
abbrev pub by_kind : TxType → TransactionKind → AusnClass
by_kind t order_payment = income_plus
by_kind t order_refund = income_minus
by_kind t purchase = expense_plus
by_kind t supplier_refund = expense_minus
by_kind t salary = expense_plus
by_kind t fixed_cost = expense_plus
by_kind t variable_cost = expense_plus
by_kind t cogs = not_counted
by_kind t write_off = not_counted
by_kind t transfer_in = not_counted
by_kind t transfer_out = not_counted
by_kind t capital_in = not_counted
by_kind t capital_out = not_counted
by_kind t tax = not_counted
by_kind t non_op = by_sign t
by_kind t other = by_sign t

-- `classifyAusn`: the mark of the bank or of the owner before the kind.
unfoldable pub classify_ausn : AusnTx → AusnClass
classify_ausn tx = elim tx.ausn_mark [
  | none ↦ by_kind tx.tx_type tx.kind
  | some m ↦ elim m [
    | mark_income ↦ income_plus
    | mark_expense ↦ expense_plus
    | mark_not_counted ↦ not_counted
  ]
]

abbrev pub is_cash : Option AccountType → Bool
is_cash none = false
is_cash (some cash) = true
is_cash (some bank) = false
is_cash (some account_other) = false

-- OTHER and NON_OP.
abbrev pub is_general : TransactionKind → Bool
is_general order_payment = false
is_general order_refund = false
is_general purchase = false
is_general supplier_refund = false
is_general salary = false
is_general fixed_cost = false
is_general variable_cost = false
is_general cogs = false
is_general write_off = false
is_general transfer_in = false
is_general transfer_out = false
is_general capital_in = false
is_general capital_out = false
is_general tax = false
is_general non_op = true
is_general other = true

-- The group of the category, where the kind says nothing.
abbrev pub by_bucket : AusnTx → CategoryBucket → AusnClass
by_bucket tx revenue = classify_ausn tx
by_bucket tx bucket_cogs = classify_ausn tx
by_bucket tx purchases = elim tx.tx_type [ income ↦ expense_minus | expense ↦ classify_ausn tx ]
by_bucket tx fixed = classify_ausn tx
by_bucket tx variable = classify_ausn tx
by_bucket tx bucket_tax = not_counted
by_bucket tx capital = not_counted
by_bucket tx bucket_other = classify_ausn tx

abbrev pub is_unmarked : Option AusnMark → Bool
is_unmarked none = true
is_unmarked (some m) = false

unfoldable pub classify_ausn_with_bucket : AusnTx → AusnClass
unfolding classify_ausn
classify_ausn_with_bucket tx =
    if is_cash tx.account_type
    then not_counted
    else if is_unmarked tx.ausn_mark && is_general tx.kind
    then elim tx.category_bucket [ none ↦ classify_ausn tx | some b ↦ by_bucket tx b ]
    else classify_ausn tx
