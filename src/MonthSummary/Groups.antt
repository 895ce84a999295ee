-- ===== src/MonthSummary/Groups.antt =====
-- apps/api/src/reports/month-summary.calc.ts: the expenses of a month by groups (`groupExpenses`), and two
-- months side by side (`compareGroups`). The lists of categories and of kinds that a group names for the
-- links to its operations are left out. `normalize` is `trim` with `toLocaleLowerCase`, and `locale` is
-- `localeCompare`; both are parameters.
use construct_fin.Prelude.{
  ℕ, Bool, true, false, not, ◌&&◌, ◌||◌, Option, none, some, List, [], ◌∷◌, ◌++◌, map, ℤ, pos, ◌+ℤ◌,
  ◌-ℤ◌, eqb_ℤ, ◌==◌, if◌then◌else◌, find, keep, any,
}
use construct_fin.Text.{Text, same_text}
use construct_fin.Sorting.{Comparator, ◌or_else◌, sort}
use construct_fin.Tax.Classify.{
  CategoryBucket, revenue, bucket_cogs, purchases, fixed, variable, bucket_tax, capital,
  bucket_other, TransactionKind,
}
use construct_fin.MonthSummary.Roots.{CategoryNode, alive_of, root_of}

-- `EXPENSE_GROUP_BUCKETS`
abbrev pub is_expense_bucket : CategoryBucket → Bool
is_expense_bucket revenue = false
is_expense_bucket bucket_cogs = false
is_expense_bucket purchases = false
is_expense_bucket fixed = true
is_expense_bucket variable = true
is_expense_bucket bucket_tax = true
is_expense_bucket capital = false
is_expense_bucket bucket_other = true

pub data SystemGroup : Type 0 where
  salary installments tax_group other_group : SystemGroup

-- `SYSTEM_GROUP_NAME`: the Russian names, by code units.
abbrev pub system_name : SystemGroup → Text
system_name salary = 1047 ∷ 1072 ∷ 1088 ∷ 1087 ∷ 1083 ∷ 1072 ∷ 1090 ∷ 1072 ∷ []
system_name installments =
    1050 ∷ 1086 ∷ 1084 ∷ 1080 ∷ 1089 ∷ 1089 ∷ 1080 ∷ 1080 ∷ 32 ∷ 1088 ∷ 1072 ∷ 1089 ∷ 1089 ∷ 1088
    ∷ 1086 ∷ 1095 ∷ 1077 ∷ 1082 ∷ []
system_name tax_group = 1053 ∷ 1072 ∷ 1083 ∷ 1086 ∷ 1075 ∷ []
system_name other_group = 1055 ∷ 1088 ∷ 1086 ∷ 1095 ∷ 1077 ∷ 1077 ∷ []

unfoldable pub system_group_of : TransactionKind → SystemGroup
system_group_of TransactionKind.salary = salary
system_group_of TransactionKind.variable_cost = installments
system_group_of TransactionKind.tax = tax_group
system_group_of TransactionKind.order_payment = other_group
system_group_of TransactionKind.order_refund = other_group
system_group_of TransactionKind.purchase = other_group
system_group_of TransactionKind.supplier_refund = other_group
system_group_of TransactionKind.fixed_cost = other_group
system_group_of TransactionKind.cogs = other_group
system_group_of TransactionKind.write_off = other_group
system_group_of TransactionKind.transfer_in = other_group
system_group_of TransactionKind.transfer_out = other_group
system_group_of TransactionKind.capital_in = other_group
system_group_of TransactionKind.capital_out = other_group
system_group_of TransactionKind.non_op = other_group
system_group_of TransactionKind.other = other_group

-- The key of a group: that of a root category, or a system group.
pub data GroupKey : Type 0 where
  root_key : ℕ → GroupKey
  system_key : SystemGroup → GroupKey

abbrev pub group_number : SystemGroup → ℕ
group_number salary = 0
group_number installments = 1
group_number tax_group = 2
group_number other_group = 3

abbrev pub same_key : GroupKey → GroupKey → Bool
same_key (root_key a) (root_key b) = a == b
same_key (root_key a) (system_key t) = false
same_key (system_key s) (root_key b) = false
same_key (system_key s) (system_key t) = group_number s == group_number t

pub record ExpenseLine : Type 0 where
  pub bucket : CategoryBucket
  pub category : Option ℕ
  pub kind : TransactionKind
  pub expense : ℤ

pub record ExpenseGroup : Type 0 where
  pub key : GroupKey
  pub name : Text
  pub amount : ℤ
  pub tax_accrual : Bool

-- `groupFor` with the addition that follows each call of it. A new group comes last.
unfoldable pub add_to : GroupKey → Text → ℤ → Bool → List ExpenseGroup → List ExpenseGroup
add_to key name v accrual [] =
    record { key = key; name = name; amount = pos 0 +ℤ v; tax_accrual = accrual } ∷ []
add_to key name v accrual (g ∷ gs) =
    let rest = add_to key name v accrual gs in
    if same_key g.key key
    then record g { amount = g.amount +ℤ v; tax_accrual = g.tax_accrual || accrual } ∷ gs
    else g ∷ rest

abbrev pub in_category :
    (CategoryNode → CategoryNode) → List CategoryNode → Option ℕ → Option CategoryNode
in_category root alive none = none
in_category root alive (some k) = elim (find (λ c. c.id == k) alive) [
  | none ↦ none
  | some c ↦ some (root c)
]

module _ (normalize : Text → Text) (categories : List CategoryNode) where
  abbrev pub root_in : CategoryNode → CategoryNode
  root_in c = root_of (alive_of categories) c

  -- `rootByName`: the first root of expenses with the name.
  abbrev pub root_by_name : Text → Option CategoryNode
  root_by_name name =
      find (λ r. r.is_expense && same_text (normalize r.name) (normalize name))
        (map root_in (alive_of categories))

  abbrev pub add_merged :
      Option CategoryNode → SystemGroup → ℤ → Bool → List ExpenseGroup → List ExpenseGroup
  add_merged (some r) sys v accrual gs = add_to (root_key r.id) r.name v accrual gs
  add_merged none sys v accrual gs = add_to (system_key sys) (system_name sys) v accrual gs

  -- `systemGroup`
  abbrev pub add_system : SystemGroup → ℤ → Bool → List ExpenseGroup → List ExpenseGroup
  add_system sys v accrual gs = add_merged (root_by_name (system_name sys)) sys v accrual gs

  abbrev pub add_expense : Option CategoryNode → ExpenseLine → List ExpenseGroup → List ExpenseGroup
  add_expense (some r) l gs = add_to (root_key r.id) r.name l.expense false gs
  add_expense none l gs = add_system (system_group_of l.kind) l.expense false gs

  -- One turn of the loop over the lines.
  unfoldable pub add_line : ExpenseLine → List ExpenseGroup → List ExpenseGroup
  unfolding add_to system_group_of
  add_line l gs =
      if not (is_expense_bucket l.bucket)
      then gs
      else if eqb_ℤ l.expense (pos 0)
      then gs
      else add_expense (in_category root_in (alive_of categories) l.category) l gs

  unfoldable pub add_lines : List ExpenseLine → List ExpenseGroup → List ExpenseGroup
  unfolding add_line
  add_lines [] gs = gs
  add_lines (l ∷ ls) gs = add_lines ls (add_line l gs)

  -- `groupExpenses`
  unfoldable pub group_expenses : List ExpenseLine → ℤ → List ExpenseGroup
  unfolding add_lines
  group_expenses lines tax =
      let groups = add_lines lines [] in
      if eqb_ℤ tax (pos 0) then groups else add_system tax_group tax true groups

pub record ComparedGroup : Type 0 where
  pub group : ExpenseGroup
  pub prev_amount : ℤ

abbrev pub amount_or_zero : Option ExpenseGroup → ℤ
amount_or_zero none = pos 0
amount_or_zero (some g) = g.amount

abbrev pub has_key : GroupKey → List ExpenseGroup → Bool
has_key k gs = any (λ g. same_key g.key k) gs

-- The comparator of `compareGroups`.
abbrev pub by_amounts : (Text → Text → ℤ) → Comparator ComparedGroup
by_amounts locale a b =
    (b.group.amount -ℤ a.group.amount)
    or_else (b.prev_amount -ℤ a.prev_amount)
    or_else locale a.group.name b.group.name

abbrev pub beside_prev : List ExpenseGroup → ExpenseGroup → ComparedGroup
beside_prev prev g = record {
  group = g;
  prev_amount = amount_or_zero (find (λ p. same_key p.key g.key) prev);
}

abbrev pub only_prev : ExpenseGroup → ComparedGroup
only_prev p = record {
  group = record { key = p.key; name = p.name; amount = pos 0; tax_accrual = false };
  prev_amount = p.amount;
}

unfoldable pub compare_groups :
    (Text → Text → ℤ) → List ExpenseGroup → List ExpenseGroup → List ComparedGroup
compare_groups locale current prev =
    sort (by_amounts locale) (
      map (beside_prev prev) current
      ++ map only_prev (keep (λ p. not (has_key p.key current)) prev))
