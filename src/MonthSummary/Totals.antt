-- ===== src/MonthSummary/Totals.antt =====
-- The groups of a month's expenses (apps/api/src/reports/month-summary.calc.ts: `groupExpenses`,
-- `compareGroups`) add up, and no two have one key.
use construct_fin.Prelude.{
  ℕ, ◌≡◌, refl, sym, ◌∙◌, ap, inl, inr, Bool, true, false, Option, none, some, List, [], ◌∷◌, arith,
  int_laws, ℤ, pos, ◌+ℤ◌, eqb_ℤ, ◌==◌, if◌then◌else◌, sum_by, All, Bool-cases, +ℤ_zero,
}
use construct_fin.Text.{Text}
use construct_fin.MonthSummary.Roots.{CategoryNode, alive_of}
use construct_fin.MonthSummary.Groups.{
  is_expense_bucket, SystemGroup, tax_group, system_name, system_group_of, GroupKey, root_key,
  system_key, group_number, same_key, ExpenseLine, ExpenseGroup, add_to, in_category, root_in,
  add_merged, add_expense, add_line, add_lines, group_expenses,
}

abbrev pub total_amount : List ExpenseGroup → ℤ
total_amount gs = sum_by (λ g. g.amount) gs

-- What a line adds to the expenses of the month.
abbrev pub counted : ExpenseLine → ℤ
counted l = if is_expense_bucket l.bucket then l.expense else pos 0

add_to-total :
    (key : GroupKey) (name : Text) (v : ℤ) (accrual : Bool) (gs : List ExpenseGroup)
    → total_amount (add_to key name v accrual gs) ≡ total_amount gs +ℤ v
unfolding add_to
add_to-total key name v accrual [] = omega int_laws
add_to-total key name v accrual (g ∷ gs) = elim (Bool-cases (same_key g.key key)) [
  | inl here ↦ rw here (omega int_laws)
  | inr away ↦ rw (away, add_to-total key name v accrual gs) (omega int_laws)
]

-- No two groups have one key.
abbrev pub DistinctKeys : List ExpenseGroup → Type 0
DistinctKeys [] = Unit
DistinctKeys (g ∷ gs) = All (λ h. same_key h.key g.key ≡ false) gs × DistinctKeys gs

eq_sym : (a b : ℕ) → (a == b) ≡ (b == a)
eq_sym a b = ground arith

pub same_key_sym : (k j : GroupKey) → same_key k j ≡ same_key j k
same_key_sym (root_key a) (root_key b) = eq_sym a b
same_key_sym (root_key a) (system_key t) = refl
same_key_sym (system_key s) (root_key b) = refl
same_key_sym (system_key s) (system_key t) = eq_sym (group_number s) (group_number t)

fresh_key :
    (k key : GroupKey) (name : Text) (v : ℤ) (accrual : Bool) (gs : List ExpenseGroup)
    → same_key key k ≡ false
    → All (λ h. same_key h.key k ≡ false) gs
    → All (λ h. same_key h.key k ≡ false) (add_to key name v accrual gs)
unfolding add_to
fresh_key k key name v accrual [] e h = (e, tt)
fresh_key k key name v accrual (g ∷ gs) e (h, hs) = elim (Bool-cases (same_key g.key key)) [
  | inl here ↦ rw here (h, hs)
  | inr away ↦ rw away (h, fresh_key k key name v accrual gs e hs)
]

add_to-DistinctKeys :
    (key : GroupKey) (name : Text) (v : ℤ) (accrual : Bool) (gs : List ExpenseGroup)
    → DistinctKeys gs
    → DistinctKeys (add_to key name v accrual gs)
unfolding add_to
add_to-DistinctKeys key name v accrual [] h = (tt, tt)
add_to-DistinctKeys key name v accrual (g ∷ gs) (fresh, h) =
    elim (Bool-cases (same_key g.key key)) [
      | inl here ↦ rw here (fresh, h)
      | inr away ↦ rw away (
        fresh_key g.key key name v accrual gs (same_key_sym key g.key ∙ away) fresh,
        add_to-DistinctKeys key name v accrual gs h,
      )
    ]

-- The groups hold `total`, and no two have one key.
abbrev pub GroupsOf : ℤ → List ExpenseGroup → Type 0
GroupsOf total gs = (total_amount gs ≡ total) × DistinctKeys gs

added :
    (key : GroupKey) (name : Text) (v : ℤ) (accrual : Bool) (total : ℤ) (gs : List ExpenseGroup)
    → GroupsOf total gs
    → GroupsOf (total +ℤ v) (add_to key name v accrual gs)
added key name v accrual total gs (t, h) = (
  add_to-total key name v accrual gs ∙ ap (λ x. x +ℤ v) t,
  add_to-DistinctKeys key name v accrual gs h,
)

module _ (normalize : Text → Text) (categories : List CategoryNode) where
  merged :
      (r : Option CategoryNode) (sys : SystemGroup) (v : ℤ) (accrual : Bool) (total : ℤ)
      (gs : List ExpenseGroup)
      → GroupsOf total gs
      → GroupsOf (total +ℤ v) (add_merged normalize categories r sys v accrual gs)
  merged (some r) sys v accrual total gs h = added (root_key r.id) r.name v accrual total gs h
  merged none sys v accrual total gs h =
      added (system_key sys) (system_name sys) v accrual total gs h

  expense :
      (r : Option CategoryNode) (l : ExpenseLine) (total : ℤ) (gs : List ExpenseGroup)
      → GroupsOf total gs
      → GroupsOf (total +ℤ l.expense) (add_expense normalize categories r l gs)
  expense (some r) l total gs h = added (root_key r.id) r.name l.expense false total gs h
  expense none l total gs h = merged _ (system_group_of l.kind) l.expense false total gs h

  line :
      (l : ExpenseLine) (total : ℤ) (gs : List ExpenseGroup)
      → GroupsOf total gs
      → GroupsOf (total +ℤ counted l) (add_line normalize categories l gs)
  unfolding add_line
  line l total gs h = elim (Bool-cases (is_expense_bucket l.bucket)) [
    | inr out ↦ rw out (h.0 ∙ sym (+ℤ_zero total), h.1)
    | inl counts ↦ elim (Bool-cases (eqb_ℤ l.expense (pos 0))) [
      | inl nothing ↦
          let none_spent : l.expense ≡ pos 0 = ground (arith, nothing) in
          rw (counts, nothing) (h.0 ∙ sym (ap (λ v. total +ℤ v) none_spent ∙ +ℤ_zero total), h.1)
      | inr something ↦
          rw (counts, something)
            (expense (in_category (root_in normalize categories) (alive_of categories) l.category) l
              total gs h)
    ]
  ]

  lines_in :
      (ls : List ExpenseLine) (total : ℤ) (gs : List ExpenseGroup)
      → GroupsOf total gs
      → GroupsOf (total +ℤ sum_by counted ls) (add_lines normalize categories ls gs)
  unfolding add_lines
  lines_in [] total gs h = (h.0 ∙ sym (+ℤ_zero total), h.1)
  lines_in (l ∷ ls) total gs h =
      let rest =
        lines_in ls (total +ℤ counted l) (add_line normalize categories l gs) (line l total gs h) in
      (rest.0 ∙ omega int_laws, rest.1)

  -- The groups of the expenses of a month add up to the expenses of the lines in the buckets of expenses
  -- and the accrued tax, and no two of them have one key, whatever the names and the parents of the
  -- categories are.
  pub group_expenses-GroupsOf :
      (ls : List ExpenseLine) (tax : ℤ)
      → GroupsOf (sum_by counted ls +ℤ tax) (group_expenses normalize categories ls tax)
  unfolding group_expenses
  group_expenses-GroupsOf ls tax =
      let (t, keys) = lines_in ls (pos 0) [] (refl, tt) in
      let lines_only : GroupsOf (sum_by counted ls) (add_lines normalize categories ls []) =
        (t ∙ omega int_laws, keys) in
      elim (Bool-cases (eqb_ℤ tax (pos 0))) [
        | inl no_tax ↦
            let untaxed : tax ≡ pos 0 = ground (arith, no_tax) in
            rw no_tax (
              lines_only.0
                  ∙ sym (ap (λ v. sum_by counted ls +ℤ v) untaxed ∙ +ℤ_zero (sum_by counted ls)),
              lines_only.1,
            )
        | inr taxed ↦ rw taxed (merged _ tax_group tax true (sum_by counted ls) _ lines_only)
      ]
