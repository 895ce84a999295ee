-- ===== src/MonthSummary/Compared.antt =====
-- Two months side by side (apps/api/src/reports/month-summary.calc.ts, `compareGroups`) keep both sums.
use construct_fin.Prelude.{
  ◌≡◌, refl, sym, ◌∙◌, ap, inl, inr, true, false, not, none, List, [], ◌∷◌, ◌++◌, map, arith,
  int_laws, ℤ, pos, ◌+ℤ◌, ◌==◌, if◌then◌else◌, find, keep, sum_by, sum_by-append, sum_by-map, All,
  Bool-cases, +ℤ_zero, zero_+ℤ, ==→eq,
}
use mathlib.Core.Path.{subst}
use construct_fin.Text.{Text}
use construct_fin.Sorting.{sum_by-sort}
use construct_fin.MonthSummary.Groups.{
  GroupKey, root_key, system_key, group_number, SystemGroup, same_key, ExpenseGroup, ComparedGroup,
  amount_or_zero, has_key, by_amounts, beside_prev, only_prev, compare_groups,
}
use construct_fin.MonthSummary.Totals.{total_amount, DistinctKeys, same_key_sym}

same_group : (s t : SystemGroup) → (group_number s == group_number t) ≡ true → s ≡ t
same_group s t e = ground (arith, e)

key_eq : (k j : GroupKey) → same_key k j ≡ true → k ≡ j
key_eq (root_key a) (root_key b) e = ap root_key (==→eq a b e)
key_eq (root_key a) (system_key t) e = cc
key_eq (system_key s) (root_key b) e = cc
key_eq (system_key s) (system_key t) e = ap system_key (same_group s t e)

sum_by-zero : {A : Type 0} (xs : List A) → sum_by (λ x. pos 0) xs ≡ pos 0
sum_by-zero [] = refl
sum_by-zero (x ∷ xs) = rw (sum_by-zero xs) (+ℤ_zero (pos 0))

abbrev hit : GroupKey → ℤ → ExpenseGroup → ℤ
hit k v g = if same_key k g.key then v else pos 0

no_hits :
    (k : GroupKey) (v : ℤ) (gs : List ExpenseGroup)
    → All (λ h. same_key h.key k ≡ false) gs
    → sum_by (hit k v) gs ≡ pos 0
no_hits k v [] h = refl
no_hits k v (g ∷ gs) (h, hs) = rw (same_key_sym k g.key ∙ h, no_hits k v gs hs) (+ℤ_zero (pos 0))

one_hit :
    (k : GroupKey) (v : ℤ) (gs : List ExpenseGroup)
    → DistinctKeys gs
    → sum_by (hit k v) gs ≡ (if has_key k gs then v else pos 0)
one_hit k v [] d = refl
one_hit k v (g ∷ gs) (fresh, d) = elim (Bool-cases (same_key g.key k)) [
  | inl here ↦
      let rest =
        no_hits k v gs
          (subst (λ j. All (λ h. same_key h.key j ≡ false) gs) (key_eq g.key k here) fresh) in
      rw (here, same_key_sym k g.key ∙ here, rest) (+ℤ_zero v)
  | inr away ↦
      rw (away, same_key_sym k g.key ∙ away) (zero_+ℤ (sum_by (hit k v) gs) ∙ one_hit k v gs d)
]

abbrev looked_up : List ExpenseGroup → ExpenseGroup → ℤ
looked_up prev g = amount_or_zero (find (λ p. same_key p.key g.key) prev)

not_found :
    (k : GroupKey) (gs : List ExpenseGroup)
    → All (λ h. same_key h.key k ≡ false) gs
    → find (λ p. same_key p.key k) gs ≡ none
not_found k [] h = refl
not_found k (g ∷ gs) (h, hs) = rw (h, not_found k gs hs) refl

look_up :
    (p : ExpenseGroup) (ps : List ExpenseGroup) (g : ExpenseGroup)
    → All (λ h. same_key h.key p.key ≡ false) ps
    → looked_up (p ∷ ps) g ≡ hit p.key p.amount g +ℤ looked_up ps g
look_up p ps g fresh = elim (Bool-cases (same_key p.key g.key)) [
  | inl here ↦
      let others =
        not_found g.key ps
          (subst (λ j. All (λ h. same_key h.key j ≡ false) ps) (key_eq p.key g.key here) fresh) in
      rw (here, others) (sym (+ℤ_zero p.amount))
  | inr away ↦ rw away (sym (zero_+ℤ (looked_up ps g)))
]

look_up_all :
    (p : ExpenseGroup) (ps gs : List ExpenseGroup)
    → All (λ h. same_key h.key p.key ≡ false) ps
    → sum_by (looked_up (p ∷ ps)) gs ≡ sum_by (hit p.key p.amount) gs +ℤ sum_by (looked_up ps) gs
look_up_all p ps [] fresh = sym (+ℤ_zero (pos 0))
look_up_all p ps (g ∷ gs) fresh =
    rw (look_up p ps g fresh, look_up_all p ps gs fresh) (omega int_laws)

abbrev gone : List ExpenseGroup → List ExpenseGroup → List ExpenseGroup
gone current prev = keep (λ p. not (has_key p.key current)) prev

gone_amount :
    (current : List ExpenseGroup) (p : ExpenseGroup) (ps : List ExpenseGroup)
    → (if has_key p.key current then p.amount else pos 0) +ℤ total_amount (gone current (p ∷ ps))
      ≡ p.amount +ℤ total_amount (gone current ps)
gone_amount current p ps = elim (Bool-cases (has_key p.key current)) [
  | inl there ↦ rw there refl
  | inr away ↦ rw away (zero_+ℤ _)
]

arrange :
    (s a b x t u v w : ℤ) → s ≡ a +ℤ b → a ≡ x → x +ℤ t ≡ v +ℤ u → b +ℤ u ≡ w → s +ℤ t ≡ v +ℤ w
arrange s a b x t u v w e f g h = rw (e, f, sym h) (swap ∙ ap (λ y. y +ℤ b) g ∙ omega int_laws)
  where
    swap : x +ℤ b +ℤ t ≡ x +ℤ t +ℤ b
    swap = omega int_laws

prev_total :
    (current prev : List ExpenseGroup)
    → DistinctKeys current
    → DistinctKeys prev
    → sum_by (looked_up prev) current +ℤ total_amount (gone current prev) ≡ total_amount prev
prev_total current [] d h = rw (sum_by-zero current) (+ℤ_zero (pos 0))
prev_total current (p ∷ ps) d (fresh, h) =
    arrange _ _ (sum_by (looked_up ps) current) _ _ (total_amount (gone current ps)) p.amount
      (total_amount ps) (look_up_all p ps current fresh) (one_hit p.key p.amount current d)
      (gone_amount current p ps) (prev_total current ps d h)

both_sums :
    (locale : Text → Text → ℤ) (f : ComparedGroup → ℤ) (prev current : List ExpenseGroup)
    → sum_by f (compare_groups locale current prev)
      ≡ sum_by (λ g. f (beside_prev prev g)) current
        +ℤ sum_by (λ p. f (only_prev p)) (gone current prev)
unfolding compare_groups
both_sums locale f prev current =
    let now = map (beside_prev prev) current in
    let before = map only_prev (gone current prev) in
    sum_by-sort (by_amounts locale) f (now ++ before)
    ∙ sum_by-append f now before
    ∙ rw (sum_by-map f (beside_prev prev) current, sum_by-map f only_prev (gone current prev)) refl

-- Where no two groups of a month have one key, in neither month: the amounts of the compared groups add
-- up to those of the month, and their amounts of the month before to those of the month before.
pub compare_groups-totals :
    (locale : Text → Text → ℤ) (current prev : List ExpenseGroup)
    → DistinctKeys current
    → DistinctKeys prev
    → (sum_by (λ c. c.group.amount) (compare_groups locale current prev) ≡ total_amount current)
      × (sum_by (λ c. c.prev_amount) (compare_groups locale current prev) ≡ total_amount prev)
compare_groups-totals locale current prev d h = (
  both_sums locale (λ c. c.group.amount) prev current
      ∙ rw (sum_by-zero (gone current prev)) (+ℤ_zero (total_amount current)),
  both_sums locale (λ c. c.prev_amount) prev current ∙ prev_total current prev d h,
)
