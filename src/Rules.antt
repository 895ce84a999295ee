-- ===== src/Rules.antt =====
-- apps/api/src/rule/engine.ts: rules that fill in the category, the counterparty and the account of an
-- operation. Ids are keys, amounts are in kopecks, and texts are code units. `toLowerCase` and
-- `localeCompare` on ids are parameters.
pub mod Outcome
mod Tests
use construct_fin.Prelude.{
  ℕ, Bool, true, false, not, ◌&&◌, ◌||◌, Option, none, some, List, [], ◌∷◌, ◌++◌, ℤ, pos, ◌-ℤ◌,
  ltb_ℤ, abs, ◌==◌, if◌then◌else◌, any, every,
}
use construct_fin.Text.{Text, or_empty, is_empty, same_text, includes, digits_only, trim}
use construct_fin.Sorting.{Comparator, ◌or_else◌, sort}

pub data TxType : Type 0 where
  income expense : TxType

pub data RuleSource : Type 0 where
  from_import manual : RuleSource

pub data RuleCondition : Type 0 where
  description_contains : Text → RuleCondition
  counterparty_equals : ℕ → RuleCondition
  counterparty_inn_in : List Text → RuleCondition
  account_equals : ℕ → RuleCondition
  type_equals : TxType → RuleCondition
  amount_range : Option ℤ → Option ℤ → RuleCondition
  source_equals : RuleSource → RuleCondition

pub data RuleAction : Type 0 where
  set_category set_counterparty set_account : ℕ → RuleAction

pub data RuleMode : Type 0 where
  post suggest : RuleMode

pub record RuleDef : Type 0 where
  pub id : ℕ
  pub priority : ℤ
  pub mode : Option RuleMode
  pub conditions : List RuleCondition
  pub actions : List RuleAction

pub record RuleContext : Type 0 where
  pub description : Option Text
  pub counterparty : Option ℕ
  pub counterparty_name : Option Text
  pub counterparty_inn : Option Text
  pub account : Option ℕ
  pub amount : Option ℤ
  pub tx_type : Option TxType
  pub source : RuleSource

pub record RuleSuggestion : Type 0 where
  pub category : Option ℕ
  pub counterparty : Option ℕ
  pub account : Option ℕ
  pub category_rule : Option ℕ
  pub category_suggest_only : Option Bool
  pub matched_rules : List ℕ

abbrev pub is_id : Option ℕ → ℕ → Bool
is_id none k = false
is_id (some j) k = j == k

abbrev pub same_type : TxType → TxType → Bool
same_type income income = true
same_type income expense = false
same_type expense income = false
same_type expense expense = true

abbrev pub is_type : Option TxType → TxType → Bool
is_type none t = false
is_type (some u) t = same_type u t

abbrev pub same_source : RuleSource → RuleSource → Bool
same_source from_import from_import = true
same_source from_import manual = false
same_source manual from_import = false
same_source manual manual = true

-- `AMOUNT_RANGE`, by the absolute value; without a bound nothing matches.
unfoldable pub in_range : Option ℤ → Option ℤ → Option ℤ → Bool
in_range low high none = false
in_range none none (some a) = false
in_range (some l) none (some a) = not (ltb_ℤ (abs a) (abs l))
in_range none (some h) (some a) = not (ltb_ℤ (abs h) (abs a))
in_range (some l) (some h) (some a) = not (ltb_ℤ (abs a) (abs l)) && not (ltb_ℤ (abs h) (abs a))

abbrev pub is_nil : {A : Type 0} → List A → Bool
is_nil [] = true
is_nil (x ∷ xs) = false

abbrev pub is_suggest : Option RuleMode → Bool
is_suggest none = false
is_suggest (some post) = false
is_suggest (some suggest) = true

module _ (lower : Text → Text) where
  unfoldable pub matches_condition : RuleContext → RuleCondition → Bool
  unfolding in_range digits_only
  matches_condition ctx (description_contains value) =
      let haystack =
        lower (trim (or_empty ctx.description ++ 32 ∷ or_empty ctx.counterparty_name)) in
      let needle = lower (trim value) in not (is_empty needle) && includes needle haystack
  matches_condition ctx (counterparty_equals k) = is_id ctx.counterparty k
  matches_condition ctx (counterparty_inn_in values) =
      let inn = digits_only ctx.counterparty_inn in
      not (is_empty inn) && any (λ v. same_text (digits_only (some v)) inn) values
  matches_condition ctx (account_equals k) = is_id ctx.account k
  matches_condition ctx (type_equals t) = is_type ctx.tx_type t
  matches_condition ctx (amount_range low high) = in_range low high ctx.amount
  matches_condition ctx (source_equals s) = same_source ctx.source s

  unfoldable pub rule_matches : RuleContext → RuleDef → Bool
  unfolding matches_condition
  rule_matches ctx rule =
      if is_nil rule.conditions then false else every (matches_condition ctx) rule.conditions

abbrev pub is_none : {A : Type 0} → Option A → Bool
is_none none = true
is_none (some a) = false

-- The `switch` of `applyRules` for one action; the second part is `used`.
unfoldable pub apply_action : RuleDef → RuleAction → RuleSuggestion × Bool → RuleSuggestion × Bool
apply_action rule (set_category k) (out, used) =
    if is_none out.category
    then (
      record out {
        category = some k;
        category_rule = some rule.id;
        category_suggest_only = some (is_suggest rule.mode);
      },
      true,
    )
    else (out, used)
apply_action rule (set_counterparty k) (out, used) =
    if is_none out.counterparty then (record out { counterparty = some k }, true) else (out, used)
apply_action rule (set_account k) (out, used) =
    if is_none out.account then (record out { account = some k }, true) else (out, used)

unfoldable pub apply_actions :
    RuleDef → List RuleAction → RuleSuggestion × Bool → RuleSuggestion × Bool
unfolding apply_action
apply_actions rule [] s = s
apply_actions rule (a ∷ actions) s = apply_actions rule actions (apply_action rule a s)

abbrev pub note : ℕ → RuleSuggestion × Bool → RuleSuggestion
note id (out, used) =
    if used then record out { matched_rules = out.matched_rules ++ id ∷ [] } else out

unfoldable pub apply_ordered : (RuleDef → Bool) → List RuleDef → RuleSuggestion → RuleSuggestion
unfolding apply_actions
apply_ordered matches [] out = out
apply_ordered matches (rule ∷ rules) out =
    let over = apply_ordered matches rules out in
    let within =
      apply_ordered matches rules (note rule.id (apply_actions rule rule.actions (out, false))) in
    if matches rule then within else over

abbrev pub by_priority : Comparator ℕ → Comparator RuleDef
by_priority compare_ids a b = (b.priority -ℤ a.priority) or_else compare_ids a.id b.id

abbrev pub no_suggestion : RuleSuggestion
no_suggestion = record {
  category = none;
  counterparty = none;
  account = none;
  category_rule = none;
  category_suggest_only = none;
  matched_rules = [];
}

unfoldable pub apply_rules :
    (Text → Text) → Comparator ℕ → List RuleDef → RuleContext → RuleSuggestion
unfolding apply_ordered rule_matches
apply_rules lower compare_ids rules ctx =
    apply_ordered (rule_matches lower ctx) (sort (by_priority compare_ids) rules) no_suggestion
