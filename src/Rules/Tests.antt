-- ===== src/Rules/Tests.antt =====
-- Two rules for one supplier.
use construct_fin.Prelude.{ℕ, ◌≡◌, refl, none, some, List, [], ◌∷◌, pos, ◌-ℤ◌, keep}
use construct_fin.Text.{Text, digits_only}
use construct_fin.Sorting.{Comparator, sort, insert}
use construct_fin.Rules.{
  expense, from_import, counterparty_inn_in, type_equals, set_category, set_counterparty, suggest,
  RuleDef, RuleContext, apply_rules, apply_ordered, apply_actions, apply_action, rule_matches,
  matches_condition, by_priority,
}
use construct_fin.Rules.Outcome.{
  Shows, supplied, category_of, counterparty_of, account_of, apply_rules_outcome,
}

abbrev by_number : Comparator ℕ
by_number a b = pos a -ℤ pos b

abbrev as_written : Text → Text
as_written t = t

-- The INN "12" as the bank writes it, with a space, and as the rule names it.
abbrev of_bank : Text
of_bank = 49 ∷ 32 ∷ 50 ∷ []

abbrev rules : List RuleDef
rules =
    record {
      id = 5;
      priority = pos 1;
      mode = none;
      conditions = type_equals expense ∷ [];
      actions = set_category 80 ∷ set_counterparty 90 ∷ [];
    }
    ∷ record {
      id = 6;
      priority = pos 9;
      mode = some suggest;
      conditions = counterparty_inn_in ((49 ∷ 50 ∷ []) ∷ []) ∷ [];
      actions = set_category 81 ∷ [];
    }
    ∷ []

abbrev line : RuleContext
line = record {
  description = none;
  counterparty = none;
  counterparty_name = none;
  counterparty_inn = some of_bank;
  account = none;
  amount = some (pos 100);
  tx_type = some expense;
  source = from_import;
}

suggested : (apply_rules as_written by_number rules line).category ≡ some 81
unfolding apply_rules sort insert apply_ordered apply_actions apply_action rule_matches
    matches_condition digits_only ◌-ℤ◌
suggested = refl

apply_rules_outcome_example :
    let hits = keep (rule_matches as_written line) (sort (by_priority by_number) rules) in
    Shows
      (apply_rules as_written by_number rules line)
      (supplied category_of hits)
      (supplied counterparty_of hits)
      (supplied account_of hits)
apply_rules_outcome_example = apply_rules_outcome as_written by_number rules line
