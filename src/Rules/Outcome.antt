-- ===== src/Rules/Outcome.antt =====
-- The outcome of apps/api/src/rule/engine.ts: each field comes from the first rule in the order of
-- priority that matches and sets it.
use construct_fin.Prelude.{
  ℕ, ◌≡◌, refl, sym, ◌∙◌, ap, inl, inr, Bool, true, false, Option, none, some, List, [], ◌∷◌, arith,
  keep, Bool-cases,
}
use construct_fin.Text.{Text}
use construct_fin.Sorting.{Comparator, sort}
use construct_fin.Rules.{
  RuleDef, RuleAction, set_category, set_counterparty, set_account, RuleContext, RuleSuggestion,
  is_suggest, apply_action, apply_actions, note, apply_ordered, by_priority, no_suggestion,
  apply_rules, rule_matches,
}

abbrev pub first_some : {A : Type 0} → Option A → Option A → Option A
first_some none b = b
first_some (some a) b = some a

abbrev pub view : {A B : Type 0} → (A → B) → Option A → Option B
view f none = none
view f (some a) = some (f a)

abbrev pub category_of : RuleAction → Option ℕ
category_of (set_category k) = some k
category_of (set_counterparty k) = none
category_of (set_account k) = none

abbrev pub counterparty_of : RuleAction → Option ℕ
counterparty_of (set_category k) = none
counterparty_of (set_counterparty k) = some k
counterparty_of (set_account k) = none

abbrev pub account_of : RuleAction → Option ℕ
account_of (set_category k) = none
account_of (set_counterparty k) = none
account_of (set_account k) = some k

-- What the first action of a kind sets, and what the first rule sets that has one.
abbrev pub set_by : (RuleAction → Option ℕ) → List RuleAction → Option ℕ
set_by kind [] = none
set_by kind (a ∷ actions) = first_some (kind a) (set_by kind actions)

-- The value, and the rule that set it.
abbrev pub supplied : (RuleAction → Option ℕ) → List RuleDef → Option (ℕ × RuleDef)
supplied kind [] = none
supplied kind (r ∷ rules) =
    first_some (view (λ k. (k, r)) (set_by kind r.actions)) (supplied kind rules)

-- The fields of a suggestion are those of the rules that supplied them.
pub record Shows (out : RuleSuggestion) (cat party acc : Option (ℕ × RuleDef)) : Type 0 where
  pub category : out.category ≡ view (λ s. s.0) cat
  pub category_rule : out.category_rule ≡ view (λ s. s.1.id) cat
  pub suggest_only : out.category_suggest_only ≡ view (λ s. is_suggest s.1.mode) cat
  pub counterparty : out.counterparty ≡ view (λ s. s.0) party
  pub account : out.account ≡ view (λ s. s.0) acc

abbrev one : RuleDef → Option ℕ → Option (ℕ × RuleDef)
one r k = view (λ j. (j, r)) k

action-Shows :
    (r : RuleDef) (a : RuleAction) (out : RuleSuggestion) (used : Bool)
    (cat party acc : Option (ℕ × RuleDef))
    → Shows out cat party acc
    → Shows
        ((apply_action r a (out, used)).0)
        (first_some cat (one r (category_of a)))
        (first_some party (one r (counterparty_of a)))
        (first_some acc (one r (account_of a)))
unfolding apply_action
action-Shows r (set_category k) out used cat party acc s = record {
  category = ground (arith, s.category, s.counterparty, s.account);
  category_rule = ground (arith, s.category, s.category_rule);
  suggest_only = ground (arith, s.category, s.suggest_only);
  counterparty = ground (arith, s.category, s.counterparty, s.account);
  account = ground (arith, s.category, s.counterparty, s.account);
}
action-Shows r (set_counterparty k) out used cat party acc s = record {
  category = ground (arith, s.category, s.counterparty, s.account);
  category_rule = ground (arith, s.category, s.category_rule);
  suggest_only = ground (arith, s.category, s.suggest_only);
  counterparty = ground (arith, s.category, s.counterparty, s.account);
  account = ground (arith, s.category, s.counterparty, s.account);
}
action-Shows r (set_account k) out used cat party acc s = record {
  category = ground (arith, s.category, s.counterparty, s.account);
  category_rule = ground (arith, s.category, s.category_rule);
  suggest_only = ground (arith, s.category, s.suggest_only);
  counterparty = ground (arith, s.category, s.counterparty, s.account);
  account = ground (arith, s.category, s.counterparty, s.account);
}

Shows-eq :
    (out : RuleSuggestion) {cat party acc cat' party' acc' : Option (ℕ × RuleDef)}
    → cat ≡ cat'
    → party ≡ party'
    → acc ≡ acc'
    → Shows out cat party acc
    → Shows out cat' party' acc'
Shows-eq out ec ep ea s = record {
  category = s.category ∙ ap (view (λ t. t.0)) ec;
  category_rule = s.category_rule ∙ ap (view (λ t. t.1.id)) ec;
  suggest_only = s.suggest_only ∙ ap (view (λ t. is_suggest t.1.mode)) ec;
  counterparty = s.counterparty ∙ ap (view (λ t. t.0)) ep;
  account = s.account ∙ ap (view (λ t. t.0)) ea;
}

first_assoc :
    {A : Type 0} (a b c : Option A) → first_some (first_some a b) c ≡ first_some a (first_some b c)
first_assoc none b c = refl
first_assoc (some a) b c = refl

first_none : {A : Type 0} (a : Option A) → first_some a none ≡ a
first_none none = refl
first_none (some a) = refl

first_one :
    (r : RuleDef) (cat : Option (ℕ × RuleDef)) (x y : Option ℕ)
    → first_some (first_some cat (one r x)) (one r y) ≡ first_some cat (one r (first_some x y))
first_one r cat none none = first_assoc cat none none
first_one r cat none (some y) = first_assoc cat none (some (y, r))
first_one r cat (some x) none = first_assoc cat (some (x, r)) none
first_one r cat (some x) (some y) = first_assoc cat (some (x, r)) (some (y, r))

actions-Shows :
    (r : RuleDef) (actions : List RuleAction) (out : RuleSuggestion) (used : Bool)
    (cat party acc : Option (ℕ × RuleDef))
    → Shows out cat party acc
    → Shows
        ((apply_actions r actions (out, used)).0)
        (first_some cat (one r (set_by category_of actions)))
        (first_some party (one r (set_by counterparty_of actions)))
        (first_some acc (one r (set_by account_of actions)))
unfolding apply_actions
actions-Shows r [] out used cat party acc s =
    Shows-eq out (sym (first_none cat)) (sym (first_none party)) (sym (first_none acc)) s
actions-Shows r (a ∷ actions) out used cat party acc s =
    let (next, flag) = apply_action r a (out, used) in
    Shows-eq _ (first_one r cat _ _) (first_one r party _ _) (first_one r acc _ _)
      (actions-Shows r actions next flag _ _ _ (action-Shows r a out used cat party acc s))

note-Shows :
    (id : ℕ) (s : RuleSuggestion × Bool) (cat party acc : Option (ℕ × RuleDef))
    → Shows s.0 cat party acc
    → Shows (note id s) cat party acc
note-Shows id (out, true) cat party acc s = record {
  category = s.category;
  category_rule = s.category_rule;
  suggest_only = s.suggest_only;
  counterparty = s.counterparty;
  account = s.account;
}
note-Shows id (out, false) cat party acc s = s

ordered-Shows :
    (matches : RuleDef → Bool) (rules : List RuleDef) (out : RuleSuggestion)
    (cat party acc : Option (ℕ × RuleDef))
    → Shows out cat party acc
    → Shows
        (apply_ordered matches rules out)
        (first_some cat (supplied category_of (keep matches rules)))
        (first_some party (supplied counterparty_of (keep matches rules)))
        (first_some acc (supplied account_of (keep matches rules)))
unfolding apply_ordered
ordered-Shows matches [] out cat party acc s =
    Shows-eq out (sym (first_none cat)) (sym (first_none party)) (sym (first_none acc)) s
ordered-Shows matches (r ∷ rules) out cat party acc s = elim (Bool-cases (matches r)) [
  | inl hit ↦ rw hit (
      Shows-eq _ (first_assoc cat _ _) (first_assoc party _ _) (first_assoc acc _ _) (
        ordered-Shows matches rules _ _ _ _ (
          note-Shows r.id (apply_actions r r.actions (out, false)) _ _ _
            (actions-Shows r r.actions out false cat party acc s))))
  | inr miss ↦ rw miss (ordered-Shows matches rules out cat party acc s)
]

-- Each field of the suggestion is what the first rule sets that matches and sets the field, in the
-- order of priority; the rule of the category and its mode are those of that rule.
pub apply_rules_outcome :
    (lower : Text → Text) (compare_ids : Comparator ℕ) (rules : List RuleDef) (ctx : RuleContext)
    → let hits = keep (rule_matches lower ctx) (sort (by_priority compare_ids) rules) in
      Shows
        (apply_rules lower compare_ids rules ctx)
        (supplied category_of hits)
        (supplied counterparty_of hits)
        (supplied account_of hits)
unfolding apply_rules
apply_rules_outcome lower compare_ids rules ctx =
    ordered-Shows (rule_matches lower ctx) (sort (by_priority compare_ids) rules) no_suggestion none
      none none
      (record {
        category = refl;
        category_rule = refl;
        suggest_only = refl;
        counterparty = refl;
        account = refl;
      })
