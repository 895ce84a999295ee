-- ===== src/Matching/Transfers/Laws.antt =====
-- The pairs that apps/api/src/integrations/transfer-match.ts proposes are transfers, are one to one, and
-- leave out no pair that is better than what they propose.
use construct_fin.Prelude.{
  ℕ, ◌*◌, ◌≡◌, ◌≢◌, sym, ap, ◌⊎◌, inl, inr, Bool, true, not, ◌||◌, some, List, [], ◌∷◌, arith, ℤ,
  pos, ◌+ℤ◌, ◌-ℤ◌, ◌*ℤ◌, ◌≤ℤ◌, ltb_ℤ, ltb_ℤ→le, eqb_ℤ, ◌==◌, keep, has, All, All-map, All-map_of,
  keep_has, Bool-cases, Option-cases, int_laws, +ℤ_zero,
}
use construct_fin.Sorting.{Comparator, IsPreorder, ◌or_else◌, sort-All, All-sort, sort-IsOrdered}
use construct_fin.Sorting.Comparators.{by_key, by_key-IsPreorder, on-IsPreorder, or_else-IsPreorder}
use construct_fin.Matching.Greedy.{
  all_at, Some-kept, Some, Apart, Prevents, Blocks, greedy-Apart, All-greedy, greedy-Prevents,
}
use construct_fin.Matching.Pairs.{pairs-All, All-pairs}
use mathlib.Core.Path.{subst}
use mathlib.Core.Option.{some-injective}
use construct_fin.Matching.Transfers.{
  of_fee, MatchLine, income, expense, is_expense, TransferPair, Candidate, day_ms, fee_max_abs,
  fee_if_plausible, apart, candidate, by_confidence, with_fee_rank, blocked, add, taken,
  match_transfer_pairs,
}

-- Two pairs share a line.
abbrev pub shares : Candidate → Candidate → Bool
shares x c =
    has c.pair.out.id (x.pair.into.id ∷ x.pair.out.id ∷ [])
    || has c.pair.into.id (x.pair.into.id ∷ x.pair.out.id ∷ [])

blocks : Blocks blocked add shares
blocks u x c = ground arith

same_line : (c : Candidate) → shares c c ≡ true
same_line c = ground arith

-- What makes a pair a transfer.
pub record IsTransfer (window_days : ℕ) (p : TransferPair) : Type 0 where
  pub expense_side : p.out.direction ≡ expense
  pub income_side : p.into.direction ≡ income
  pub between : p.out.account ≢ p.into.account
  pub near : apart p.out.date p.into.date ≤ℤ pos (window_days * day_ms)
  pub balance : p.out.amount ≡ p.into.amount +ℤ p.fee
  pub paid : pos 0 ≤ℤ p.fee
  pub capped : p.fee ≤ℤ fee_max_abs
  pub share : (p.fee ≡ pos 0) ⊎ (pos 100 *ℤ p.fee ≤ℤ p.out.amount)

eqb→eq : (a b : ℤ) → eqb_ℤ a b ≡ true → a ≡ b
eqb→eq a b h = ground arith

fee_lem :
    (out inc fee : ℤ)
    → fee_if_plausible out inc ≡ some fee
    → (out ≡ inc +ℤ fee)
      × (pos 0 ≤ℤ fee)
      × (fee ≤ℤ fee_max_abs)
      × ((fee ≡ pos 0) ⊎ (pos 100 *ℤ fee ≤ℤ out))
unfolding fee_if_plausible
fee_lem out inc fee e = elim (Bool-cases (eqb_ℤ out inc)) [
  | inl same ↦
      let none_taken : pos 0 ≡ fee = ground (arith, same, e) in
      (
        rw (eqb→eq out inc same, ← none_taken) (sym (+ℤ_zero inc)),
        ground (arith, none_taken),
        ground (arith, none_taken),
        inl (sym none_taken),
      )
  | inr differ ↦ elim (Bool-cases (ltb_ℤ out inc)) [
    | inl less ↦ absurd (ground (arith, differ, less, e))
    | inr more ↦ elim (Bool-cases (ltb_ℤ fee_max_abs (out -ℤ inc))) [
      | inl big ↦ absurd (ground (arith, differ, more, big, e))
      | inr small ↦ elim (Bool-cases (ltb_ℤ out (pos 100 *ℤ (out -ℤ inc)))) [
        | inl wide ↦ absurd (ground (arith, differ, more, small, wide, e))
        | inr narrow ↦
            let rest : out -ℤ inc ≡ fee = ground (arith, differ, more, small, narrow, e) in
            (
              rw (← rest) (omega int_laws),
              rw (← rest) (omega (int_laws, ltb_ℤ→le out inc more)),
              rw (← rest) (ltb_ℤ→le fee_max_abs (out -ℤ inc) small),
              inr (rw (← rest) (ltb_ℤ→le out (pos 100 *ℤ (out -ℤ inc)) narrow)),
            )
      ]
    ]
  ]
]

module _ (window_days : ℕ) where
  candidate-IsTransfer :
      (out inc : MatchLine) (c : Candidate)
      → out.direction ≡ expense
      → inc.direction ≡ income
      → candidate window_days out inc ≡ some c
      → IsTransfer window_days c.pair
  unfolding candidate
  candidate-IsTransfer out inc c eo ei e = elim (Bool-cases (out.account == inc.account)) [
    | inl same ↦ absurd (ground (arith, same, e))
    | inr differ ↦
        elim (Bool-cases (ltb_ℤ (pos (window_days * day_ms)) (apart out.date inc.date))) [
          | inl far ↦ absurd (ground (arith, differ, far, e))
          | inr near ↦ elim (Option-cases (fee_if_plausible out.amount inc.amount)) [
            | inl missing ↦ absurd (ground (arith, differ, near, missing, e))
            | inr (fee, found) ↦
                let (ef, e0, e1, e2) = fee_lem out.amount inc.amount fee found in
                let same : of_fee out inc (apart out.date inc.date) (some fee) ≡ some c =
                  ground (arith, differ, near, found, e) in
                subst (λ k. IsTransfer window_days k.pair) (some-injective _ _ same)
                  (record {
                    expense_side = eo;
                    income_side = ei;
                    between = ground (arith, differ);
                    near = ltb_ℤ→le (pos (window_days * day_ms)) (apart out.date inc.date) near;
                    balance = ef;
                    paid = e0;
                    capped = e1;
                    share = e2;
                  })
          ]
        ]
  ]

  module _ (compare_ids : Comparator ℕ) where
    -- Every proposed pair is a transfer: an expense and an income on two accounts, within the window of
    -- days, whose amounts differ by a fee of at most 5000 roubles that is zero or at most a hundredth of
    -- the expense.
    pub match_transfer_pairs-IsTransfer :
        (lines : List MatchLine)
        → All (IsTransfer window_days) (match_transfer_pairs compare_ids lines window_days)
    unfolding match_transfer_pairs taken
    match_transfer_pairs-IsTransfer lines =
        All-map_of (λ c. c.pair) (IsTransfer window_days) _
          (All-greedy blocked add shares blocks (λ c. IsTransfer window_days c.pair) [] _
            (All-sort (by_confidence compare_ids) (λ c. IsTransfer window_days c.pair) _
              (All-pairs (candidate window_days) (λ c. IsTransfer window_days c.pair)
                (λ l. l.direction ≡ expense) (λ l. l.direction ≡ income) candidate-IsTransfer _ _
                (keep_has (λ l. is_expense l.direction) (λ l. l.direction ≡ expense)
                  (λ l h. ground (arith, h)) lines)
                (keep_has (λ l. not (is_expense l.direction)) (λ l. l.direction ≡ income)
                  (λ l h. ground (arith, h)) lines))))

    -- No two of the proposed pairs share a line.
    pub taken-Apart : (lines : List MatchLine) → Apart shares (taken compare_ids lines window_days)
    unfolding taken
    taken-Apart lines = greedy-Apart blocked add shares blocks [] _

    module _ (pre : IsPreorder compare_ids) where
      by_confidence-IsPreorder : IsPreorder (by_confidence compare_ids)
      by_confidence-IsPreorder =
          or_else-IsPreorder (by_key with_fee_rank)
            (λ a b. by_key (λ c. c.gap) a b or_else compare_ids a.pair.out.id b.pair.out.id)
            (by_key-IsPreorder with_fee_rank)
            (or_else-IsPreorder (by_key (λ c. c.gap))
              (λ a b. compare_ids a.pair.out.id b.pair.out.id) (by_key-IsPreorder (λ c. c.gap))
              (on-IsPreorder (λ c. c.pair.out.id) compare_ids pre))

      -- Each plausible pair is blocked by one that is no worse.
      All-prevented :
          (lines : List MatchLine)
          → All
              (λ o.
                All
                  (λ i.
                    (c : Candidate)
                    → candidate window_days o i ≡ some c
                    → Some
                        (Prevents shares (by_confidence compare_ids) c)
                        (taken compare_ids lines window_days))
                  (keep (λ l. not (is_expense l.direction)) lines))
              (keep (λ l. is_expense l.direction) lines)
      unfolding taken
      All-prevented lines =
          pairs-All (candidate window_days)
            (λ c.
              Some (Prevents shares (by_confidence compare_ids) c)
                (taken compare_ids lines window_days))
            _ _
            (sort-All (by_confidence compare_ids) _ _ (
              All-map _ _
                (λ c s. elim s [ inl used ↦ absurd (ground (arith, used)) | inr found ↦ found ]) _
                (greedy-Prevents blocked add shares blocks (by_confidence compare_ids)
                  by_confidence-IsPreorder same_line [] _
                  (sort-IsOrdered (by_confidence compare_ids) by_confidence-IsPreorder _))))

      -- Where ids are compared by a total preorder, an expense and an income of the lines that make a
      -- candidate pair are proposed, or a proposed pair that is no worse shares a line with them.
      pub taken-no_better :
          (lines : List MatchLine) (o i : MatchLine) (c : Candidate)
          → Some (λ l. l ≡ o) lines
          → Some (λ l. l ≡ i) lines
          → o.direction ≡ expense
          → i.direction ≡ income
          → candidate window_days o i ≡ some c
          → Some
              (Prevents shares (by_confidence compare_ids) c)
              (taken compare_ids lines window_days)
      taken-no_better lines o i c mo mi eo ei e =
          let row =
            all_at _ _ o (All-prevented lines)
              (Some-kept (λ l. is_expense l.direction) lines o (ap is_expense eo) mo) in
          all_at _ _ i row
            (Some-kept (λ l. not (is_expense l.direction)) lines i (ap (λ x. not (is_expense x)) ei)
              mi)
            c e
