-- ===== src/Fifo/Reversal.antt =====
-- reversePlan (apps/api/src/common/fifo.ts) asked for all that the consumptions have left.
use construct_fin.Prelude.{
  ◌≡◌, refl, ◌∙◌, ap, true, false, List, [], ◌∷◌, map, arith, ℤ, pos, ◌+ℤ◌, ◌-ℤ◌, ◌*ℤ◌, ◌≤ℤ◌, ◌<ℤ◌,
  ltb_ℤ, int_laws, zero_+ℤ, lt→ltb_ℤ, le→ltb_ℤ, All, All-map, sum_by, sum_by_nonneg, sum_by-map,
}
use construct_fin.Prelude.Result.{ok}
use construct_fin.Fifo.{ReversibleConsumption, ReverseStep, Plan, drain, reverse_plan, reverse_step}
use construct_fin.Fifo.Drain.{drain_cost}
use construct_fin.Fifo.Plans.{left_of, reverse_cost}

-- The first source is taken whole, and the rest of the request is what the others hold.
takes_whole :
    (a s : ℤ)
    → pos 0 <ℤ a
    → pos 0 ≤ℤ s
    → (ltb_ℤ (pos 0) (a +ℤ s) ≡ true) × (ltb_ℤ (a +ℤ s) a ≡ false) × (a +ℤ s -ℤ a ≡ s)
takes_whole a s p q = (
  lt→ltb_ℤ (pos 0) (a +ℤ s) (omega int_laws),
  le→ltb_ℤ (a +ℤ s) a (omega int_laws),
  omega int_laws,
)

module _ {A S : Type 0} (amount price : A → ℤ) (step : A → ℤ → S) where
  -- A request for all that the sources hold takes each of them whole.
  drain-All :
      (xs : List A) (c : ℤ)
      → All (λ a. pos 0 <ℤ amount a) xs
      → (drain amount price step xs (sum_by amount xs) c).0 ≡ map (λ a. step a (amount a)) xs
  unfolding drain
  drain-All [] c h = refl
  drain-All (a ∷ xs) c (p, ps) =
      let s = sum_by amount xs in
      let (wanted, whole, rest) = takes_whole (amount a) s p (All-sum xs ps) in
      rw (
        wanted,
        lt→ltb_ℤ (pos 0) (amount a) p,
        whole,
        rest,
        drain-All xs (c +ℤ amount a *ℤ price a) ps,
      )
    where
      All-sum : (ys : List A) → All (λ b. pos 0 <ℤ amount b) ys → pos 0 ≤ℤ sum_by amount ys
      All-sum ys qs = sum_by_nonneg amount ys (All-map _ _ (λ b q. omega arith) ys qs)

-- Reversing all that a non-empty list of consumptions has left, each of them something, succeeds; it gives back each of them
-- whole, in order, and its cost is the sum of what they have left at their recorded costs.
pub reverse_plan-All :
    (c : ReversibleConsumption) (cs : List ReversibleConsumption)
    → All (λ d. pos 0 <ℤ d.remaining) (c ∷ cs)
    → (p : Plan ReverseStep) × (reverse_plan (c ∷ cs) (left_of (c ∷ cs)) ≡ ok p)
      × (p.steps ≡ map (λ d. reverse_step d d.remaining) (c ∷ cs))
      × (p.total_cost ≡ sum_by (λ d. d.remaining *ℤ d.unit_cost) (c ∷ cs))
unfolding reverse_plan
reverse_plan-All c cs h =
    let qty = λ (d : ReversibleConsumption). d.remaining in
    let price = λ (d : ReversibleConsumption). d.unit_cost in
    let need = left_of (c ∷ cs) in
    let out = drain qty price reverse_step (c ∷ cs) need (pos 0) in
    let steps = drain-All qty price reverse_step (c ∷ cs) (pos 0) h in
    let others = sum_by_nonneg qty cs (All-map _ _ (λ d q. omega arith) cs h.1) in
    let spent =
      drain_cost qty price reverse_step (λ s. s.qty) reverse_cost (λ a t. refl) (λ a t. refl)
        (c ∷ cs) need (pos 0)
      ∙ zero_+ℤ _ in
    let (wanted, _, _) = takes_whole c.remaining (left_of cs) h.0 others in
    (
      record { steps = out.0; total_qty = need; total_cost = out.1 },
      rw (wanted, le→ltb_ℤ need need (omega arith)),
      steps,
      spent
          ∙ ap (sum_by reverse_cost) steps
          ∙ sum_by-map reverse_cost (λ d. reverse_step d d.remaining) (c ∷ cs),
    )
