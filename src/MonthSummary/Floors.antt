-- ===== src/MonthSummary/Floors.antt =====
-- The integer part of a quotient in `largestRemainder` (apps/api/src/reports/month-summary.calc.ts): the
-- two loops that correct the estimate end, and end at the floor.
use construct_fin.Prelude.{
  ℕ, zero, suc, ◌≡◌, refl, ◌∙◌, ap, inl, inr, ◌⊎◌, arith, int_laws, ℤ, pos, negsuc, ◌+ℤ◌, ◌-ℤ◌,
  ◌*ℤ◌, ◌≤ℤ◌, ◌<ℤ◌, ltb_ℤ, leb_ℤ, Bool-cases, ltb_ℤ→le, ltb_ℤ→lt,
}
use construct_fin.MonthSummary.Remainders.{lower, lift, gap, whole_part}

below : (n : ℕ) → negsuc n -ℤ pos 1 ≡ negsuc (suc n)
below n = omega int_laws

above_pos : (n : ℕ) → pos n +ℤ pos 1 ≡ pos (suc n)
above_pos n = omega int_laws

times_below : (n : ℕ) (b : ℤ) → negsuc (suc n) *ℤ b ≡ negsuc n *ℤ b -ℤ b
unfolding ◌*ℤ◌ ◌-ℤ◌
times_below n b = ground arith

times_above : (n : ℕ) (b : ℤ) → pos (suc n) *ℤ b ≡ pos n *ℤ b +ℤ b
unfolding ◌*ℤ◌ ◌+ℤ◌
times_above n b = ground arith

less_one : (a b : ℤ) → (a -ℤ pos 1) *ℤ b ≡ a *ℤ b -ℤ b
unfolding ◌*ℤ◌ ◌-ℤ◌
less_one (pos zero) b = ground arith
less_one (pos (suc n)) b = ground arith
less_one (negsuc n) b = ap (λ a. a *ℤ b) (below n) ∙ times_below n b

less_still : (n : ℕ) (b : ℤ) → negsuc n *ℤ b ≡ negsuc (suc n) *ℤ b +ℤ b
less_still n b = rw (times_below n b) (omega int_laws)

up_from : (n : ℕ) → negsuc (suc n) +ℤ pos 1 ≡ negsuc n
up_from n = omega int_laws

plus_one : (a b : ℤ) → (a +ℤ pos 1) *ℤ b ≡ a *ℤ b +ℤ b
unfolding ◌*ℤ◌ ◌+ℤ◌
plus_one (pos n) b = ap (λ a. a *ℤ b) (above_pos n) ∙ times_above n b
plus_one (negsuc zero) b = ground arith
plus_one (negsuc (suc n)) b = ap (λ a. a *ℤ b) (up_from n) ∙ less_still n b

gap_covers : (a b : ℤ) → a ≤ℤ b +ℤ pos (gap a b)
gap_covers a b = omega int_laws

-- `f` is the integer part of `num / den`.
abbrev pub IsFloor : ℤ → ℤ → ℤ → Type 0
IsFloor num den f = (f *ℤ den ≤ℤ num) × (num <ℤ (f +ℤ pos 1) *ℤ den)

module _ (num den : ℤ) (above : pos 0 <ℤ den) where
  abbrev Lowered : ℤ → ℤ → Type 0
  Lowered f r = (r *ℤ den ≤ℤ num) × ((r ≡ f) ⊎ (num <ℤ (r +ℤ pos 1) *ℤ den))

  step_down : (f r : ℤ) → num <ℤ f *ℤ den → Lowered (f -ℤ pos 1) r → Lowered f r
  step_down f r high (low, inl same) =
      (low, inr (rw (same, plus_one (f -ℤ pos 1) den, less_one f den) (omega (int_laws, high))))
  step_down f r high (low, inr next) = (low, inr next)

  lower_lem : (k : ℕ) (f : ℤ) → f *ℤ den ≤ℤ num +ℤ pos k → Lowered f (lower k num den f)
  unfolding lower
  lower_lem zero f h = (omega (int_laws, h), inl refl)
  lower_lem (suc k) f h = elim (Bool-cases (ltb_ℤ num (f *ℤ den))) [
    | inl high ↦
        let above_num = ltb_ℤ→lt num (f *ℤ den) high in
        let next : (f -ℤ pos 1) *ℤ den ≤ℤ num +ℤ pos k =
          rw (less_one f den) (omega (int_laws, h, above)) in
        rw high
          (step_down f (lower k num den (f -ℤ pos 1)) above_num (lower_lem k (f -ℤ pos 1) next))
    | inr fits ↦ rw fits (ltb_ℤ→le num (f *ℤ den) fits, inl refl)
  ]

  lift_lem :
      (k : ℕ) (f : ℤ)
      → f *ℤ den ≤ℤ num
      → num ≤ℤ f *ℤ den +ℤ pos k
      → IsFloor num den (lift k num den f)
  unfolding lift
  lift_lem zero f low h = (low, rw (plus_one f den) (omega (int_laws, low, h, above)))
  lift_lem (suc k) f low h = elim (Bool-cases (leb_ℤ ((f +ℤ pos 1) *ℤ den) num)) [
    | inl fits ↦
        let up : (f +ℤ pos 1) *ℤ den ≤ℤ num = ground (arith, fits) in
        let left : num ≤ℤ (f +ℤ pos 1) *ℤ den +ℤ pos k =
          rw (plus_one f den) (omega (int_laws, h, above)) in
        rw fits (lift_lem k (f +ℤ pos 1) up left)
    | inr over ↦ rw over (low, ground (arith, over))
  ]

-- Where the denominator is above 0 and whatever the estimate is, the two loops that correct it end, and
-- what they leave is the integer part of the quotient: times the denominator it is no more than the
-- number, and one more is more.
pub whole_part-IsFloor :
    (estimate : ℤ → ℤ → ℤ) (num den : ℤ)
    → pos 0 <ℤ den
    → IsFloor num den (whole_part estimate num den)
unfolding whole_part
whole_part-IsFloor estimate num den above =
    let est = estimate num den in
    let low = lower (gap (est *ℤ den) num) num den est in
    let down = lower_lem num den above (gap (est *ℤ den) num) est (gap_covers (est *ℤ den) num) in
    lift_lem num den above (gap num (low *ℤ den)) low down.0 (gap_covers num (low *ℤ den))
