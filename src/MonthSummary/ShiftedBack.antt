-- ===== src/MonthSummary/ShiftedBack.antt =====
-- A month that is shifted is so many months away, and shifting it back gives its text again (`shiftMonth`
-- of apps/api/src/reports/month-summary.calc.ts).
use construct_fin.Prelude.{
  ℕ, ◌+◌, ◌-◌, ◌*◌, ◌/◌, ◌%◌, ◌≤◌, ◌<◌, ◌≡◌, refl, sym, ap, ◌∙◌, some, arith, int_laws, ℤ, pos,
  negsuc, neg, ◌+ℤ◌, ◌-ℤ◌, ◌*ℤ◌, ◌≤ℤ◌, ◌<ℤ◌,
}
use mathlib.Core.Path.{subst}
use construct_fin.Text.{Text}
use construct_fin.MonthSummary.Months.{
  Month, month_parts, month_index, month_at, month_text, shift_parts, shift_month,
}
use construct_fin.MonthSummary.MonthTexts.{
  month, written, month_text-written, month_parts-written, Read, month_parts-Read,
}

index_of : (y k : ℕ) → 1 ≤ k → month_index (month y k) ≡ pos (y * 12 + (k - 1))
unfolding ◌*ℤ◌ ◌+ℤ◌ ◌-ℤ◌
index_of y k h = ground (arith, h)

month_at_nat : (j : ℕ) → month_at (pos j) ≡ month (j / 12) (j % 12 + 1)
unfolding ◌*ℤ◌ ◌+ℤ◌ ◌-ℤ◌
month_at_nat j =
    let e : pos j -ℤ pos (j / 12) *ℤ pos 12 +ℤ pos 1 ≡ pos (j % 12 + 1) = ground arith in
    ap (λ z. record { year = pos (j / 12); number = z }) e

shifted :
    (t : Text) (m : Month) (a : ℤ)
    → month_parts t ≡ some m
    → shift_month t a ≡ some (month_text (month_at (month_index m +ℤ a)))
unfolding shift_month
shifted t m a h = ap (λ p. shift_parts p a) h

-- Where the text was read and the month that it is shifted to has a year of four digits.
shifted_to :
    (t : Text) (m : Month) (a : ℤ) (j : ℕ)
    → month_parts t ≡ some m
    → month_index m +ℤ a ≡ pos j
    → 12000 ≤ j
    → j < 120000
    → shift_month t a ≡ some (written (j / 12) (j % 12 + 1))
shifted_to t m a j h to low high =
    shifted t m a h
    ∙ ap (λ z. some (month_text (month_at z))) to
    ∙ ap (λ n. some (month_text n)) (month_at_nat j)
    ∙ ap some (
        month_text-written (j / 12) (j % 12 + 1) (omega arith) (omega arith) (omega arith)
          (omega arith))

same_index : (j : ℕ) → pos (j / 12 * 12 + (j % 12 + 1 - 1)) ≡ pos j
same_index j = ap pos (omega arith)

natural : (x : ℤ) → pos 0 ≤ℤ x → (j : ℕ) × (x ≡ pos j)
natural (pos n) h = (n, refl)
natural (negsuc n) h = absurd (omega (arith, h))

back_index : (i j a : ℤ) → i +ℤ a ≡ j → j +ℤ neg a ≡ i
back_index i j a e = rw (← e) (omega int_laws)

by_parts :
    (y k j : ℕ) (a : ℤ)
    → 1 ≤ k
    → pos (y * 12 + (k - 1)) +ℤ a ≡ pos j
    → pos (j / 12) *ℤ pos 12 +ℤ pos (j % 12 + 1) ≡ pos y *ℤ pos 12 +ℤ pos k +ℤ a
unfolding ◌*ℤ◌ ◌+ℤ◌
by_parts y k j a h e = ground (arith, h, e)

-- What a shift by `a` makes of a text that stands for `m`: the text of the month that is `a` months away,
-- from which the shift back leads to the text.
abbrev pub ShiftedBy : Text → Month → ℤ → Text → Month → Type 0
ShiftedBy t m a u n =
    (shift_month t a ≡ some u)
    × (month_parts u ≡ some n)
    × (pos 1 ≤ℤ n.number)
    × (n.number ≤ℤ pos 12)
    × (n.year *ℤ pos 12 +ℤ n.number ≡ m.year *ℤ pos 12 +ℤ m.number +ℤ a)
    × (shift_month u (neg a) ≡ some t)

module _ (t : Text) (m : Month) (a : ℤ) (r : Read t m) (j : ℕ) (low : 12000 ≤ j) (high : j < 120000)
    (to : month_index m +ℤ a ≡ pos j) where
  target : Month
  target = month (j / 12) (j % 12 + 1)

  target_text : Text
  target_text = written (j / 12) (j % 12 + 1)

  target_read : month_parts target_text ≡ some target
  unfolding target target_text
  target_read =
      month_parts-written (j / 12) (j % 12 + 1) (omega arith) (omega arith) (omega arith)
        (omega arith)

  source_index : month_index m ≡ pos (r.year * 12 + (r.number - 1))
  source_index = ap month_index r.parts ∙ index_of r.year r.number r.first

  moved : pos (r.year * 12 + (r.number - 1)) +ℤ a ≡ pos j
  moved = ap (λ z. z +ℤ a) (sym source_index) ∙ to

  home : month_index target +ℤ neg a ≡ pos (r.year * 12 + (r.number - 1))
  unfolding target
  home =
      ap (λ z. z +ℤ neg a) (index_of (j / 12) (j % 12 + 1) (omega arith) ∙ same_index j)
      ∙ back_index (pos (r.year * 12 + (r.number - 1))) (pos j) a moved

  same_written :
      (y k : ℕ)
      → 1 ≤ k
      → k ≤ 12
      → written ((y * 12 + (k - 1)) / 12) ((y * 12 + (k - 1)) % 12 + 1) ≡ written y k
  same_written y k one twelve =
      let year : (y * 12 + (k - 1)) / 12 ≡ y = omega arith in
      let number : (y * 12 + (k - 1)) % 12 + 1 ≡ k = omega arith in
      ap (λ z. written z ((y * 12 + (k - 1)) % 12 + 1)) year ∙ ap (written y) number

  shifts_home : 1000 ≤ r.year → shift_month target_text (neg a) ≡ some t
  shifts_home old =
      shifted_to target_text target (neg a) (r.year * 12 + (r.number - 1)) target_read home
        (omega (arith, old)) (omega (arith, r.below, r.last, r.first))
      ∙ ap some (same_written r.year r.number r.first r.last ∙ sym (r.same old))

  shifts : month_parts t ≡ some m → 1000 ≤ r.year → (u : Text) × (n : Month) × ShiftedBy t m a u n
  shifts h old = (
    target_text,
    target,
    (
      shifts_there,
      target_read,
      first,
      last,
      subst
          (λ (z : Month).
            target.year *ℤ pos 12 +ℤ target.number ≡ z.year *ℤ pos 12 +ℤ z.number +ℤ a)
          (sym r.parts) distance,
      shifts_home old,
    ),
  )
    where
      shifts_there : shift_month t a ≡ some target_text
      shifts_there = unfold target_text in shifted_to t m a j h to low high

      first : pos 1 ≤ℤ target.number
      first = unfold target in omega arith

      last : target.number ≤ℤ pos 12
      last = unfold target in omega arith

      distance : target.year *ℤ pos 12 +ℤ target.number ≡ pos r.year *ℤ pos 12 +ℤ pos r.number +ℤ a
      distance = unfold target in by_parts r.year r.number j a r.first moved

-- A text `YYYY-MM` whose year is not below 1000 is shifted by any number of months that leads to a year
-- of four digits again: the answer is a text that is read as the month so many months away, with a
-- number from 1 to 12, and shifting the answer back by as much gives the text.
pub shift_month-back :
    (t : Text) (m : Month) (a : ℤ)
    → month_parts t ≡ some m
    → pos 1000 ≤ℤ m.year
    → pos 12000 ≤ℤ m.year *ℤ pos 12 +ℤ (m.number -ℤ pos 1) +ℤ a
    → m.year *ℤ pos 12 +ℤ (m.number -ℤ pos 1) +ℤ a <ℤ pos 120000
    → (u : Text) × (n : Month) × ShiftedBy t m a u n
shift_month-back t m a h old low high =
    let r = month_parts-Read t m h in
    let (j, to) = natural (month_index m +ℤ a) (omega (arith, low)) in
    let j_low = subst (λ z. pos 12000 ≤ℤ z) to low in
    let j_high = subst (λ z. z <ℤ pos 120000) to high in
    let year = subst (λ (n : Month). pos 1000 ≤ℤ n.year) r.parts old in
    shifts t m a r j (omega (arith, j_low)) (omega (arith, j_high)) to h (omega (arith, year))
