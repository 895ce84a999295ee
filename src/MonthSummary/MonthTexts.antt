-- ===== src/MonthSummary/MonthTexts.antt =====
-- The texts that `monthParts` reads and `shiftMonth` writes
-- (apps/api/src/reports/month-summary.calc.ts).
use construct_fin.Prelude.{
  Bool, ◌&&◌, ℕ, zero, suc, ◌+◌, ◌-◌, ◌*◌, ◌/◌, ◌%◌, ◌≤◌, ◌<◌, ◌≡◌, refl, sym, ap, ◌∙◌, inl, inr,
  true, some, [], ◌∷◌, ◌++◌, arith, pos, Bool-cases, ltb, ◌==◌,
}
use mathlib.Core.Path.{subst}
use construct_fin.Text.{Text, is_digit}
use construct_fin.MonthSummary.Months.{
  Month, is_month_number, month_parts, digits, decimal, pad_two, month_text,
}

-- The number that a text of digits stands for.
abbrev value : ℕ → Text → ℕ
value n [] = n
value n (c ∷ t) = value (n * 10 + (c - 48)) t

value-append : (n : ℕ) (t : Text) (c : ℕ) → value n (t ++ c ∷ []) ≡ value n t * 10 + (c - 48)
value-append n [] c = refl
value-append n (x ∷ t) c = value-append (n * 10 + (x - 48)) t c

digits_last : (fuel n : ℕ) → n < 10 → digits fuel n ≡ (48 + n) ∷ []
unfolding digits
digits_last zero n h = refl
digits_last (suc fuel) n h = ground (arith, h)

digits_more :
    (fuel n : ℕ) → 10 ≤ n → digits (suc fuel) n ≡ digits fuel (n / 10) ++ (48 + n % 10) ∷ []
unfolding digits
digits_more fuel n h = ground (arith, h)

-- The digits of a number stand for it, so that the fuel is enough.
value-digits : (fuel n : ℕ) → n ≤ fuel → value 0 (digits fuel n) ≡ n
value-digits zero n h = rw (digits_last zero n (omega arith)) (omega arith)
value-digits (suc fuel) n h = elim (Bool-cases (ltb n 10)) [
  | inl last ↦ rw (digits_last (suc fuel) n (ground (arith, last))) (omega arith)
  | inr more ↦
      let small : n / 10 ≤ fuel = ground (arith, more, h) in
      rw
        (
          digits_more fuel n (ground (arith, more)),
          value-append 0 (digits fuel (n / 10)) (48 + n % 10),
          value-digits fuel (n / 10) small,
        )
        (omega arith)
]

abbrev pub four : ℕ → Text
four y = (48 + y / 10 / 10 / 10) ∷ (48 + y / 10 / 10 % 10) ∷ (48 + y / 10 % 10) ∷ (48 + y % 10) ∷ []

four-digits : (fuel y : ℕ) → 1000 ≤ y → y < 10000 → digits (suc (suc (suc fuel))) y ≡ four y
four-digits fuel y low high =
    rw
      (
        digits_more (suc (suc fuel)) y (omega arith),
        digits_more (suc fuel) (y / 10) (omega arith),
        digits_more fuel (y / 10 / 10) (omega arith),
        digits_last fuel (y / 10 / 10 / 10) (omega arith),
      )
      refl

decimal-four : (y : ℕ) → 1000 ≤ y → y < 10000 → decimal (pos y) ≡ four y
unfolding decimal
decimal-four y low high =
    let fuel : y ≡ suc (suc (suc (y - 3))) = omega arith in
    subst (λ k. digits k y ≡ four y) (sym fuel) (four-digits (y - 3) y low high)

two_digits :
    (k : ℕ) → 1 ≤ k → k ≤ 12 → pad_two (decimal (pos k)) ≡ (48 + k / 10) ∷ (48 + k % 10) ∷ []
unfolding decimal
two_digits k low high = elim (Bool-cases (ltb k 10)) [
  | inl one ↦ rw (digits_last k k (ground (arith, one))) (ground (arith, one))
  | inr more ↦
      let fuel : k ≡ suc (k - 1) = ground (arith, low) in
      let ten : 10 ≤ k = ground (arith, more) in
      let both =
        digits_more (k - 1) k ten
        ∙ ap (λ t. t ++ (48 + k % 10) ∷ []) (digits_last (k - 1) (k / 10) (omega arith)) in
      rw (subst (λ f. digits f k ≡ (48 + k / 10) ∷ (48 + k % 10) ∷ []) (sym fuel) both) refl
]

abbrev pub month : ℕ → ℕ → Month
month y k = record { year = pos y; number = pos k }

abbrev pub written : ℕ → ℕ → Text
written y k = four y ++ 45 ∷ (48 + k / 10) ∷ (48 + k % 10) ∷ []

pub month_text-written :
    (y k : ℕ) → 1000 ≤ y → y < 10000 → 1 ≤ k → k ≤ 12 → month_text (month y k) ≡ written y k
unfolding month_text
month_text-written y k low high one twelve =
    rw (decimal-four y low high, two_digits k one twelve) refl

-- A text of seven characters is read where its digits are digits.
read :
    (p q r s e f : ℕ)
    → p < 10
    → q < 10
    → r < 10
    → s < 10
    → is_month_number (48 + e) (48 + f) ≡ true
    → month_parts ((48 + p) ∷ (48 + q) ∷ (48 + r) ∷ (48 + s) ∷ 45 ∷ (48 + e) ∷ (48 + f) ∷ [])
      ≡ some (month (p * 1000 + (q * 100 + (r * 10 + s))) (e * 10 + f))
unfolding month_parts
read p q r s e f hp hq hr hs number = ground (arith, hp, hq, hr, hs, number)

month_number : (k : ℕ) → 1 ≤ k → k ≤ 12 → is_month_number (48 + k / 10) (48 + k % 10) ≡ true
month_number k one twelve = ground (arith, one, twelve)

same_month : (y z k l : ℕ) → y ≡ z → k ≡ l → month y k ≡ month z l
same_month y z k l e h = cc

pub month_parts-written :
    (y k : ℕ) → 1000 ≤ y → y < 10000 → 1 ≤ k → k ≤ 12 → month_parts (written y k) ≡ some (month y k)
month_parts-written y k low high one twelve =
    read (y / 10 / 10 / 10) (y / 10 / 10 % 10) (y / 10 % 10) (y % 10) (k / 10) (k % 10)
      (omega arith) (omega arith) (omega arith) (omega arith) (month_number k one twelve)
    ∙ ap some (same_month _ y _ k (omega arith) (omega arith))

-- A text that was read is that of a year of four digits and of a month from 1 to 12.
pub record Read (t : Text) (m : Month) : Type 0 where
  pub year : ℕ
  pub number : ℕ
  pub parts : m ≡ month year number
  pub below : year < 10000
  pub first : 1 ≤ number
  pub last : number ≤ 12
  pub same : 1000 ≤ year → t ≡ written year number

same_text_of :
    (a b c d e f y k : ℕ)
    → a ≡ 48 + y / 10 / 10 / 10
    → b ≡ 48 + y / 10 / 10 % 10
    → c ≡ 48 + y / 10 % 10
    → d ≡ 48 + y % 10
    → e ≡ 48 + k / 10
    → f ≡ 48 + k % 10
    → a ∷ b ∷ c ∷ d ∷ 45 ∷ e ∷ f ∷ [] ≡ written y k
same_text_of a b c d e f y k h1 h2 h3 h4 h5 h6 = rw (h1, h2, h3, h4, h5, h6) refl

abbrev IsDigit : ℕ → Type 0
IsDigit c = (48 ≤ c) × (c ≤ 57)

is_digit-IsDigit : (c : ℕ) → is_digit c ≡ true → IsDigit c
is_digit-IsDigit c h = ground (arith, h)

both : (a b : Bool) → (a && b) ≡ true → (a ≡ true) × (b ≡ true)
both a b h = ground (arith, h)

number_of :
    (e f : ℕ)
    → is_month_number e f ≡ true
    → (48 ≤ e)
      × (e ≤ 57)
      × (48 ≤ f)
      × (f ≤ 57)
      × (1 ≤ (e - 48) * 10 + (f - 48))
      × ((e - 48) * 10 + (f - 48) ≤ 12)
number_of e f h = ground (arith, h)

seven :
    (a b c d e f : ℕ)
    → IsDigit a
    → IsDigit b
    → IsDigit c
    → IsDigit d
    → is_month_number e f ≡ true
    → Read (a ∷ b ∷ c ∷ d ∷ 45 ∷ e ∷ f ∷ []) (
        month
          ((a - 48) * 1000 + ((b - 48) * 100 + ((c - 48) * 10 + (d - 48))))
          ((e - 48) * 10 + (f - 48)))
seven a b c d e f (a1, a2) (b1, b2) (c1, c2) (d1, d2) n =
    let (e1, e2, f1, f2, low, high) = number_of e f n in
    record {
      year = (a - 48) * 1000 + ((b - 48) * 100 + ((c - 48) * 10 + (d - 48)));
      number = (e - 48) * 10 + (f - 48);
      parts = refl;
      below = omega arith;
      first = low;
      last = high;
      same = λ y.
          same_text_of a b c d e f _ _ (omega arith) (omega arith) (omega arith) (omega arith)
            (omega arith) (omega arith);
    }

pub month_parts-Read : (t : Text) (m : Month) → month_parts t ≡ some m → Read t m
unfolding month_parts
month_parts-Read [] m went = cc
month_parts-Read (a ∷ []) m went = cc
month_parts-Read (a ∷ b ∷ []) m went = cc
month_parts-Read (a ∷ b ∷ c ∷ []) m went = cc
month_parts-Read (a ∷ b ∷ c ∷ d ∷ []) m went = cc
month_parts-Read (a ∷ b ∷ c ∷ d ∷ h ∷ []) m went = cc
month_parts-Read (a ∷ b ∷ c ∷ d ∷ h ∷ e ∷ []) m went = cc
month_parts-Read (a ∷ b ∷ c ∷ d ∷ h ∷ e ∷ f ∷ g ∷ t) m went = cc
month_parts-Read (a ∷ b ∷ c ∷ d ∷ h ∷ e ∷ f ∷ []) m went =
    elim (Bool-cases (
      is_digit a
      && (is_digit b && (is_digit c && (is_digit d && (h == 45 && is_month_number e f)))))) [
        | inr off ↦ absurd (ground (arith, off, went))
        | inl on ↦
            let (da, on1) =
              both (is_digit a)
                (is_digit b && (is_digit c && (is_digit d && (h == 45 && is_month_number e f))))
                on in
            let (db, on2) =
              both (is_digit b) (is_digit c && (is_digit d && (h == 45 && is_month_number e f)))
                on1 in
            let (dc, on3) =
              both (is_digit c) (is_digit d && (h == 45 && is_month_number e f)) on2 in
            let (dd, on4) = both (is_digit d) (h == 45 && is_month_number e f) on3 in
            let (dash, number) = both (h == 45) (is_month_number e f) on4 in
            let minus : h ≡ 45 = ground (arith, dash) in
            let m' =
              month ((a - 48) * 1000 + ((b - 48) * 100 + ((c - 48) * 10 + (d - 48))))
                ((e - 48) * 10 + (f - 48)) in
            let parts : m' ≡ m = ground (arith, on, went) in
            subst (λ x. Read (a ∷ b ∷ c ∷ d ∷ x ∷ e ∷ f ∷ []) m) (sym minus)
              (subst (Read (a ∷ b ∷ c ∷ d ∷ 45 ∷ e ∷ f ∷ [])) parts (
                seven a b c d e f (is_digit-IsDigit a da) (is_digit-IsDigit b db)
                  (is_digit-IsDigit c dc) (is_digit-IsDigit d dd) number))
      ]
