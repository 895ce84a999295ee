-- ===== src/Decimal/Tests.antt =====
-- A concrete rounding, half up and away from zero, that meets the laws of Decimal.
use construct_fin.Prelude.{
  ℕ, zero, suc, ◌<◌, ◌+◌, ◌*◌, ◌/◌, ◌^◌, ◌≤◌, ◌≡◌, refl, arith, ℤ, pos, negsuc, ◌*ℤ◌, ◌≤ℤ◌, ◌<ℤ◌,
  pos_part, neg_part, sub_ℕ,
}
use native.Mathlib.Nat.{pow-suc, div-eq_of_lt-le}
use construct_fin.Decimal.{Decimals, IsRounding, money}

-- Half up on a magnitude: a tie goes away from zero.
abbrev pub half : ℕ → ℕ → ℕ
half k n = (2 * n + 10 ^ k) / (2 * 10 ^ k)

abbrev pub round_half_up : ℕ → ℤ → ℤ
round_half_up k x = sub_ℕ (half k (pos_part x)) (half k (neg_part x))

abbrev pub round_quotient : ℤ → ℤ → ℤ
round_quotient (pos v) (pos q) = pos ((2 * v + q) / (2 * q))
round_quotient _ _ = pos 0

pow_pos : (k : ℕ) → 0 < 10 ^ k
pow_pos zero = omega arith
pow_pos (suc k) = rw (pow-suc 10 k) (omega (arith, pow_pos k))

half_mono : (n m p : ℕ) → 0 < p → n ≤ m → (2 * n + p) / (2 * p) ≤ (2 * m + p) / (2 * p)
half_mono n m p h le = grind arith

half_exact : (x p : ℕ) → 0 < p → (2 * (x * p) + p) / (2 * p) ≡ x
half_exact x p h = div-eq_of_lt-le (2 * p) (omega arith) (omega arith)

plain_mono : (k : ℕ) (x y : ℤ) → x ≤ℤ y → round_half_up k x ≤ℤ round_half_up k y
plain_mono k x y h =
    let up = half_mono (pos_part x) (pos_part y) (10 ^ k) (pow_pos k) (parts_up x y h) in
    let down = half_mono (neg_part y) (neg_part x) (10 ^ k) (pow_pos k) (parts_down x y h) in
    ground arith
  where
    parts_up : (a b : ℤ) → a ≤ℤ b → pos_part a ≤ pos_part b
    parts_up a b q = ground arith

    parts_down : (a b : ℤ) → a ≤ℤ b → neg_part b ≤ neg_part a
    parts_down a b q = ground arith

mul_parts :
    (x : ℤ) (p : ℕ)
    → (pos_part (x *ℤ pos p) ≡ pos_part x * p) × (neg_part (x *ℤ pos p) ≡ neg_part x * p)
unfolding ◌*ℤ◌
mul_parts (pos n) p = (ground arith, ground arith)
mul_parts (negsuc n) p = (ground arith, ground arith)

plain_exact : (k : ℕ) (x : ℤ) → round_half_up k (x *ℤ pos (10 ^ k)) ≡ x
plain_exact k x =
    let (up, down) = mul_parts x (10 ^ k) in
    rw
      (
        up,
        down,
        half_exact (pos_part x) (10 ^ k) (pow_pos k),
        half_exact (neg_part x) (10 ^ k) (pow_pos k),
      )
      (ground arith)

plain_quotient : (v q : ℤ) → pos 0 ≤ℤ v → pos 0 <ℤ q → pos 0 ≤ℤ round_quotient v q
plain_quotient (pos v) (pos q) h k = omega arith
plain_quotient (pos v) (negsuc q) h k = omega arith
plain_quotient (negsuc v) q h k = omega arith

abbrev pub plain : Decimals
plain = record { half_up = round_half_up; quotient = round_quotient }

pub plain-IsRounding : IsRounding plain
plain-IsRounding = record {
  mono = plain_mono;
  exact = plain_exact;
  quotient_nonneg = plain_quotient;
}

-- 2.345 and -2.345 to two digits.
rounds : (money plain 1 (pos 2345) ≡ pos 235) × (money plain 1 (negsuc 2344) ≡ negsuc 234)
unfolding money
rounds = (refl, refl)
