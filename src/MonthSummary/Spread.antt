-- ===== src/MonthSummary/Spread.antt =====
-- `largestRemainder` (apps/api/src/reports/month-summary.calc.ts) meets its target.
use construct_fin.Prelude.{
  ℕ, zero, suc, ◌+◌, ◌-◌, ◌%◌, ◌<◌, ◌≤◌, length, ◌≡◌, refl, sym, ◌∙◌, ap, inl, inr, some, List, [],
  ◌∷◌, map, arith, int_laws, ℤ, pos, negsuc, neg, ◌+ℤ◌, ◌-ℤ◌, ltb_ℤ, sum_by, All, All-map_of,
  Bool-cases,
}
use mathlib.Core.Path.{subst}
use construct_fin.Sorting.{sort, All-sort, length-sort}
use construct_fin.MonthSummary.Remainders.{
  RemainderRow, by_remainder, add_at, place, give, take_back, settle_diff, remainder_rows, spread,
  largest_remainder,
}

abbrev pub total_of : List ℤ → ℤ
total_of xs = sum_by (λ x. x) xs

add_at-total :
    (i : ℕ) (v : ℤ) (xs : List ℤ) → i < length xs → total_of (add_at i v xs) ≡ total_of xs +ℤ v
add_at-total i v [] h = absurd (omega (arith, h))
add_at-total zero v (x ∷ xs) h = omega int_laws
add_at-total (suc i) v (x ∷ xs) h = rw (add_at-total i v xs (omega (arith, h))) (omega int_laws)

length-add_at : (i : ℕ) (v : ℤ) (xs : List ℤ) → length (add_at i v xs) ≡ length xs
length-add_at i v [] = refl
length-add_at zero v (x ∷ xs) = refl
length-add_at (suc i) v (x ∷ xs) = ap suc (length-add_at i v xs)

place_in :
    (P : ℕ → Type 0) (order : List ℕ) (k : ℕ) → All P order → k < length order → P (place order k)
place_in P [] k a h = absurd (omega (arith, h))
place_in P (i ∷ is) zero (a, as') h = a
place_in P (i ∷ is) (suc k) (a, as') h = place_in P is k as' (omega (arith, h))

module _ (order : List ℕ) (some_order : 0 < length order) where
  abbrev Inside : List ℤ → Type 0
  Inside out = All (λ i. i < length out) order

  still-Inside : (i : ℕ) (v : ℤ) (out : List ℤ) → Inside out → Inside (add_at i v out)
  still-Inside i v out h = subst (λ n. All (λ j. j < n) order) (sym (length-add_at i v out)) h

  give-total :
      (n k : ℕ) (out : List ℤ) → Inside out → total_of (give n k order out) ≡ total_of out +ℤ pos n
  unfolding give
  give-total zero k out h = omega int_laws
  give-total (suc n) k out h =
      let i = place order (k % length order) in
      let there : i < length out =
        place_in (λ j. j < length out) order (k % length order) h (omega (arith, some_order)) in
      give-total n (suc k) (add_at i (pos 1) out) (still-Inside i (pos 1) out h)
      ∙ rw (add_at-total i (pos 1) out there) (omega int_laws)

  take_back-total :
      (n k : ℕ) (out : List ℤ)
      → Inside out
      → total_of (take_back n k order out) ≡ total_of out -ℤ pos n
  unfolding take_back
  take_back-total zero k out h = omega int_laws
  take_back-total (suc n) k out h =
      let at = length order - 1 - k % length order in
      let i = place order at in
      let there : i < length out =
        place_in (λ j. j < length out) order at h (omega (arith, some_order)) in
      take_back-total n (suc k) (add_at i (neg (pos 1)) out) (still-Inside i (neg (pos 1)) out h)
      ∙ rw (add_at-total i (neg (pos 1)) out there) (omega int_laws)

  settle_diff-total :
      (diff : ℤ) (out : List ℤ)
      → Inside out
      → total_of (settle_diff diff order out) ≡ total_of out +ℤ diff
  settle_diff-total (pos n) out h = give-total n 0 out h
  settle_diff-total (negsuc n) out h = take_back-total (suc n) 0 out h ∙ omega int_laws

module _ (estimate : ℤ → ℤ → ℤ) (den : ℤ) where
  length-remainder_rows :
      (i : ℕ) (nums : List ℤ) → length (remainder_rows estimate i nums den) ≡ length nums
  unfolding remainder_rows
  length-remainder_rows i [] = refl
  length-remainder_rows i (num ∷ nums) = ap suc (length-remainder_rows (suc i) nums)

  row_indices :
      (n i : ℕ) (nums : List ℤ)
      → i + length nums ≤ n
      → All (λ r. r.index < n) (remainder_rows estimate i nums den)
  unfolding remainder_rows
  row_indices n i [] h = tt
  row_indices n i (num ∷ nums) h = (omega (arith, h), row_indices n (suc i) nums (omega (arith, h)))

length-map : {A B : Type 0} (f : A → B) (xs : List A) → length (map f xs) ≡ length xs
length-map f [] = refl
length-map f (x ∷ xs) = ap suc (length-map f xs)

spread-total :
    (estimate : ℤ → ℤ → ℤ) (num : ℤ) (nums : List ℤ) (target den : ℤ)
    → total_of (spread estimate (num ∷ nums) target den) ≡ target
unfolding spread
spread-total estimate num nums target den =
    let rows = remainder_rows estimate 0 (num ∷ nums) den in
    let floors = map (λ (r : RemainderRow). r.whole) rows in
    let order = map (λ (r : RemainderRow). r.index) (sort by_remainder rows) in
    let long : length rows ≡ suc (length nums) =
      length-remainder_rows estimate den 0 (num ∷ nums) in
    let width : length floors ≡ length rows = length-map _ rows in
    let some_order : 0 < length order =
      rw
        (
          length-map (λ (r : RemainderRow). r.index) (sort by_remainder rows),
          length-sort by_remainder rows,
          long,
        )
        (omega arith) in
    let inside : All (λ i. i < length floors) order =
      All-map_of (λ (r : RemainderRow). r.index) (λ i. i < length floors) (sort by_remainder rows)
        (All-sort by_remainder (λ r. r.index < length floors) rows
          (row_indices estimate den (length floors) 0 (num ∷ nums) (omega (arith, width, long)))) in
    settle_diff-total order some_order (target -ℤ total_of floors) floors inside ∙ omega int_laws

-- Where the largest remainder method answers, for at least one number, its answers add up to the target
-- exactly: whatever the numbers, their signs and the target are, and whatever the estimates of the
-- quotients were.
pub largest_remainder-total :
    (estimate : ℤ → ℤ → ℤ) (num : ℤ) (nums : List ℤ) (target den : ℤ) (out : List ℤ)
    → largest_remainder estimate (num ∷ nums) target den ≡ some out
    → total_of out ≡ target
unfolding largest_remainder
largest_remainder-total estimate num nums target den out e = elim (Bool-cases (ltb_ℤ (pos 0) den)) [
  | inl above ↦
      let same : spread estimate (num ∷ nums) target den ≡ out = ground (arith, above, e) in
      ap total_of (sym same) ∙ spread-total estimate num nums target den
  | inr not_so ↦ absurd (ground (arith, not_so, e))
]
