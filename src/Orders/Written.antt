-- ===== src/Orders/Written.antt =====
-- What a write on one line of an order keeps (apps/api/src/orders/order.service.ts).
use construct_fin.Prelude.{
  ℕ, ◌≡◌, ◌≢◌, refl, sym, ◌∙◌, inl, inr, Bool, true, false, List, [], ◌∷◌, ◌==◌, All, Bool-cases,
  ap, find, find_has, some, arith,
}
use mathlib.Core.Path.{subst}
use construct_fin.Orders.State.{OrderItem}
use construct_fin.Orders.Payments.{returned_value}
use construct_fin.Orders.Sound.{DistinctLines}
use construct_fin.Orders.Progress.{write_line}

pub written_all :
    (P : OrderItem → Type 0) (k : ℕ) (g : OrderItem → OrderItem) (is : List OrderItem)
    → ((i : OrderItem) → P i → P (g i))
    → All P is
    → All P (write_line k g is)
written_all P k g [] f h = tt
written_all P k g (i ∷ is) f (h, hs) = elim (Bool-cases (i.id == k)) [
  | inl here ↦ (rw here (f i h), written_all P k g is f hs)
  | inr away ↦ (rw away h, written_all P k g is f hs)
]

pub written_apart :
    (k : ℕ) (g : OrderItem → OrderItem) (is : List OrderItem)
    → ((i : OrderItem) → (g i).id ≡ i.id)
    → DistinctLines is
    → DistinctLines (write_line k g is)
written_apart k g [] same d = tt
written_apart k g (i ∷ is) same (fresh, d) =
    let far = written_all (λ j. j.id ≢ i.id) k g is (λ j h e. h (sym (same j) ∙ e)) fresh in
    elim (Bool-cases (i.id == k)) [
      | inl here ↦ rw here (
        subst (λ n. All (λ j. j.id ≢ n) (write_line k g is)) (sym (same i)) far,
        written_apart k g is same d,
      )
      | inr away ↦ rw away (far, written_apart k g is same d)
    ]

pub written_value :
    (k : ℕ) (g : OrderItem → OrderItem) (is : List OrderItem)
    → ((i : OrderItem) → (g i).returned_qty ≡ i.returned_qty)
    → ((i : OrderItem) → (g i).unit_price ≡ i.unit_price)
    → returned_value (write_line k g is) ≡ returned_value is
unfolding returned_value
written_value k g [] q p = refl
written_value k g (i ∷ is) q p = elim (Bool-cases (i.id == k)) [
  | inl here ↦ rw (here, q i, p i, written_value k g is q p) refl
  | inr away ↦ rw (away, written_value k g is q p) refl
]

written_away :
    (P : OrderItem → Type 0) (k : ℕ) (g : OrderItem → OrderItem) (is : List OrderItem)
    → All (λ j. j.id ≢ k) is
    → All P is
    → All P (write_line k g is)
written_away P k g [] f h = tt
written_away P k g (i ∷ is) (f, fs) (h, hs) = elim (Bool-cases (i.id == k)) [
  | inl here ↦ absurd (f (ground (arith, here)))
  | inr away ↦ (rw away h, written_away P k g is fs hs)
]

-- The line that was found is the one that is written.
pub written_found :
    (P : OrderItem → Type 0) (test : OrderItem → Bool) (g : OrderItem → OrderItem)
    (is : List OrderItem) {it : OrderItem}
    → DistinctLines is
    → find test is ≡ some it
    → All P is
    → P (g it)
    → All P (write_line it.id g is)
written_found P test g [] d e h q = cc
written_found P test g (i ∷ is) {it} (fresh, d) e (h, hs) q = elim (Bool-cases (test i)) [
  | inl hit ↦
      let same : i ≡ it = ground (arith, hit, e) in
      let far = subst (λ n. All (λ j. j.id ≢ n) is) (ap (λ x. x.id) same) fresh in
      let own : (i.id == it.id) ≡ true = ground (arith, ap (λ (x : OrderItem). x.id) same) in
      (rw own (subst (λ x. P (g x)) (sym same) q), written_away P it.id g is far hs)
  | inr miss ↦
      let there : find test is ≡ some it = ground (arith, miss, e) in
      let apart : it.id ≢ i.id = find_has test (λ j. j.id ≢ i.id) is fresh there in
      let away : (i.id == it.id) ≡ false = ground (arith, apart) in
      (rw away h, written_found P test g is d there hs q)
]
