-- ===== src/Orders/Progress.antt =====
-- A loop over the lines of an order that writes each line by its key, as in `finalize` and
-- `reverseFinalization` (apps/api/src/orders/order.service.ts). `Agree` is what the line that was read
-- has in common with the row that is written, and `Goal` is what the write is to achieve.
use construct_fin.Prelude.{
  ℕ, ◌≡◌, ◌≢◌, ◌⊎◌, refl, sym, ◌∙◌, inl, inr, true, false, ◌||◌, List, [], ◌∷◌, map, arith, ◌==◌,
  if◌then◌else◌, has, All, All-map, Bool-cases, leb_ℤ, pos,
}
use construct_fin.Sorting.{Comparator, insert, sort, All-sort}
use construct_fin.Orders.State.{OrderItem}
use construct_fin.Orders.Sound.{DistinctLines}

abbrev pub keys_of : List OrderItem → List ℕ
keys_of is = map (λ i. i.id) is

abbrev pub write_line : ℕ → (OrderItem → OrderItem) → List OrderItem → List OrderItem
write_line k g is = map (λ i. if i.id == k then g i else i) is

module _ (compare : Comparator OrderItem) where
  has-insert :
      (k : ℕ) (x : OrderItem) (is : List OrderItem)
      → has k (keys_of (insert compare x is)) ≡ (k == x.id || has k (keys_of is))
  unfolding insert
  has-insert k x [] = refl
  has-insert k x (i ∷ is) = elim (Bool-cases (leb_ℤ (compare x i) (pos 0))) [
    | inl first ↦ rw first refl
    | inr later ↦ rw (later, has-insert k x is) (ground arith)
  ]

  -- The order in which the lines are taken changes none of the keys.
  has-sort : (k : ℕ) (is : List OrderItem) → has k (keys_of (sort compare is)) ≡ has k (keys_of is)
  unfolding sort
  has-sort k [] = refl
  has-sort k (i ∷ is) = rw (has-insert k i (sort compare is), has-sort k is) refl

own_keys :
    (is all : List OrderItem)
    → ((k : ℕ) → has k (keys_of is) ≡ true → has k (keys_of all) ≡ true)
    → All (λ i. has i.id (keys_of all) ≡ true) is
own_keys [] all h = tt
own_keys (i ∷ is) all h = (h i.id (ground arith), own_keys is all (λ k e. h k (ground (arith, e))))

module _ (Agree : OrderItem → OrderItem → Type 0) (Goal : OrderItem → Type 0) where
  -- A write that achieves the goal on the row that it meets, and keeps what other reads rely on.
  pub record Step (it : OrderItem) (g : OrderItem → OrderItem) : Type 0 where
    pub key : (i : OrderItem) → (g i).id ≡ i.id
    pub reach : (i : OrderItem) → Agree it i → Goal (g i)
    pub keep : (jt i : OrderItem) → Agree it i → Agree jt i → Agree jt (g i)

  pub record Progress (left is : List OrderItem) : Type 0 where
    pub goal : All (λ i. Goal i ⊎ (has i.id (keys_of left) ≡ true)) is
    pub agree : All (λ it. All (λ i. i.id ≡ it.id → Agree it i) is) left

  pub finished : (is : List OrderItem) → All (λ i. Goal i ⊎ (has i.id [] ≡ true)) is → All Goal is
  finished [] h = tt
  finished (i ∷ is) (inl g, h) = (g, finished is h)
  finished (i ∷ is) (inr e, h) = absurd (ground (arith, e))

  advance_goal :
      (it : OrderItem) (left : List OrderItem) (g : OrderItem → OrderItem) (is : List OrderItem)
      → Step it g
      → All (λ i. i.id ≡ it.id → Agree it i) is
      → All (λ i. Goal i ⊎ (has i.id (keys_of (it ∷ left)) ≡ true)) is
      → All (λ i. Goal i ⊎ (has i.id (keys_of left) ≡ true)) (write_line it.id g is)
  advance_goal it left g [] st a h = tt
  advance_goal it left g (i ∷ is) st (a, as') (h, hs) = elim (Bool-cases (i.id == it.id)) [
    | inl here ↦
        rw here (inl (st.reach i (a (ground (arith, here)))), advance_goal it left g is st as' hs)
    | inr away ↦ rw away (still h away, advance_goal it left g is st as' hs)
  ]
    where
      still :
          (Goal i ⊎ (has i.id (keys_of (it ∷ left)) ≡ true))
          → (i.id == it.id) ≡ false
          → Goal i ⊎ (has i.id (keys_of left) ≡ true)
      still (inl q) away = inl q
      still (inr e) away = inr (ground (arith, e, away))

  advance_agree :
      (it jt : OrderItem) (g : OrderItem → OrderItem) (is : List OrderItem)
      → Step it g
      → All (λ i. i.id ≡ it.id → Agree it i) is
      → All (λ i. i.id ≡ jt.id → Agree jt i) is
      → All (λ i. i.id ≡ jt.id → Agree jt i) (write_line it.id g is)
  advance_agree it jt g [] st a h = tt
  advance_agree it jt g (i ∷ is) st (a, as') (h, hs) = elim (Bool-cases (i.id == it.id)) [
    | inl here ↦ (
      rw here (λ e. st.keep jt i (a (ground (arith, here))) (h (sym (st.key i) ∙ e))),
      advance_agree it jt g is st as' hs,
    )
    | inr away ↦ (rw away h, advance_agree it jt g is st as' hs)
  ]

  advance_all :
      (it : OrderItem) (g : OrderItem → OrderItem) (is left : List OrderItem)
      → Step it g
      → All (λ i. i.id ≡ it.id → Agree it i) is
      → All (λ jt. All (λ i. i.id ≡ jt.id → Agree jt i) is) left
      → All (λ jt. All (λ i. i.id ≡ jt.id → Agree jt i) (write_line it.id g is)) left
  advance_all it g is [] st a h = tt
  advance_all it g is (jt ∷ left) st a (h, hs) =
      (advance_agree it jt g is st a h, advance_all it g is left st a hs)

  pub advance :
      (it : OrderItem) (left is : List OrderItem) (g : OrderItem → OrderItem)
      → Step it g
      → Progress (it ∷ left) is
      → Progress left (write_line it.id g is)
  advance it left is g st p = record {
    goal = advance_goal it left g is st p.agree.0 p.goal;
    agree = advance_all it g is left st p.agree.0 p.agree.1;
  }

  stay_goal :
      (it : OrderItem) (left is : List OrderItem)
      → ((i : OrderItem) → Agree it i → Goal i)
      → All (λ i. i.id ≡ it.id → Agree it i) is
      → All (λ i. Goal i ⊎ (has i.id (keys_of (it ∷ left)) ≡ true)) is
      → All (λ i. Goal i ⊎ (has i.id (keys_of left) ≡ true)) is
  stay_goal it left [] f a h = tt
  stay_goal it left (i ∷ is) f (a, as') (h, hs) = (
    elim h [
      | inl q ↦ inl q
      | inr e ↦ elim (Bool-cases (i.id == it.id)) [
        | inl here ↦ inl (f i (a (ground (arith, here))))
        | inr away ↦ inr (ground (arith, e, away))
      ]
    ],
    stay_goal it left is f as' hs,
  )

  -- A line that is as it is to be needs no write.
  pub stay :
      (it : OrderItem) (left is : List OrderItem)
      → ((i : OrderItem) → Agree it i → Goal i)
      → Progress (it ∷ left) is
      → Progress left is
  stay it left is f p = record { goal = stay_goal it left is f p.agree.0 p.goal; agree = p.agree.1 }

  -- Where no two lines have one key, a line agrees with the row of its key as it agrees with itself.
  apart_lines :
      (it : OrderItem) (is : List OrderItem)
      → All (λ j. j.id ≢ it.id) is
      → All (λ i. i.id ≡ it.id → Agree it i) is
  apart_lines it [] h = tt
  apart_lines it (i ∷ is) (h, hs) = ((λ e. absurd (h e)), apart_lines it is hs)

  under_head :
      (i : OrderItem) (is left : List OrderItem)
      → All (λ it. it.id ≢ i.id) left
      → All (λ it. All (λ j. j.id ≡ it.id → Agree it j) is) left
      → All (λ it. All (λ j. j.id ≡ it.id → Agree it j) (i ∷ is)) left
  under_head i is [] f h = tt
  under_head i is (it ∷ left) (f, fs) (h, hs) =
      (((λ e. absurd (f (sym e))), h), under_head i is left fs hs)

  alike :
      (is : List OrderItem)
      → DistinctLines is
      → All (λ i. Agree i i) is
      → All (λ it. All (λ i. i.id ≡ it.id → Agree it i) is) is
  alike [] d h = tt
  alike (i ∷ is) (fresh, d) (h, hs) =
      (((λ e. h), apart_lines i is fresh), under_head i is is fresh (alike is d hs))

  pub start :
      (compare : Comparator OrderItem) (is : List OrderItem)
      → DistinctLines is
      → All (λ i. Agree i i) is
      → Progress (sort compare is) is
  start compare is d h = record {
    goal =
        All-map _ (λ i. Goal i ⊎ (has i.id (keys_of (sort compare is)) ≡ true))
          (λ i e. inr (has-sort compare i.id is ∙ e)) is (own_keys is is (λ k e. e));
    agree = All-sort compare _ is (alike is d h);
  }
