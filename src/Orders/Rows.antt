-- ===== src/Orders/Rows.antt =====
-- How the calls of apps/api/src/orders/order.service.ts treat the rows: each writes the order that it
-- has loaded, and leaves the others alone. What is to hold of every order is a parameter.
use construct_fin.Prelude.{
  ℕ, ◌<◌, ◌≤◌, ◌≡◌, ◌≢◌, refl, sym, ◌∙◌, ap, inl, inr, Bool, true, false, Option, none, some, List,
  [], ◌∷◌, map, arith, ◌==◌, if◌then◌else◌, find, has, All, All-map, Bool-cases, Option-cases,
  find_passes, find_has,
}
use mathlib.Core.Path.{subst}
use construct_fin.Prelude.Result.{Result, ok, err}
use construct_fin.Orders.State.{Order, OrderError, Books}
use construct_fin.Orders.Calls.{Call, ◌>>=◌, ◌>>◌, throw_when, gets, modify, pure, or_throw}
use construct_fin.Orders.Repository.{is_live_order, find_order, lock_and_load, update_order}

-- A call that goes through from books with `P` ends in books with `Q`.
pub record Ensures {A : Type 0} (P : Books → Type 0) (m : Call A) (Q : A → Books → Type 0)
    : Type 0 where
  pub at : (a : Books) (r : A) (b : Books) → P a → m a ≡ ok (r, b) → Q r b

abbrev pub DistinctRows : List Order → Type 0
DistinctRows [] = Unit
DistinctRows (o ∷ os) = All (λ p. p.id ≢ o.id) os × DistinctRows os

-- The keys of an order and of its lines have been handed out.
abbrev pub Below : ℕ → Order → Type 0
Below n o = (o.id < n) × All (λ i. i.id < n) o.items

pub Below-le : (n k : ℕ) (o : Order) → n ≤ k → Below n o → Below k o
Below-le n k o le (h, hs) =
    (omega arith, All-map (λ i. i.id < n) (λ i. i.id < k) (λ i p. omega arith) o.items hs)

abbrev pub row_keys : List Order → List ℕ
row_keys os = map (λ o. o.id) os

-- Rules for a call that does one thing and goes on.
module _ {A B : Type 0} {P : Books → Type 0} {R : B → Books → Type 0} where
  pub and_then :
      (Q : A → Books → Type 0) (m : Call A) (f : A → Call B)
      → Ensures P m Q
      → ((r : A) → Ensures (Q r) (f r) R)
      → Ensures P (m >>= f) R
  unfolding ◌>>=◌
  and_then Q m f h k = record { at = λ a r b p e. go a r b p (m a) refl e }
    where
      go :
          (a : Books) (r : B) (b : Books)
          → P a
          → (x : Result OrderError (A × Books)) → m a ≡ x
          → elim x [ ok (v, b') ↦ f v b' | err q ↦ err q ] ≡ ok (r, b)
          → R r b
      go a r b p (ok (v, mid)) same e = (k v).at mid r b (h.at a v mid p same) e
      go a r b p (err q) same e = cc

module _ {B : Type 0} {P : Books → Type 0} {R : B → Books → Type 0} where
  pub after_guard :
      (bad : Bool) (e : OrderError) (m : Call B)
      → (bad ≡ false → Ensures P m R)
      → Ensures P (throw_when bad e >> m) R
  unfolding ◌>>=◌
  after_guard true e m k = record { at = λ a r b p e. absurd (ground (arith, e)) }
  after_guard false e m k = k refl

module _ {A B : Type 0} {P : Books → Type 0} {R : B → Books → Type 0} where
  pub after_or_throw :
      (e : OrderError) (o : Option A) (f : A → Call B)
      → ((v : A) → o ≡ some v → Ensures P (f v) R)
      → Ensures P (or_throw e o >>= f) R
  unfolding ◌>>=◌
  after_or_throw e none f k = record { at = λ a r b p e. absurd (ground (arith, e)) }
  after_or_throw e (some v) f k = k v refl

  pub after_gets :
      (g : Books → A) (f : A → Call B) → ((v : A) → Ensures P (f v) R) → Ensures P (gets g >>= f) R
  unfolding ◌>>=◌
  after_gets g f k = record { at = λ a r b p e. (k (g a)).at a r b p e }

pub after_guard_only :
    {P : Books → Type 0} (bad : Bool) (e : OrderError) → Ensures P (throw_when bad e) (λ _ b. P b)
after_guard_only true e = record { at = λ a r b p q. absurd (ground (arith, q)) }
after_guard_only {P} false e = record { at = λ a r b p q. subst P (ground (arith, q)) p }

pub weaken :
    {A : Type 0} {P : Books → Type 0} (Q R : A → Books → Type 0) (m : Call A)
    → Ensures P m Q
    → ((r : A) (b : Books) → Q r b → R r b)
    → Ensures P m R
weaken Q R m h k = record { at = λ a r b p e. k r b (h.at a r b p e) }

pub pure_ends :
    {A : Type 0} {P : Books → Type 0} (R : A → Books → Type 0) (x : A)
    → ((b : Books) → P b → R x b)
    → Ensures P (pure x) R
pure_ends {A} {P} R x k = record { at = λ a r b p e. subst (λ q. R q.0 q.1) (some_pair e) (k a p) }
  where
    some_pair : {y z : A × Books} → ◌≡◌ {A = Result OrderError (A × Books)} (ok y) (ok z) → y ≡ z
    some_pair e = cc

pub gets_ends :
    {A : Type 0} {P : Books → Type 0} (R : Books → Type 0) (g : Books → A)
    → ((b : Books) → P b → R b)
    → Ensures P (gets g) (λ _ b. R b)
gets_ends R g k = record { at = λ a r b p e. subst R (ground (arith, e)) (k a p) }

pub modify_ends :
    {P : Books → Type 0} (R : Books → Type 0) (g : Books → Books)
    → ((b : Books) → P b → R (g b))
    → Ensures P (modify g) (λ _ b. R b)
modify_ends R g k = record { at = λ a r b p e. subst R (ground (arith, e)) (k a p) }

pub gets_known :
    {A : Type 0} {P : Books → Type 0} (R : A → Books → Type 0) (g : Books → A)
    → ((b : Books) → P b → R (g b) b)
    → Ensures P (gets g) R
gets_known {A} R g k = record { at = λ a r b p e. subst (λ q. R q.0 q.1) (both e) (k a p) }
  where
    both : {y z : A × Books} → ◌≡◌ {A = Result OrderError (A × Books)} (ok y) (ok z) → y ≡ z
    both e = cc

-- A call that is made only where a test holds.
pub if_made :
    {A : Type 0} {P : Books → Type 0} (R : A → Books → Type 0) (test : Bool) (m : Call A) (x : A)
    → Ensures P m R
    → ((b : Books) → P b → R x b)
    → Ensures P (λ b. if test then m b else ok (x, b)) R
if_made R true m x h k = record { at = λ a r b p e. h.at a r b p e }
if_made R false m x h k = pure_ends R x k

-- A call that only looks.
abbrev pub LooksOnly : Call (Unit {0}) → Type 0
LooksOnly m = (a b : Books) (r : Unit {0}) → m a ≡ ok (r, b) → b ≡ a

pub after_check :
    {B : Type 0} {P : Books → Type 0} {R : B → Books → Type 0} (m : Call (Unit {0})) (f : Call B)
    → LooksOnly m
    → Ensures P f R
    → Ensures P (m >> f) R
after_check {B} {P} {R} m f looks k =
    and_then (λ _. P) m (λ _. f) (record { at = λ a r b p e. subst P (sym (looks a b r e)) p })
      (λ _. k)

module _ (S : Order → Type 0) where
  pub record Rows (b : Books) : Type 0 where
    pub sound : All S b.orders
    pub distinct : DistinctRows b.orders
    pub below : All (Below b.next_id) b.orders

  -- The row with the key `id` is `o`; the others are as they should be.
  abbrev pub OthersSound : ℕ → Order → Order → Type 0
  OthersSound id o r = if r.id == id then r ≡ o else S r

  pub record AtRow (id : ℕ) (o : Order) (b : Books) : Type 0 where
    pub rows : All (OthersSound id o) b.orders
    pub distinct : DistinctRows b.orders
    pub below : All (Below b.next_id) b.orders
    pub key : o.id ≡ id
    pub own : Below b.next_id o
    pub present : has id (row_keys b.orders) ≡ true

  others :
      (id : ℕ) (o : Order) (os : List Order)
      → All (λ p. p.id ≢ id) os
      → All S os
      → All (OthersSound id o) os
  others id o [] f h = tt
  others id o (p ∷ os) (f, fs) (h, hs) = (ground (arith, f, h), others id o os fs hs)

  loaded_rows :
      (ws id : ℕ) (os : List Order) {o : Order}
      → DistinctRows os
      → All S os
      → find (is_live_order ws id) os ≡ some o
      → All (OthersSound id o) os
  loaded_rows ws id [] d h e = cc
  loaded_rows ws id (p ∷ os) {o} (fresh, d) (h, hs) e = elim (Bool-cases (is_live_order ws id p)) [
    | inl here ↦
        let same : p ≡ o = ground (arith, here, e) in
        let key : p.id ≡ id = ground (arith, here) in
        (
          ground (arith, key, same),
          others id o os (subst (λ k. All (λ q. q.id ≢ k) os) key fresh) hs,
        )
    | inr away ↦
        let there : find (is_live_order ws id) os ≡ some o = ground (arith, away, e) in
        let keys = find_has (is_live_order ws id) (λ q. q.id ≢ p.id) os fresh there in
        let passed = find_passes (is_live_order ws id) os there in
        (ground (arith, keys, passed, h), loaded_rows ws id os d hs there)
  ]

  loaded_key :
      (ws id : ℕ) (os : List Order) {o : Order}
      → find (is_live_order ws id) os ≡ some o
      → has id (row_keys os) ≡ true
  loaded_key ws id [] e = cc
  loaded_key ws id (p ∷ os) {o} e = elim (Bool-cases (is_live_order ws id p)) [
    | inl here ↦ ground (arith, here)
    | inr away ↦
        let rest : has id (row_keys os) ≡ true =
          loaded_key ws id os {o = o} (ground (arith, away, e)) in
        ground (arith, rest)
  ]

  loaded_row :
      (ws id : ℕ) (a : Books) {o : Order}
      → Rows a
      → find_order ws id a ≡ some o
      → o.id ≡ id
      → AtRow id o a
  unfolding find_order
  loaded_row ws id a p found key = record {
    rows = loaded_rows ws id a.orders p.distinct p.sound found;
    distinct = p.distinct;
    below = p.below;
    key = key;
    own = find_has (is_live_order ws id) (Below a.next_id) a.orders p.below found;
    present = loaded_key ws id a.orders found;
  }

  -- The order that the call loads is known.
  pub after_load_of :
      {B : Type 0} {R : B → Books → Type 0} (ws id : ℕ) (o : Order) (f : Order → Call B)
      → (S o → o.id ≡ id → o.workspace ≡ ws → o.deleted ≡ false → Ensures (AtRow id o) (f o) R)
      → Ensures (λ b. Rows b × (find_order ws id b ≡ some o)) (lock_and_load ws id >>= f) R
  unfolding ◌>>=◌ lock_and_load find_order
  after_load_of ws id o f k = record {
    at = λ a r b (p, found) e.
        let passed = find_passes (is_live_order ws id) a.orders found in
        let key : o.id ≡ id = ground (arith, passed) in
        (k (find_has (is_live_order ws id) S a.orders p.sound found) key (ground (arith, passed))
            (ground (arith, passed))).at
          a r b (loaded_row ws id a p found key) (ground (arith, found, e));
  }

  pub after_load :
      {B : Type 0} {R : B → Books → Type 0} (ws id : ℕ) (f : Order → Call B)
      → ((o : Order) → S o → o.id ≡ id → o.deleted ≡ false → Ensures (AtRow id o) (f o) R)
      → Ensures Rows (lock_and_load ws id >>= f) R
  unfolding ◌>>=◌ lock_and_load find_order
  after_load ws id f k = record {
    at = λ a r b p e. elim (Option-cases (find_order ws id a)) [
      | inl missing ↦ absurd (ground (arith, missing, e))
      | inr (o, found) ↦
          let passed = find_passes (is_live_order ws id) a.orders found in
          let key : o.id ≡ id = ground (arith, passed) in
          (k o (find_has (is_live_order ws id) S a.orders p.sound found) key
              (ground (arith, passed))).at
            a r b (loaded_row ws id a p found key) (ground (arith, found, e))
    ];
  }

  itself : (id : ℕ) (o : Order) → o.id ≡ id → OthersSound id o o
  itself id o key = elim (Bool-cases (o.id == id)) [
    | inl here ↦ rw here refl
    | inr away ↦ absurd (ground (arith, away, key))
  ]

  -- The order that was loaded is written.
  updated_rows :
      (id : ℕ) (o : Order) (f : Order → Order) (os : List Order)
      → o.id ≡ id
      → (f o).id ≡ o.id
      → All (OthersSound id o) os
      → All (OthersSound id (f o)) (map (λ p. if p.id == id then f p else p) os)
  updated_rows id o f [] key same h = tt
  updated_rows id o f (p ∷ os) key same (h, hs) = elim (Bool-cases (p.id == id)) [
    | inl here ↦
        let own : p ≡ o = ground (arith, here, h) in
        let whole = subst (OthersSound id (f o)) (ap f (sym own)) (itself id (f o) (same ∙ key)) in
        (rw here whole, updated_rows id o f os key same hs)
    | inr away ↦ (rw away (ground (arith, away, h)), updated_rows id o f os key same hs)
  ]

  -- A map that keeps the keys keeps them apart.
  mapped_keys :
      (k : ℕ) (g : Order → Order) (os : List Order)
      → ((p : Order) → (g p).id ≡ p.id)
      → All (λ p. p.id ≢ k) os
      → All (λ p. p.id ≢ k) (map g os)
  mapped_keys k g [] same h = tt
  mapped_keys k g (p ∷ os) same (h, hs) = ((λ e. h (sym (same p) ∙ e)), mapped_keys k g os same hs)

  mapped_row_keys :
      (g : Order → Order) (os : List Order)
      → ((p : Order) → (g p).id ≡ p.id)
      → row_keys (map g os) ≡ row_keys os
  mapped_row_keys g [] same = refl
  mapped_row_keys g (p ∷ os) same = rw (same p, mapped_row_keys g os same) refl

  mapped_distinct :
      (g : Order → Order) (os : List Order)
      → ((p : Order) → (g p).id ≡ p.id)
      → DistinctRows os
      → DistinctRows (map g os)
  mapped_distinct g [] same d = tt
  mapped_distinct g (p ∷ os) same (fresh, d) = (
    subst (λ k. All (λ q. q.id ≢ k) (map g os)) (sym (same p)) (mapped_keys p.id g os same fresh),
    mapped_distinct g os same d,
  )

  mapped-Below :
      (n id : ℕ) (o : Order) (f : Order → Order) (os : List Order)
      → Below n (f o)
      → All (OthersSound id o) os
      → All (Below n) os
      → All (Below n) (map (λ p. if p.id == id then f p else p) os)
  mapped-Below n id o f [] own h b = tt
  mapped-Below n id o f (p ∷ os) own (h, hs) (b, bs) = elim (Bool-cases (p.id == id)) [
    | inl here ↦
        let same : p ≡ o = ground (arith, here, h) in
        (rw here (subst (λ q. Below n (f q)) (sym same) own), mapped-Below n id o f os own hs bs)
    | inr away ↦ (rw away b, mapped-Below n id o f os own hs bs)
  ]

  same_key :
      (id : ℕ) (f : Order → Order)
      → ((p : Order) → (f p).id ≡ p.id)
      → (p : Order) → (if p.id == id then f p else p).id ≡ p.id
  same_key id f same p = elim (Bool-cases (p.id == id)) [
    | inl here ↦ rw here (same p)
    | inr away ↦ rw away refl
  ]

  pub write_row :
      (id : ℕ) (o : Order) (f : Order → Order) (b : Books)
      → ((p : Order) → (f p).id ≡ p.id)
      → Below b.next_id (f o)
      → AtRow id o b
      → AtRow id (f o) (update_order id f b)
  unfolding update_order
  write_row id o f b same own v = record {
    rows = updated_rows id o f b.orders v.key (same o) v.rows;
    distinct = mapped_distinct _ b.orders (same_key id f same) v.distinct;
    below = mapped-Below b.next_id id o f b.orders own v.rows v.below;
    key = same o ∙ v.key;
    own = own;
    present =
        rw (mapped_row_keys (λ p. if p.id == id then f p else p) b.orders (same_key id f same))
          v.present;
  }

  found_in :
      (ws id : ℕ) (o : Order) (os : List Order)
      → o.id ≡ id
      → o.workspace ≡ ws
      → o.deleted ≡ false
      → All (OthersSound id o) os
      → has id (row_keys os) ≡ true
      → find (is_live_order ws id) os ≡ some o
  found_in ws id o [] key home live h e = absurd (ground (arith, e))
  found_in ws id o (p ∷ os) key home live (h, hs) e = elim (Bool-cases (p.id == id)) [
    | inl here ↦
        let own : p ≡ o = ground (arith, here, h) in
        subst (λ q. find (is_live_order ws id) (q ∷ os) ≡ some o) (sym own)
          (ground (arith, key, home, live))
    | inr away ↦
        let rest = found_in ws id o os key home live hs (ground (arith, away, e)) in
        ground (arith, away, rest)
  ]

  lost_in :
      (ws id : ℕ) (o : Order) (os : List Order)
      → o.deleted ≡ true
      → All (OthersSound id o) os
      → find (is_live_order ws id) os ≡ none
  lost_in ws id o [] dead h = refl
  lost_in ws id o (p ∷ os) dead (h, hs) = elim (Bool-cases (p.id == id)) [
    | inl here ↦
        let own : p ≡ o = ground (arith, here, h) in
        let gone : p.deleted ≡ true = ap (λ (q : Order). q.deleted) own ∙ dead in
        let rest = lost_in ws id o os dead hs in ground (arith, gone, rest)
    | inr away ↦ let rest = lost_in ws id o os dead hs in ground (arith, away, rest)
  ]

  -- The order that is written is the one that a later call finds, unless it is deleted.
  pub found_again :
      (ws id : ℕ) (o : Order) (b : Books)
      → o.workspace ≡ ws
      → o.deleted ≡ false
      → AtRow id o b
      → find_order ws id b ≡ some o
  unfolding find_order
  found_again ws id o b home live v = found_in ws id o b.orders v.key home live v.rows v.present

  pub lost :
      (ws id : ℕ) (o : Order) (b : Books)
      → o.deleted ≡ true
      → AtRow id o b
      → find_order ws id b ≡ none
  unfolding find_order
  lost ws id o b dead v = lost_in ws id o b.orders dead v.rows

  -- Nothing is left to write: all orders are as they should be.
  settled_rows : (id : ℕ) (o : Order) (os : List Order) → S o → All (OthersSound id o) os → All S os
  settled_rows id o [] s h = tt
  settled_rows id o (p ∷ os) s (h, hs) = elim (Bool-cases (p.id == id)) [
    | inl here ↦
        let same : p ≡ o = ground (arith, here, h) in
        (subst S (sym same) s, settled_rows id o os s hs)
    | inr away ↦ (ground (arith, away, h), settled_rows id o os s hs)
  ]

  pub settle_row : (id : ℕ) (o : Order) (b : Books) → S o → AtRow id o b → Rows b
  settle_row id o b s v = record {
    sound = settled_rows id o b.orders s v.rows;
    distinct = v.distinct;
    below = v.below;
  }
