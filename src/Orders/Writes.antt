-- ===== src/Orders/Writes.antt =====
-- The writes of apps/api/src/orders/order.service.ts, one rule for each, on an order that is loaded.
use construct_fin.Prelude.{
  ℕ, suc, ◌+◌, ◌<◌, ◌≤◌, ◌≡◌, ◌⊎◌, refl, sym, inl, inr, Bool, true, false, some, List, [], ◌∷◌, map,
  ◌==◌, if◌then◌else◌, Bool-cases, arith, find, has, All, All-map, Option-cases,
}
use mathlib.Core.Path.{subst}
use construct_fin.Prelude.Result.{ok, Result-cases}
use construct_fin.Warehouse.State
use construct_fin.Warehouse.Stock.{is_active}
use construct_fin.Orders.State.{Order, OrderItem, OrderTx, OrderAction, Books}
use construct_fin.Orders.Calls.{Call, ◌>>=◌, ◌>>◌, unless, modify, on_stock, hand_out}
use construct_fin.Orders.Repository.{
  find_order, update_order, update_item, create_order_tx, record_order_audit, assert_order_account,
}
use construct_fin.Orders.Rows.{
  DistinctRows, row_keys, Ensures, weaken, LooksOnly, Below, Below-le, AtRow, Rows, write_row,
  settle_row, found_again,
}

abbrev pub with_tx : OrderTx → Order → Order
with_tx t o = record o { transactions = t ∷ o.transactions }

-- Neither the key of an order nor the keys of its lines change.
pub record KeepsKeys (f : Order → Order) : Type 0 where
  pub same : (o : Order) → (f o).id ≡ o.id
  pub lines : (n : ℕ) (o : Order) → All (λ i. i.id < n) o.items → All (λ i. i.id < n) (f o).items

pub assert_order_account-LooksOnly : (ws id : ℕ) → LooksOnly (assert_order_account ws id)
unfolding assert_order_account
assert_order_account-LooksOnly ws id a b r e =
    elim (Option-cases (find (is_active ws id) a.stock.accounts)) [
      | inl missing ↦ absurd (ground (arith, missing, e))
      | inr (p, found) ↦ ground (arith, found, e)
    ]

module _ (S : Order → Type 0) (id : ℕ) (o : Order) where
  -- What stands beside the orders may change, and keys may be handed out.
  beside_row :
      (a b : Books) → b.orders ≡ a.orders → a.next_id ≤ b.next_id → AtRow S id o a → AtRow S id o b
  beside_row a b same le v = record {
    rows = subst (All _) (sym same) v.rows;
    distinct = subst (λ os. DistinctRows os) (sym same) v.distinct;
    below = subst (All (Below b.next_id)) (sym same) (
        All-map (Below a.next_id) (Below b.next_id) (λ p h. Below-le a.next_id b.next_id p le h)
          a.orders v.below);
    key = v.key;
    own = Below-le a.next_id b.next_id o le v.own;
    present = subst (λ os. has id (row_keys os) ≡ true) (sym same) v.present;
  }

  tx_row :
      (t : OrderTx) (a : Books)
      → AtRow S id o a
      → AtRow S id (with_tx (record t { id = a.next_id }) o) (create_order_tx id t a)
  unfolding create_order_tx
  tx_row t a p =
      let v = write_row S id o (with_tx (record t { id = a.next_id })) a (λ q. refl) p.own p in
      record {
        rows = v.rows;
        distinct = v.distinct;
        below =
            All-map (Below a.next_id) (Below (suc a.next_id))
              (λ q h. Below-le a.next_id (suc a.next_id) q (omega arith) h) _ v.below;
        key = v.key;
        own = Below-le a.next_id (suc a.next_id) o (omega arith) p.own;
        present = v.present;
      }

  module _ {B : Type 0} {R : B → Books → Type 0} where
    pub after_beside :
        (g : Books → Books) (m : Call B)
        → ((b : Books) → ((g b).orders ≡ b.orders) × (b.next_id ≤ (g b).next_id))
        → Ensures (AtRow S id o) m R
        → Ensures (AtRow S id o) (modify g >> m) R
    unfolding ◌>>=◌
    after_beside g m same k = record {
      at = λ a r b p e. k.at (g a) r b (beside_row a (g a) (same a).0 (same a).1 p) e;
    }

    pub after_write :
        (f : Order → Order) (m : Call B)
        → KeepsKeys f
        → Ensures (AtRow S id (f o)) m R
        → Ensures (AtRow S id o) (modify (update_order id f) >> m) R
    unfolding ◌>>=◌
    after_write f m keys k = record {
      at = λ a r b p e.
          k.at (update_order id f a) r b
            (write_row S id o f a keys.same
              (
                subst (λ n. n < a.next_id) (sym (keys.same o)) p.own.0,
                keys.lines a.next_id o p.own.1,
              )
              p)
            e;
    }

    -- Keys are handed out for new lines, and the lines are written.
    pub after_keys :
        (n : ℕ) (f : ℕ → Order → Order) (m : ℕ → Call B)
        → ((key : ℕ) (p : Order) → (f key p).id ≡ p.id)
        → ((key k : ℕ)
            → key + n ≤ k
            → All (λ i. i.id < key) o.items
            → All (λ i. i.id < k) (f key o).items)
        → ((key : ℕ) → All (λ i. i.id < key) o.items → Ensures (AtRow S id (f key o)) (m key) R)
        → Ensures (AtRow S id o) (hand_out n >>= λ key. modify (update_order id (f key)) >> m key) R
    unfolding ◌>>=◌ hand_out
    after_keys n f m same lines k = record {
      at = λ a r b p e.
          let a' = record a { next_id = a.next_id + n } in
          let v = beside_row a a' refl (omega arith) p in
          (k a.next_id p.own.1).at _ r b
            (write_row S id o (f a.next_id) a' (same a.next_id)
              (
                subst (λ j. j < a.next_id + n) (sym (same a.next_id o)) v.own.0,
                lines a.next_id (a.next_id + n) (omega arith) p.own.1,
              )
              v)
            e;
    }

    pub after_tx :
        (t : OrderTx) (m : Call B)
        → ((key : ℕ) → Ensures (AtRow S id (with_tx (record t { id = key }) o)) m R)
        → Ensures (AtRow S id o) (modify (create_order_tx id t) >> m) R
    unfolding ◌>>=◌
    after_tx t m k = record { at = λ a r b p e. (k a.next_id).at _ r b (tx_row t a p) e }

  pub tx_ends :
      (t : OrderTx)
      → Ensures
          (AtRow S id o)
          (modify (create_order_tx id t))
          (λ _ b. (key : ℕ) × AtRow S id (with_tx (record t { id = key }) o) b)
  tx_ends t = record {
    at = λ a r b p e.
        let written : create_order_tx id t a ≡ b = ground (arith, e) in
        (
          a.next_id,
          subst (AtRow S id (with_tx (record t { id = a.next_id }) o)) written (tx_row t a p),
        );
  }

  -- A call of the warehouse leaves the orders alone.
  pub on_stock-AtRow :
      {A : Type 0} (m : State.M A) → Ensures (AtRow S id o) (on_stock m) (λ _ b. AtRow S id o b)
  on_stock-AtRow m = record {
    at = λ a r b p e. elim (Result-cases (m a.stock)) [
      | inl ((v, db), run) ↦ beside_row a b (ground (arith, run, e)) (ground (arith, run, e)) p
      | inr (q, run) ↦ absurd (ground (arith, run, e))
    ];
  }

  pub write_ends :
      (f : Order → Order)
      → KeepsKeys f
      → Ensures (AtRow S id o) (modify (update_order id f)) (λ _ b. AtRow S id (f o) b)
  write_ends f keys = record {
    at = λ a r b p e.
        let written : update_order id f a ≡ b = ground (arith, e) in
        subst (AtRow S id (f o)) written (
          write_row S id o f a keys.same
            (subst (λ n. n < a.next_id) (sym (keys.same o)) p.own.0, keys.lines a.next_id o p.own.1)
            p);
  }

  pub keys_end :
      (n : ℕ) (f : ℕ → Order → Order)
      → ((key : ℕ) (p : Order) → (f key p).id ≡ p.id)
      → ((key k : ℕ)
          → key + n ≤ k
          → All (λ i. i.id < key) o.items
          → All (λ i. i.id < k) (f key o).items)
      → Ensures
          (AtRow S id o)
          (hand_out n >>= λ key. modify (update_order id (f key)))
          (λ _ b. (key : ℕ) × All (λ i. i.id < key) o.items × AtRow S id (f key o) b)
  unfolding ◌>>=◌ hand_out
  keys_end n f same lines = record {
    at = λ a r b p e.
        let a' = record a { next_id = a.next_id + n } in
        let v = beside_row a a' refl (omega arith) p in
        let written : update_order id (f a.next_id) a' ≡ b = ground (arith, e) in
        (
          a.next_id,
          p.own.1,
          subst (AtRow S id (f a.next_id o)) written (
              write_row S id o (f a.next_id) a' (same a.next_id)
                (
                  subst (λ j. j < a.next_id + n) (sym (same a.next_id o)) v.own.0,
                  lines a.next_id (a.next_id + n) (omega arith) p.own.1,
                )
                v),
        );
  }

  pub end_write :
      (f : Order → Order)
      → KeepsKeys f
      → S (f o)
      → Ensures (AtRow S id o) (modify (update_order id f)) (λ _ b. Rows S b)
  end_write f keys s = record {
    at = λ a r b p e.
        let v =
          write_row S id o f a keys.same
            (subst (λ n. n < a.next_id) (sym (keys.same o)) p.own.0, keys.lines a.next_id o p.own.1)
            p in
        subst (Rows S) (ground (arith, e)) (settle_row S id (f o) (update_order id f a) s v);
  }

  pub audit_ends :
      (action : OrderAction) (entity : ℕ)
      → Ensures (AtRow S id o) (modify (record_order_audit action entity)) (λ _ b. AtRow S id o b)
  audit_ends action entity = record {
    at = λ a r b p e.
        subst (AtRow S id o) (ground (arith, e))
          (beside_row a (record_order_audit action entity a) refl (omega arith) p);
  }

  pub end_audit :
      (action : OrderAction) (entity : ℕ)
      → S o
      → Ensures (AtRow S id o) (modify (record_order_audit action entity)) (λ _ b. Rows S b)
  end_audit action entity s =
      weaken _ _ _ (audit_ends action entity) (λ r b v. settle_row S id o b s v)

-- The loaded order under another name of its key.
pub under_key :
    {B : Type 0} {S : Order → Type 0} {R : B → Books → Type 0} (id k : ℕ) (o : Order) (m : Call B)
    → k ≡ id
    → Ensures (AtRow S k o) m R
    → Ensures (AtRow S id o) m R
under_key {B} {S} {R} id k o m e h = subst (λ j. Ensures (AtRow S j o) m R) e h

-- After a call that has written the order in some way.
pub from_some :
    {B : Type 0} {S : Order → Type 0} {R : B → Books → Type 0} (F : Order → Type 0) (id : ℕ)
    (m : Call B)
    → ((o : Order) → F o → Ensures (AtRow S id o) m R)
    → Ensures (λ b. (o : Order) × F o × AtRow S id o b) m R
from_some F id m k = record { at = λ a r b (o, f, v) e. (k o f).at a r b v e }

pub from_any :
    {X B : Type 0} {S : Order → Type 0} {R : B → Books → Type 0} (F : X → Type 0) (g : X → Order)
    (id : ℕ) (m : Call B)
    → ((x : X) → F x → Ensures (AtRow S id (g x)) m R)
    → Ensures (λ b. (x : X) × F x × AtRow S id (g x) b) m R
from_any F g id m k = record { at = λ a r b (x, f, v) e. (k x f).at a r b v e }

pub from_pre :
    {B : Type 0} {P : Books → Type 0} {R : B → Books → Type 0} (Q : Books → Type 0) (m : Call B)
    → ((b : Books) → P b → Q b)
    → Ensures Q m R
    → Ensures P m R
from_pre Q m f h = record { at = λ a r b p e. h.at a r b (f a p) e }

-- After a call that has written the lines of the order in some way.
abbrev pub SomeLines : (Order → Type 0) → (List OrderItem → Type 0) → ℕ → Order → Books → Type 0
SomeLines S F id o b = (is : List OrderItem) × F is × AtRow S id (record o { items = is }) b

pub from_lines :
    {B : Type 0} {S : Order → Type 0} {R : B → Books → Type 0} (F : List OrderItem → Type 0)
    (id : ℕ) (o : Order) (m : Call B)
    → ((is : List OrderItem) → F is → Ensures (AtRow S id (record o { items = is })) m R)
    → Ensures (SomeLines S F id o) m R
from_lines F id o m k = record { at = λ a r b (is, f, v) e. (k is f).at a r b v e }

pub unless_ends :
    {P : Books → Type 0} (Q : Books → Type 0) (done : Bool) (m : Call (Unit {0}))
    → (done ≡ true → (b : Books) → P b → Q b)
    → (done ≡ false → Ensures P m (λ _ b. Q b))
    → Ensures P (unless done m) (λ _ b. Q b)
unless_ends Q true m stay k = record {
  at = λ a r b p e. subst Q (ground (arith, e)) (stay refl a p);
}
unless_ends Q false m stay k = k refl

mapped_line_keys :
    (n k : ℕ) (g : OrderItem → OrderItem) (is : List OrderItem)
    → ((i : OrderItem) → (g i).id ≡ i.id)
    → All (λ i. i.id < n) is
    → All (λ i. i.id < n) (map (λ i. if i.id == k then g i else i) is)
mapped_line_keys n k g [] same h = tt
mapped_line_keys n k g (i ∷ is) same (h, hs) = elim (Bool-cases (i.id == k)) [
  | inl here ↦ (rw here (subst (λ j. j < n) (sym (same i)) h), mapped_line_keys n k g is same hs)
  | inr away ↦ (rw away h, mapped_line_keys n k g is same hs)
]

pub update_item-KeepsKeys :
    (k : ℕ) (g : OrderItem → OrderItem)
    → ((i : OrderItem) → (g i).id ≡ i.id)
    → KeepsKeys (update_item k g)
unfolding update_item
update_item-KeepsKeys k g same = record {
  same = λ o. refl;
  lines = λ n o h. mapped_line_keys n k g o.items same h;
}

-- A write that books one transaction of the order, or none.
abbrev pub MayBook : ℕ → (Books → Books) → Books → Type 0
MayBook id g b = (g b ≡ b) ⊎ ((t : OrderTx) × (g b ≡ create_order_tx id t b))

pub after_booking :
    {B : Type 0} {R : B → Books → Type 0} (S : Order → Type 0) (id : ℕ) (o : Order)
    (g : Books → Books) (m : Call B)
    → ((b : Books) → MayBook id g b)
    → ((ts : List OrderTx) → Ensures (AtRow S id (record o { transactions = ts })) m R)
    → Ensures (AtRow S id o) (modify g >> m) R
unfolding ◌>>=◌
after_booking {B} {R} S id o g m books k = record {
  at = λ a r b p e. elim (books a) [
    | inl same ↦ (k o.transactions).at a r b p (subst (λ z. m z ≡ ok (r, b)) same e)
    | inr (t, same) ↦
        (k _).at (create_order_tx id t a) r b (tx_row S id o t a p)
          (subst (λ z. m z ≡ ok (r, b)) same e)
  ];
}

-- The order that a call leaves is found again.
abbrev pub Leaves : ℕ → ℕ → (Order → Type 0) → Books → Type 0
Leaves ws id Q b = (o : Order) × (find_order ws id b ≡ some o) × Q o

pub Leaves-row :
    {S : Order → Type 0} (ws id : ℕ) (o : Order) (Q : Order → Type 0) (b : Books)
    → o.workspace ≡ ws
    → o.deleted ≡ false
    → S o
    → Q o
    → AtRow S id o b
    → Rows S b × Leaves ws id Q b
Leaves-row {S} ws id o Q b home live s q v =
    (settle_row S id o b s v, (o, found_again S ws id o b home live v, q))
