-- ===== src/Sorting/Comparators.antt =====
-- The comparators that the code writes, a key's difference and `||` of two, are ordered
-- (`sort` calls of apps/api/src).
use construct_fin.Prelude.{inl, inr, arith, ℤ, pos, ◌-ℤ◌, ◌≤ℤ◌, leb_ℤ, Bool-cases, int_laws}
use construct_fin.Sorting.{Comparator, IsPreorder, ◌or_else◌}

module _ {A : Type 0} where
  -- `(a, b) => key(a) - key(b)`
  abbrev pub by_key : (A → ℤ) → Comparator A
  by_key key x y = key x -ℤ key y

  pub by_key-IsPreorder : (key : A → ℤ) → IsPreorder (by_key key)
  by_key-IsPreorder key = record {
    turned = λ x y h. omega int_laws;
    back = λ x y h. omega int_laws;
    transitive = λ x y z h k. omega int_laws;
  }

  -- A comparator of one part of the elements.
  pub on-IsPreorder :
      {B : Type 0} (part : A → B) (compare : Comparator B)
      → IsPreorder compare
      → IsPreorder (λ x y. compare (part x) (part y))
  on-IsPreorder part compare pre = record {
    turned = λ x y h. pre.turned (part x) (part y) h;
    back = λ x y h. pre.back (part x) (part y) h;
    transitive = λ x y z h k. pre.transitive (part x) (part y) (part z) h k;
  }

  module _ (first second : Comparator A) (p : IsPreorder first) (q : IsPreorder second) where
    lex : Comparator A
    lex x y = first x y or_else second x y

    lex_first : (x y : A) → lex x y ≤ℤ pos 0 → first x y ≤ℤ pos 0
    unfolding lex
    lex_first x y h = ground arith

    lex_second : (x y : A) → lex x y ≤ℤ pos 0 → pos 0 ≤ℤ first x y → second x y ≤ℤ pos 0
    unfolding lex
    lex_second x y h k = ground arith

    lex_le :
        (x y : A)
        → first x y ≤ℤ pos 0
        → (pos 0 ≤ℤ first x y → second x y ≤ℤ pos 0)
        → lex x y ≤ℤ pos 0
    unfolding lex
    lex_le x y h k = elim (Bool-cases (leb_ℤ (pos 0) (first x y))) [
      | inl zero ↦ let s = k (ground (arith, zero)) in ground (arith, h, s, zero)
      | inr less ↦ ground (arith, h, less)
    ]

    lex-transitive : (x y z : A) → lex x y ≤ℤ pos 0 → lex y z ≤ℤ pos 0 → lex x z ≤ℤ pos 0
    lex-transitive x y z h k =
        let a = lex_first x y h in
        let b = lex_first y z k in
        lex_le x z (p.transitive x y z a b) (λ e.
          let back = p.back z x e in
          let yx = p.transitive y z x b back in
          let zy = p.transitive z x y back a in
          q.transitive x y z (lex_second x y h (p.turned y x yx))
            (lex_second y z k (p.turned z y zy)))

    lex-turned : (x y : A) → lex x y ≤ℤ pos 0 → pos 0 ≤ℤ lex y x
    unfolding lex
    lex-turned x y h =
        let a = p.turned x y (lex_first x y h) in
        elim (Bool-cases (leb_ℤ (first y x) (pos 0))) [
          | inl zero ↦
              let b = q.turned x y (lex_second x y h (p.turned y x (ground (arith, zero)))) in
              ground (arith, a, b, zero)
          | inr more ↦ ground (arith, more)
        ]

    lex-back : (x y : A) → pos 0 ≤ℤ lex y x → lex x y ≤ℤ pos 0
    unfolding lex
    lex-back x y h =
        let a : pos 0 ≤ℤ first y x = ground (arith, h) in
        let b = p.back x y a in
        lex_le x y b (λ e. let c = p.back y x e in q.back x y (ground (arith, a, c, h)))

    pub or_else-IsPreorder : IsPreorder (λ x y. first x y or_else second x y)
    unfolding lex
    or_else-IsPreorder = record {
      turned = lex-turned;
      back = lex-back;
      transitive = lex-transitive;
    }
