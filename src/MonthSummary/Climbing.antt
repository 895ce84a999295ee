-- ===== src/MonthSummary/Climbing.antt =====
-- The walk to the root of a category (apps/api/src/reports/month-summary.calc.ts, `categoryRoots`) ends,
-- also where the parents of the data run in a circle.
use construct_fin.Prelude.{
  ℕ, zero, suc, ◌+◌, ◌<◌, ◌≤◌, length, ◌≡◌, refl, sym, ◌∙◌, ap, inl, inr, Bool, true, false, not,
  Option, none, some, List, [], ◌∷◌, arith, ◌==◌, find, has, keep, All, Bool-cases, Option-cases,
  find_passes, ==→eq, ◌⊎◌,
}
use mathlib.Core.Path.{subst}
use construct_fin.MonthSummary.Roots.{CategoryNode, parent_in, unless_seen, next_up, climb, root_of}

abbrev unseen : List CategoryNode → List ℕ → ℕ
unseen alive seen = length (keep (λ c. not (has c.id seen)) alive)

unseen_le :
    (k : ℕ) (alive : List CategoryNode) (seen : List ℕ)
    → unseen alive (k ∷ seen) ≤ unseen alive seen
unseen_le k [] seen = omega arith
unseen_le k (c ∷ cs) seen = let rest = unseen_le k cs seen in ground (arith, rest)

-- A live category that was not seen is one less to be seen.
unseen_lt :
    (test : CategoryNode → Bool) (alive : List CategoryNode) (seen : List ℕ) {p : CategoryNode}
    → find test alive ≡ some p
    → has p.id seen ≡ false
    → unseen alive (p.id ∷ seen) < unseen alive seen
unseen_lt test [] seen e h = cc
unseen_lt test (c ∷ cs) seen {p} e h = elim (Bool-cases (test c)) [
  | inl hit ↦
      let same : c ≡ p = ground (arith, hit, e) in
      let rest = unseen_le p.id cs seen in
      subst (λ x. unseen (x ∷ cs) (p.id ∷ seen) < unseen (x ∷ cs) seen) (sym same)
        (ground (arith, h, rest))
  | inr miss ↦
      let rest = unseen_lt test cs seen {p = p} (ground (arith, miss, e)) h in ground (arith, rest)
]

unseen_all : (alive : List CategoryNode) (seen : List ℕ) → unseen alive seen ≤ length alive
unseen_all [] seen = omega arith
unseen_all (c ∷ cs) seen = let rest = unseen_all cs seen in ground (arith, rest)

step_lt :
    (alive : List CategoryNode) (seen : List ℕ) (parent : Option ℕ) {p : CategoryNode}
    → unless_seen seen (parent_in alive parent) ≡ some p
    → unseen alive (p.id ∷ seen) < unseen alive seen
step_lt alive seen none e = cc
step_lt alive seen (some k) {p} e = elim (Option-cases (find (λ c. c.id == k) alive)) [
  | inl missing ↦ absurd (ground (arith, missing, e))
  | inr (q, found) ↦
      let fresh : has q.id seen ≡ false = ground (arith, found, e) in
      let same : q ≡ p = ground (arith, found, fresh, e) in
      subst (λ x. unseen alive (x.id ∷ seen) < unseen alive seen) same
        (unseen_lt _ alive seen {p = q} found fresh)
]

shift : (n k : ℕ) → suc n + k ≡ suc (n + k)
shift n k = omega arith

own_only : (q p : CategoryNode) {o : Option CategoryNode} → o ≡ some q → o ≡ some p → q ≡ p
own_only q p e f = cc

-- `r` stands `n` parents above `c`, and some number of parents above it.
abbrev pub Above : List CategoryNode → ℕ → CategoryNode → CategoryNode → Type 0
Above alive zero c r = c ≡ r
Above alive (suc n) c r =
    (p : CategoryNode) × (parent_in alive c.parent ≡ some p) × Above alive n p r

abbrev pub Reaches : List CategoryNode → CategoryNode → CategoryNode → Type 0
Reaches alive c r = (n : ℕ) × Above alive n c r

-- Where a walk stops: at a category with no live parent, or at one that is on a circle of parents.
abbrev pub IsTop : List CategoryNode → CategoryNode → Type 0
IsTop alive r =
    (parent_in alive r.parent ≡ none)
    ⊎ ((q : CategoryNode) × (parent_in alive r.parent ≡ some q) × Reaches alive q r)

abbrev pub found_at : List CategoryNode → ℕ → Option CategoryNode
found_at alive k = find (λ x. x.id == k) alive

module _ (alive : List CategoryNode) where
  one_more :
      (n : ℕ) (c r p : CategoryNode)
      → Above alive n c r
      → parent_in alive r.parent ≡ some p
      → Above alive (suc n) c p
  one_more zero c r p same e =
      (p, ap (λ (x : CategoryNode). parent_in alive x.parent) same ∙ e, refl)
  one_more (suc n) c r p (q, up, above) e = (q, up, one_more n q r p above e)

  -- What was seen leads to where the walk is.
  abbrev Led : List ℕ → CategoryNode → Type 0
  Led seen cur =
      All (λ k. (q : CategoryNode) → found_at alive k ≡ some q → Reaches alive q cur) seen

  lead_on :
      (seen : List ℕ) (cur p : CategoryNode)
      → parent_in alive cur.parent ≡ some p
      → Led seen cur
      → Led seen p
  lead_on [] cur p e led = tt
  lead_on (k ∷ ks) cur p e (h, hs) = (
    (λ q found. let (n, above) = h q found in (suc n, one_more n q cur p above e)),
    lead_on ks cur p e hs,
  )

  Led-by :
      (seen : List ℕ) (cur q : CategoryNode)
      → Led seen cur
      → has q.id seen ≡ true
      → found_at alive q.id ≡ some q
      → Reaches alive q cur
  Led-by [] cur q led e found = absurd (ground (arith, e))
  Led-by (k ∷ ks) cur q (h, hs) e found = elim (Bool-cases (q.id == k)) [
    | inl here ↦ h q (subst (λ j. found_at alive j ≡ some q) (ground (arith, here)) found)
    | inr away ↦ Led-by ks cur q hs (ground (arith, e, away)) found
  ]

  own_key :
      (parent : Option ℕ) {q : CategoryNode}
      → parent_in alive parent ≡ some q
      → found_at alive q.id ≡ some q
  own_key none e = cc
  own_key (some k) {q} e =
      subst (λ j. found_at alive j ≡ some q)
        (sym (==→eq q.id k (find_passes (λ x. x.id == k) alive e))) e

  stops :
      (seen : List ℕ) (cur : CategoryNode)
      → Led seen cur
      → next_up alive seen cur ≡ none
      → IsTop alive cur
  stops seen cur led e = elim (Option-cases (parent_in alive cur.parent)) [
    | inl no_parent ↦ inl no_parent
    | inr (q, up) ↦
        inr (q, up, Led-by seen cur q led (ground (arith, up, e)) (own_key cur.parent {q = q} up))
  ]

  goes_up :
      (seen : List ℕ) (parent : Option ℕ) {p : CategoryNode}
      → unless_seen seen (parent_in alive parent) ≡ some p
      → parent_in alive parent ≡ some p
  goes_up seen parent {p} e = elim (Option-cases (parent_in alive parent)) [
    | inl no_parent ↦ absurd (ground (arith, no_parent, e))
    | inr (q, up) ↦ ground (arith, up, e)
  ]

  walk_ends :
      (k : ℕ) (seen : List ℕ) (cur : CategoryNode)
      → next_up alive seen cur ≡ none
      → climb k alive seen cur ≡ cur
  unfolding climb
  walk_ends zero seen cur stop = refl
  walk_ends (suc k) seen cur stop = ground (arith, stop)

  walk_on :
      (k : ℕ) (seen : List ℕ) (cur : CategoryNode) {p : CategoryNode}
      → next_up alive seen cur ≡ some p
      → climb (suc k) alive seen cur ≡ climb k alive (p.id ∷ seen) p
  unfolding climb
  walk_on k seen cur {p} next = ground (arith, next)

  -- The walk from `c` has stopped by itself, and more fuel changes nothing.
  abbrev Walked : ℕ → ℕ → List ℕ → CategoryNode → Type 0
  Walked n k seen cur =
      (climb (n + k) alive seen cur ≡ climb n alive seen cur)
      × IsTop alive (climb n alive seen cur)
      × Reaches alive cur (climb n alive seen cur)

  stopped :
      (n k : ℕ) (seen : List ℕ) (cur : CategoryNode)
      → Led seen cur
      → next_up alive seen cur ≡ none
      → Walked n k seen cur
  stopped n k seen cur led stop =
      let ends = walk_ends n seen cur stop in
      (
        walk_ends (n + k) seen cur stop ∙ sym ends,
        subst (IsTop alive) (sym ends) (stops seen cur led stop),
        (zero, sym ends),
      )

  climb_lem :
      (n k : ℕ) (seen : List ℕ) (cur : CategoryNode)
      → unseen alive seen ≤ n
      → Led seen cur
      → Walked n k seen cur
  climb_lem zero k seen cur few led = elim (Option-cases (next_up alive seen cur)) [
    | inl stop ↦ stopped zero k seen cur led stop
    | inr (p, next) ↦ absurd (omega (arith, few, step_lt alive seen cur.parent {p = p} next))
  ]
  climb_lem (suc n) k seen cur few led = elim (Option-cases (next_up alive seen cur)) [
    | inl stop ↦ stopped (suc n) k seen cur led stop
    | inr (p, next) ↦
        let less = step_lt alive seen cur.parent {p = p} next in
        let up = goes_up seen cur.parent {p = p} next in
        let led' : Led (p.id ∷ seen) p = (
          (λ q found. (zero, own_only q p found (own_key cur.parent {q = p} up))),
          lead_on seen cur p up led,
        ) in
        let (same, top, (m, above)) =
          climb_lem n k (p.id ∷ seen) p (omega (arith, few, less)) led' in
        let on = walk_on n seen cur {p = p} next in
        (
          ap (λ j. climb j alive seen cur) (shift n k)
              ∙ walk_on (n + k) seen cur {p = p} next
              ∙ same
              ∙ sym on,
          subst (IsTop alive) (sym on) top,
          (suc m, (p, up, subst (Above alive m p) (sym on) above)),
        )
  ]

  -- For a live category that is the one with its key: the fuel of the walk to its root is enough, since
  -- more of it changes nothing; the root stands some number of parents above the category; and the walk
  -- has stopped by itself, at a category with no live parent or at one that is on a circle of parents.
  pub root_of-IsTop :
      (c : CategoryNode) (more : ℕ)
      → found_at alive c.id ≡ some c
      → (climb (length alive + more) alive (c.id ∷ []) c ≡ root_of alive c)
        × IsTop alive (root_of alive c)
        × Reaches alive c (root_of alive c)
  unfolding root_of
  root_of-IsTop c more own =
      climb_lem (length alive) more (c.id ∷ []) c (unseen_all alive (c.id ∷ []))
        ((λ q found. (zero, own_only q c found own)), tt)
