-- ===== src/MonthSummary/Roots.antt =====
-- apps/api/src/reports/month-summary.calc.ts: the root of each live category (`categoryRoots`).
use construct_fin.Prelude.{
  ℕ, zero, suc, length, Bool, not, Option, none, some, List, [], ◌∷◌, map, ◌==◌, if◌then◌else◌,
  find, has, keep,
}
use construct_fin.Text.{Text}

pub record CategoryNode : Type 0 where
  pub id : ℕ
  pub name : Text
  pub parent : Option ℕ
  pub is_expense : Bool
  pub deleted : Bool

-- `alive`; ids are unique.
abbrev pub alive_of : List CategoryNode → List CategoryNode
alive_of cs = keep (λ c. not c.deleted) cs

abbrev pub parent_in : List CategoryNode → Option ℕ → Option CategoryNode
parent_in alive none = none
parent_in alive (some k) = find (λ c. c.id == k) alive

abbrev pub unless_seen : List ℕ → Option CategoryNode → Option CategoryNode
unless_seen seen none = none
unless_seen seen (some p) = if has p.id seen then none else some p

-- The next category of the walk, or none where it stops: there is no live parent, or the walk has been
-- there.
abbrev pub next_up : List CategoryNode → List ℕ → CategoryNode → Option CategoryNode
next_up alive seen cur = unless_seen seen (parent_in alive cur.parent)

-- `while (cur.parentId)`, on fuel.
unfoldable pub climb : ℕ → List CategoryNode → List ℕ → CategoryNode → CategoryNode
climb zero alive seen cur = cur
climb (suc n) alive seen cur = elim (next_up alive seen cur) [
  | none ↦ cur
  | some p ↦ climb n alive (p.id ∷ seen) p
]

-- The root of a category: the walk makes no more steps than there are live categories.
unfoldable pub root_of : List CategoryNode → CategoryNode → CategoryNode
unfolding climb
root_of alive c = climb (length alive) alive (c.id ∷ []) c

-- `categoryRoots`, as a list of a key and its root.
unfoldable pub category_roots : List CategoryNode → List (ℕ × CategoryNode)
unfolding root_of
category_roots cs = map (λ c. (c.id, root_of (alive_of cs) c)) (alive_of cs)
