-- ===== src/Matching.antt =====
-- Greedy one-to-one matching: the two nested loops that collect candidates, and the loop that ends
-- `matchTransferPairs` (apps/api/src/integrations/transfer-match.ts), `matchPlannedPayments`
-- (apps/api/src/integrations/planned-match.ts) and `matchCostsToItems`
-- (packages/shared/src/receipt-match.ts): candidates come in order, and one that names a side which is
-- used already is passed over.
pub mod Greedy
pub mod Pairs
pub mod Transfers
pub mod Planned
mod Tests
use construct_fin.Prelude.{
  ℕ, Bool, true, false, ◌||◌, Option, none, some, List, [], ◌∷◌, ◌++◌, if◌then◌else◌,
}

-- `used` is what the code keeps in its sets: which sides are taken.
unfoldable pub greedy : {U C : Type 0} → (U → C → Bool) → (C → U → U) → U → List C → List C
greedy blocked add used [] = []
greedy blocked add used (c ∷ cs) =
    let without = greedy blocked add used cs in
    let within = greedy blocked add (add c used) cs in
    if blocked used c then without else c ∷ within

abbrev pub push : {C : Type 0} → Option C → List C → List C
push none cs = cs
push (some c) cs = c ∷ cs

module _ {A B C : Type 0} (candidate : A → B → Option C) where
  -- The inner loop.
  abbrev pub row : A → List B → List C
  row a [] = []
  row a (b ∷ ys) = push (candidate a b) (row a ys)

  -- Both loops; `candidate` is `none` where their body goes on to the next round.
  abbrev pub pairs : List A → List B → List C
  pairs [] ys = []
  pairs (a ∷ xs) ys = row a ys ++ pairs xs ys
