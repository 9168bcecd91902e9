-- ===== src/Functions/Explore.antt =====
-- The bounded breadth-first search of `build_call_graph` of backend/reversing_lab/analysis/functions.py, over
-- the callees of a function that are functions themselves.
mod Levels
mod Rounds
pub mod Exact
use reversing_lab.Prelude.{
  ℕ, zero, suc, ◌+◌, ◌≤◌, ◌≡◌, Bool, true, false, Option, none, some, List, [], ◌∷◌, ◌++◌,
  if◌then◌else◌, leb, ◌==◌,
}
use reversing_lab.Prelude.Sets.{mem}

-- The loop over the callees of a function at this depth: the new `selected` and `queue`.
unfoldable pub visit : ℕ → List ℕ → List ℕ → List (ℕ × ℕ) → List ℕ × List (ℕ × ℕ)
visit d [] selected queue = (selected, queue)
visit d (callee ∷ callees) selected queue =
    visit d callees (if mem callee selected then selected else callee ∷ selected)
      (if mem callee selected then queue else queue ++ (callee, suc d) ∷ [])

-- `while queue`, on fuel: `none` means that the fuel ran out.
unfoldable pub explore_from : (ℕ → List ℕ) → ℕ → ℕ → List ℕ → List (ℕ × ℕ) → Option (List ℕ)
unfolding visit
explore_from succ depth zero selected queue = none
explore_from succ depth (suc fuel) selected [] = some selected
explore_from succ depth (suc fuel) selected ((x, d) ∷ queue) =
    let (selected', queue') = visit d (succ x) selected queue in
    let at_limit = explore_from succ depth fuel selected queue in
    let next = explore_from succ depth fuel selected' queue' in
    if leb depth d then at_limit else next

unfoldable pub explore : (ℕ → List ℕ) → ℕ → ℕ → ℕ → Option (List ℕ)
unfolding explore_from
explore succ depth fuel root = explore_from succ depth fuel (root ∷ []) ((root, 0) ∷ [])

-- A way of this many calls.
abbrev pub Walk : (ℕ → List ℕ) → ℕ → ℕ → ℕ → Type 0
Walk succ root zero x = root ≡ x
Walk succ root (suc n) y = (x : ℕ) × Walk succ root n x × (mem y (succ x) ≡ true)

-- How many of these numbers are not in the set.
abbrev pub unselected : List ℕ → List ℕ → ℕ
unselected [] selected = 0
unselected (u ∷ us) selected =
    let rest = unselected us selected in if mem u selected then rest else suc rest
