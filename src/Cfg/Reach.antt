-- ===== src/Cfg/Reach.antt =====
-- The worklist of `build_cfg` of backend/reversing_lab/disassembler/cfg.py that finds the reachable
-- blocks, over the successors of a block. The order in which Python iterates a set of successors is
-- the order of the list; a set is a list with `mem`.
mod Visit
pub mod Exact
use reversing_lab.Prelude.{
  ℕ, zero, suc, ◌+◌, ◌≤◌, ◌<◌, ◌≡◌, ◌≢◌, ◌⊎◌, ◌↔◌, inl, inr, refl, Bool, true, false, ◌||◌, Option,
  none, some, List, [], ◌∷◌, if◌then◌else◌, ◌==◌, ltb, arith, length, All, Bool-cases,
}
use reversing_lab.Prelude.Sets.{mem}

-- The loop over the successors of one block: the new `reachable` and `frontier`.
unfoldable pub visit : List ℕ → List ℕ → List ℕ → List ℕ × List ℕ
visit [] reachable frontier = (reachable, frontier)
visit (s ∷ ss) reachable frontier =
    visit ss (if mem s reachable then reachable else s ∷ reachable)
      (if mem s reachable then frontier else s ∷ frontier)

-- `while frontier`, on fuel: `none` means that the fuel ran out.
unfoldable pub reach_from : (ℕ → List ℕ) → ℕ → List ℕ → List ℕ → Option (List ℕ)
reach_from succ zero reachable frontier = none
reach_from succ (suc fuel) reachable [] = some reachable
reach_from succ (suc fuel) reachable (x ∷ frontier) =
    let (reachable', frontier') = visit (succ x) reachable frontier in
    reach_from succ fuel reachable' frontier'

unfoldable pub reach : (ℕ → List ℕ) → ℕ → ℕ → Option (List ℕ)
unfolding reach_from visit
reach succ fuel entry = reach_from succ fuel (entry ∷ []) (entry ∷ [])

-- A way along edges.
pub data PathTo (succ : ℕ → List ℕ) (entry : ℕ) : ℕ → Type 0 where
  here : PathTo succ entry entry
  step : {x : ℕ} (y : ℕ) → PathTo succ entry x → mem y (succ x) ≡ true → PathTo succ entry y

-- How many of the blocks below `n` are not in the set.
abbrev pub missing : ℕ → List ℕ → ℕ
missing zero xs = 0
missing (suc n) xs = let rest = missing n xs in if mem n xs then rest else suc rest
