-- ===== src/Cfg/Reach/Visit.antt =====
-- The loop over the successors of one block, in `build_cfg` of
-- backend/reversing_lab/disassembler/cfg.py.
use reversing_lab.Prelude.{
  ℕ, zero, suc, ◌+◌, ◌≤◌, ◌<◌, ◌≡◌, ◌⊎◌, inl, inr, refl, ap, true, false, List, [], ◌∷◌,
  if◌then◌else◌, ◌==◌, arith, length, All, Bool-cases,
}
use reversing_lab.Prelude.Sets.{mem}
use reversing_lab.Cfg.Reach.{visit, missing}

pub mem_same : (x y : ℕ) (xs : List ℕ) → x ≡ y → mem x xs ≡ mem y xs
mem_same x y xs e = rw e

missing_old : (n s : ℕ) (xs : List ℕ) → n ≤ s → missing n (s ∷ xs) ≡ missing n xs
missing_old zero s xs h = refl
missing_old (suc n) s xs h = ground (arith, missing_old n s xs)

pub missing_new :
    (n s : ℕ) (xs : List ℕ) → s < n → mem s xs ≡ false → suc (missing n (s ∷ xs)) ≡ missing n xs
missing_new zero s xs h m = absurd (omega arith)
missing_new (suc n) s xs h m = elim (Bool-cases (s == n)) [
  | inl same ↦
      let e : s ≡ n = ground (arith, same) in rw (← e) (ground (arith, m, missing_old s s xs))
  | inr other ↦ ground (arith, other, missing_new n s xs)
]

pub visit-missing :
    (n : ℕ) (ss reachable frontier : List ℕ)
    → All (λ s. s < n) ss
    → let (r, f) = visit ss reachable frontier in
      missing n r + length f ≡ missing n reachable + length frontier
unfolding visit
visit-missing n [] r f b = refl
visit-missing n (s ∷ ss) r f b = elim (Bool-cases (mem s r)) [
  | inl old ↦ ground (arith, old, visit-missing n ss r f)
  | inr new ↦ ground (arith, new, visit-missing n ss (s ∷ r) (s ∷ f), missing_new n s r)
]

-- The set only grows, and holds the successors in the end.
pub visit-mem :
    (y : ℕ) (ss reachable frontier : List ℕ)
    → (mem y ss ≡ true) ⊎ (mem y reachable ≡ true)
    → mem y (visit ss reachable frontier).0 ≡ true
unfolding visit
visit-mem y [] r f (inl h) = cc
visit-mem y [] r f (inr h) = h
visit-mem y (s ∷ ss) r f h =
    visit-mem y ss (if mem s r then r else s ∷ r) (if mem s r then f else s ∷ f)
      (ground (arith, mem_same s y r))

pub visit_frontier :
    (y : ℕ) (ss reachable frontier : List ℕ)
    → mem y frontier ≡ true
    → mem y (visit ss reachable frontier).1 ≡ true
unfolding visit
visit_frontier y [] r f h = h
visit_frontier y (s ∷ ss) r f h =
    visit_frontier y ss (if mem s r then r else s ∷ r) (if mem s r then f else s ∷ f) (ground arith)

-- What is new is a successor, and is on the frontier.
pub visit_new :
    (y : ℕ) (ss reachable frontier : List ℕ)
    → mem y (visit ss reachable frontier).0 ≡ true
    → (mem y reachable ≡ true)
      ⊎ ((mem y ss ≡ true) × (mem y (visit ss reachable frontier).1 ≡ true))
unfolding visit
visit_new y [] r f h = inl h
visit_new y (s ∷ ss) r f h = ground (
  arith,
  visit_new y ss (if mem s r then r else s ∷ r) (if mem s r then f else s ∷ f) h,
  visit_frontier y ss (if mem s r then r else s ∷ r) (if mem s r then f else s ∷ f),
)

pub visit_onto :
    (y : ℕ) (ss reachable frontier : List ℕ)
    → mem y (visit ss reachable frontier).1 ≡ true
    → (mem y frontier ≡ true) ⊎ (mem y ss ≡ true)
unfolding visit
visit_onto y [] r f h = inl h
visit_onto y (s ∷ ss) r f h =
    ground (arith, visit_onto y ss (if mem s r then r else s ∷ r) (if mem s r then f else s ∷ f) h)

pub missing-nil : (n : ℕ) → missing n [] ≡ n
missing-nil zero = refl
missing-nil (suc n) = ap suc (missing-nil n)
