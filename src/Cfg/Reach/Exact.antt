-- ===== src/Cfg/Reach/Exact.antt =====
-- The worklist of backend/reversing_lab/disassembler/cfg.py finds exactly the reachable blocks.
use reversing_lab.Prelude.{
  ℕ, zero, suc, ◌+◌, ◌<◌, ◌≡◌, ◌⊎◌, ◌↔◌, inl, inr, refl, true, some, List, [], ◌∷◌, ◌==◌, arith,
  length, All, Bool-cases,
}
use reversing_lab.Prelude.Sets.{mem}
use reversing_lab.Cfg.Reach.{visit, reach_from, reach, PathTo, here, step, missing}
use reversing_lab.Cfg.Reach.Visit.{
  missing_new, missing-nil, visit-missing, visit-mem, visit_new, visit_frontier, visit_onto,
}

module _ (succ : ℕ → List ℕ) (entry : ℕ) where
  -- What holds before each round.
  record IsLoop (reachable frontier : List ℕ) : Type 0 where
    sound : (x : ℕ) → mem x reachable ≡ true → PathTo succ entry x
    front : (x : ℕ) → mem x frontier ≡ true → mem x reachable ≡ true
    start : mem entry reachable ≡ true
    closed :
        (x y : ℕ)
        → mem x reachable ≡ true
        → mem y (succ x) ≡ true
        → (mem x frontier ≡ true) ⊎ (mem y reachable ≡ true)

  visit-sound :
      (x : ℕ) (r f : List ℕ)
      → IsLoop r (x ∷ f)
      → (y : ℕ) → mem y (visit (succ x) r f).0 ≡ true
      → PathTo succ entry y
  visit-sound x r f i y m = elim (visit_new y (succ x) r f m) [
    | inl old ↦ i.sound y old
    | inr new ↦ step y (i.sound x (i.front x (ground arith))) new.0
  ]

  visit-front :
      (x : ℕ) (r f : List ℕ)
      → IsLoop r (x ∷ f)
      → (y : ℕ) → mem y (visit (succ x) r f).1 ≡ true
      → mem y (visit (succ x) r f).0 ≡ true
  visit-front x r f i y m = elim (visit_onto y (succ x) r f m) [
    | inl old ↦ visit-mem y (succ x) r f (inr (i.front y (ground (arith, old))))
    | inr new ↦ visit-mem y (succ x) r f (inl new)
  ]

  visit-closed :
      (x : ℕ) (r f : List ℕ)
      → IsLoop r (x ∷ f)
      → (z y : ℕ) → mem z (visit (succ x) r f).0 ≡ true
      → mem y (succ z) ≡ true
      → (mem z (visit (succ x) r f).1 ≡ true) ⊎ (mem y (visit (succ x) r f).0 ≡ true)
  visit-closed x r f i z y m e = elim (visit_new z (succ x) r f m) [
    | inr new ↦ inl new.1
    | inl old ↦ elim (i.closed z y old e) [
      | inr kept ↦ inr (visit-mem y (succ x) r f (inr kept))
      | inl there ↦ elim (Bool-cases (x == z)) [
        | inl same ↦
            let eq : x ≡ z = ground (arith, same) in inr (visit-mem y (succ x) r f (inl (rw eq e)))
        | inr other ↦ inl (visit_frontier z (succ x) r f (ground (arith, other)))
      ]
    ]
  ]

  visit-IsLoop :
      (x : ℕ) (r f : List ℕ)
      → IsLoop r (x ∷ f)
      → IsLoop (visit (succ x) r f).0 (visit (succ x) r f).1
  visit-IsLoop x r f i = record {
    sound = visit-sound x r f i;
    front = visit-front x r f i;
    start = visit-mem entry (succ x) r f (inr i.start);
    closed = visit-closed x r f i;
  }

  complete : (r : List ℕ) → IsLoop r [] → {x : ℕ} → PathTo succ entry x → mem x r ≡ true
  complete r i here = i.start
  complete r i (step {x} y p e) = elim (i.closed x y (complete r i p) e) [
    | inl none_left ↦ cc
    | inr there ↦ there
  ]

  -- Every edge leads to a block below `n`.
  abbrev pub Bounded : ℕ → Type 0
  Bounded n = (x : ℕ) → All (λ s. s < n) (succ x)

  reach_from_exact :
      (n : ℕ)
      → Bounded n
      → (fuel : ℕ) (r f : List ℕ) → missing n r + length f < fuel
      → IsLoop r f
      → (set : List ℕ) × (reach_from succ fuel r f ≡ some set)
        × ((x : ℕ) → (mem x set ≡ true) ↔ PathTo succ entry x)
  unfolding reach_from
  reach_from_exact n b zero r f h i = absurd (omega arith)
  reach_from_exact n b (suc fuel) r [] h i = (r, refl, λ x. (i.sound x, complete r i))
  reach_from_exact n b (suc fuel) r (x ∷ f) h i =
      reach_from_exact n b fuel _ _ (omega (arith, visit-missing n (succ x) r f (b x)))
        (visit-IsLoop x r f i)

  -- With one round of fuel more than there are blocks the worklist ends, and the set that it returns is
  -- that of the blocks to which a path of edges leads from the entry.
  pub reach_exact :
      (n : ℕ)
      → Bounded n
      → entry < n
      → (set : List ℕ) × (reach succ (n + 1) entry ≡ some set)
        × ((x : ℕ) → (mem x set ≡ true) ↔ PathTo succ entry x)
  unfolding reach
  reach_exact n b h =
      reach_from_exact n b (n + 1) (entry ∷ []) (entry ∷ [])
        (omega (arith, missing_new n entry [] h refl, missing-nil n))
        (record {
          sound = λ x m. let e : entry ≡ x = ground arith in rw (← e) here;
          front = λ x m. m;
          start = ground arith;
          closed = λ x y m e. inl m;
        })
