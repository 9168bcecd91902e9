-- ===== src/Functions/Explore/Exact.antt =====
-- The search of backend/reversing_lab/analysis/functions.py selects exactly the functions within the depth.
use mathlib.Core.Path.{subst}
use reversing_lab.Prelude.{
  ℕ, zero, suc, ◌+◌, ◌≤◌, ◌<◌, ◌≡◌, ◌⊎◌, ◌↔◌, inl, inr, refl, sym, ap, ◌∙◌, true, some, List, [],
  ◌∷◌, ◌==◌, leb, arith, length, All, Bool-cases, if_true, if_false,
}
use reversing_lab.Prelude.Sets.{mem}
use reversing_lab.Functions.Explore.{visit, explore_from, explore, Walk, unselected}
use reversing_lab.Functions.Explore.Levels.{queued, IsRound}
use reversing_lab.Functions.Explore.Rounds.{AfterVisit, visit-AfterVisit}

unselected-le-length : (us selected : List ℕ) → unselected us selected ≤ length us
unselected-le-length [] selected = omega arith
unselected-le-length (u ∷ us) selected = ground (arith, unselected-le-length us selected)

module _ (succ : ℕ → List ℕ) (root depth : ℕ) (universe : List ℕ) where
  -- Each number that is not in the queue, and is not at the last level, has its callees selected one level on.
  abbrev Closed : List ℕ → List (ℕ × ℕ) → (ℕ → ℕ) → Type 0
  Closed selected queue level =
      (x : ℕ)
      → mem x selected ≡ true
      → (queued x queue ≡ true)
        ⊎ (depth ≤ level x)
        ⊎ ((y : ℕ) → mem y (succ x) ≡ true → (mem y selected ≡ true) × (level y ≤ level x + 1))

  -- What holds before each round.
  record IsSearch (d : ℕ) (selected : List ℕ) (queue : List (ℕ × ℕ)) (level : ℕ → ℕ) : Type 0 where
    round : IsRound succ root depth d selected queue level
    start : (mem root selected ≡ true) × (level root ≡ 0)
    closed : Closed selected queue level

  -- Numbers at most `n` calls away are selected, at a level of at most `n`.
  complete :
      (d : ℕ) (selected : List ℕ) (level : ℕ → ℕ)
      → IsSearch d selected [] level
      → (n x : ℕ) → n ≤ depth
      → Walk succ root n x
      → (mem x selected ≡ true) × (level x ≤ n)
  complete d selected level i zero x h walk =
      subst (λ t. (mem t selected ≡ true) × (level t ≤ 0)) walk
        (i.start.0, omega (arith, i.start.1))
  complete d selected level i (suc n) y h (x, walk, callee) =
      let before = complete d selected level i n x (omega arith) walk in
      elim (i.closed x before.0) [
        | inl waiting ↦ cc
        | inr (inl deep) ↦ absurd (omega (arith, before.1))
        | inr (inr callees) ↦
            let next = callees y callee in (next.0, omega (arith, next.1, before.1))
      ]

  exact :
      (d : ℕ) (selected : List ℕ) (level : ℕ → ℕ)
      → IsSearch d selected [] level
      → (x : ℕ) → (mem x selected ≡ true) ↔ ((n : ℕ) × (n ≤ depth) × Walk succ root n x)
  exact d selected level i x = (
    λ m. (level x, i.round.deep x m, i.round.walks x m),
    λ w. (complete d selected level i w.0 x w.1 w.2).0,
  )

  -- The head of the queue is taken: its level is now the least.
  pop-IsRound :
      (d x l : ℕ) (selected : List ℕ) (queue : List (ℕ × ℕ)) (level : ℕ → ℕ)
      → IsRound succ root depth d selected ((x, l) ∷ queue) level
      → IsRound succ root depth l selected queue level
  pop-IsRound d x l selected queue level i = record {
    walks = i.walks;
    deep = i.deep;
    near = λ z m. let near = i.near z m in omega (arith, i.entries.0.2);
    entries = later queue i.entries.1 i.rising.0;
    rising = i.rising.1;
  }
    where
      later :
          (q : List (ℕ × ℕ))
          → All (λ (e : ℕ × ℕ). (mem e.0 selected ≡ true) × (level e.0 ≡ e.1) × (d ≤ e.1)) q
          → All (λ (e : ℕ × ℕ). l ≤ e.1) q
          → All (λ (e : ℕ × ℕ). (mem e.0 selected ≡ true) × (level e.0 ≡ e.1) × (l ≤ e.1)) q
      later [] all above = tt
      later (e ∷ q) all above = ((all.0.0, all.0.1, above.0), later q all.1 above.1)

  -- At the last level nothing is visited.
  skip-IsSearch :
      (d x l : ℕ) (selected : List ℕ) (queue : List (ℕ × ℕ)) (level : ℕ → ℕ)
      → depth ≤ l
      → IsSearch d selected ((x, l) ∷ queue) level
      → IsSearch l selected queue level
  skip-IsSearch d x l selected queue level deep i = record {
    round = pop-IsRound d x l selected queue level i.round;
    start = i.start;
    closed = λ z m. elim (i.closed z m) [
      | inr rest ↦ inr rest
      | inl waiting ↦ elim (Bool-cases (x == z)) [
        | inr other ↦ inl (ground (arith, waiting, other))
        | inl same ↦
            let e : x ≡ z = ground (arith, same) in
            let at_level : level z ≡ l = ap level (sym e) ∙ i.round.entries.0.1 in
            inr (inl (omega (arith, at_level)))
      ]
    ];
  }

  step-IsSearch :
      (d x l : ℕ) (selected : List ℕ) (queue : List (ℕ × ℕ)) (level : ℕ → ℕ)
      (out : List ℕ × List (ℕ × ℕ))
      → IsSearch d selected ((x, l) ∷ queue) level
      → (v : AfterVisit succ root depth universe l (succ x) selected queue level out)
      → IsSearch l out.0 out.1 v.0
  step-IsSearch d x l selected queue level out i (level', v) = record {
    round = v.round;
    start = (v.grows root i.start.0, v.same root i.start.0 ∙ i.start.1);
    closed = λ z m. elim (v.new z m) [
      | inr waiting ↦ inl waiting
      | inl old ↦ elim (i.closed z old) [
        | inl waiting ↦ elim (Bool-cases (x == z)) [
          | inr other ↦ inl (v.keeps z (ground (arith, waiting, other)))
          | inl same ↦
              let e : x ≡ z = ground (arith, same) in
              let at_level : level' z ≡ l = v.same z old ∙ ap level (sym e) ∙ i.round.entries.0.1 in
              inr (
                inr (λ y callee.
                  let there = v.all_in y (subst (λ t. mem y (succ t) ≡ true) (sym e) callee) in
                  let near = v.round.near y there in (there, omega (arith, at_level))))
        ]
        | inr (inl deep) ↦ inr (inl (omega (arith, v.same z old)))
        | inr (inr callees) ↦ inr (
            inr (λ y callee.
              let next = callees y callee in
              (v.grows y next.0, omega (arith, v.same z old, v.same y next.0, next.1))))
      ]
    ];
  }

  -- Callees belong to the universe.
  abbrev pub Within : Type 0
  Within = (x : ℕ) → All (λ y. mem y universe ≡ true) (succ x)

  own_members :
      (x : ℕ) (ys : List ℕ)
      → ((y : ℕ) → mem y ys ≡ true → mem y (succ x) ≡ true)
      → All (λ y. mem y universe ≡ true) ys
      → All (λ y. (mem y (succ x) ≡ true) × (mem y universe ≡ true)) ys
  own_members x [] h all = tt
  own_members x (y ∷ ys) h all = (
    (h y (ground arith), all.0),
    own_members x ys (λ z m. h z (ground (arith, m, Bool-cases (y == z)))) all.1,
  )

  explore_from_exact :
      Within
      → (fuel d : ℕ) (selected : List ℕ) (queue : List (ℕ × ℕ)) (level : ℕ → ℕ)
      → unselected universe selected + length queue < fuel
      → IsSearch d selected queue level
      → (set : List ℕ) × (explore_from succ depth fuel selected queue ≡ some set)
        × ((x : ℕ) → (mem x set ≡ true) ↔ ((n : ℕ) × (n ≤ depth) × Walk succ root n x))
  unfolding explore_from
  explore_from_exact within zero d selected queue level h i = absurd (omega arith)
  explore_from_exact within (suc fuel) d selected [] level h i =
      (selected, refl, exact d selected level i)
  explore_from_exact within (suc fuel) d selected ((x, l) ∷ queue) level h i =
      let out = visit l (succ x) selected queue in
      elim (Bool-cases (leb depth l)) [
        | inl deep ↦
            let (set, e, iff) =
              explore_from_exact within fuel l selected queue level (omega arith)
                (skip-IsSearch d x l selected queue level (ground (arith, deep)) i) in
            (set, if_true (leb depth l) _ _ deep ∙ e, iff)
        | inr below ↦
            let walk =
              subst (λ t. Walk succ root t x) i.round.entries.0.1
                (i.round.walks x i.round.entries.0.0) in
            let after =
              visit-AfterVisit succ root depth universe l x (succ x) selected queue level
                (ground (arith, below)) walk (own_members x (succ x) (λ y m. m) (within x))
                (pop-IsRound d x l selected queue level i.round) in
            let smaller = after.1.measure in
            let (set, e, iff) =
              explore_from_exact within fuel l out.0 out.1 after.0 (omega (arith, smaller))
                (step-IsSearch d x l selected queue level out i after) in
            (set, if_false (leb depth l) _ _ below ∙ e, iff)
      ]

  -- With two rounds of fuel more than there are numbers in the universe, and all callees in it, the search
  -- ends with exactly the numbers to which at most `depth` calls lead from the root.
  pub explore_exact :
      Within
      → (set : List ℕ) × (explore succ depth (length universe + 2) root ≡ some set)
        × ((x : ℕ) → (mem x set ≡ true) ↔ ((n : ℕ) × (n ≤ depth) × Walk succ root n x))
  unfolding explore
  explore_exact within =
      explore_from_exact within (length universe + 2) 0 (root ∷ []) ((root, 0) ∷ []) (λ z. 0)
        (omega (arith, unselected-le-length universe (root ∷ [])))
        (record {
          round = record {
            walks = λ x m. ground (arith, m);
            deep = λ x m. omega arith;
            near = λ x m. omega arith;
            entries = ((ground arith, refl, omega arith), tt);
            rising = (tt, tt);
          };
          start = (ground arith, refl);
          closed = λ x m. inl (ground (arith, m));
        })
