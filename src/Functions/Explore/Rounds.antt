-- ===== src/Functions/Explore/Rounds.antt =====
-- One round of the search in backend/reversing_lab/analysis/functions.py.
use mathlib.Core.Path.{subst}
use reversing_lab.Prelude.{
  ℕ, suc, ◌+◌, ◌≤◌, ◌<◌, ◌≡◌, ◌⊎◌, inl, inr, refl, sym, ap, ◌∙◌, Bool, true, false, ◌||◌, List, [],
  ◌∷◌, ◌++◌, if◌then◌else◌, ◌==◌, arith, length, All, Bool-cases, length-append,
}
use reversing_lab.Prelude.Sets.{mem}
use reversing_lab.Functions.Explore.{visit, Walk, unselected}
use reversing_lab.Functions.Explore.Levels.{
  queued, IsRound, set_level, set_level_old, select-IsRound,
}

unselected_le :
    (us : List ℕ) (y : ℕ) (selected : List ℕ)
    → unselected us (y ∷ selected) ≤ unselected us selected
unselected_le [] y selected = omega arith
unselected_le (u ∷ us) y selected = ground (arith, unselected_le us y selected)

-- A number of the universe that is selected is one less to select.
unselected_new :
    (us : List ℕ) (y : ℕ) (selected : List ℕ)
    → mem y us ≡ true
    → mem y selected ≡ false
    → unselected us (y ∷ selected) < unselected us selected
unselected_new [] y selected there fresh = cc
unselected_new (u ∷ us) y selected there fresh = elim (Bool-cases (u == y)) [
  | inl same ↦
      let e : y ≡ u = ground (arith, same) in
      let u_fresh : mem u selected ≡ false = ap (λ t. mem t selected) (sym e) ∙ fresh in
      ground (arith, same, u_fresh, e, unselected_le us y selected)
  | inr other ↦ ground (
    arith,
    other,
    there,
    Bool-cases (y == u),
    Bool-cases (mem u selected),
    unselected_new us y selected,
    unselected_le us y selected,
  )
]

queued-append :
    (z : ℕ) (queue : List (ℕ × ℕ)) (y l : ℕ)
    → queued z (queue ++ (y, l) ∷ []) ≡ (queued z queue || (y == z))
queued-append z [] y l = ground (arith, Bool-cases (y == z))
queued-append z ((x, d) ∷ queue) y l =
    ground (arith, Bool-cases (x == z), queued-append z queue y l)

module _ (succ : ℕ → List ℕ) (root depth : ℕ) (universe : List ℕ) where
  -- What a visit leaves behind.
  pub record Visited (d : ℕ) (ys selected : List ℕ) (queue : List (ℕ × ℕ)) (level : ℕ → ℕ)
      (selected' : List ℕ) (queue' : List (ℕ × ℕ)) (level' : ℕ → ℕ) : Type 0 where
    pub round : IsRound succ root depth d selected' queue' level'
    pub grows : (z : ℕ) → mem z selected ≡ true → mem z selected' ≡ true
    pub same : (z : ℕ) → mem z selected ≡ true → level' z ≡ level z
    pub all_in : (z : ℕ) → mem z ys ≡ true → mem z selected' ≡ true
    pub new : (z : ℕ) → mem z selected' ≡ true → (mem z selected ≡ true) ⊎ (queued z queue' ≡ true)
    pub keeps : (z : ℕ) → queued z queue ≡ true → queued z queue' ≡ true
    pub measure :
        unselected universe selected' + length queue' ≤ unselected universe selected + length queue

  abbrev pub AfterVisit :
      ℕ → List ℕ → List ℕ → List (ℕ × ℕ) → (ℕ → ℕ) → List ℕ × List (ℕ × ℕ) → Type 0
  AfterVisit d ys selected queue level (selected', queue') =
      (level' : ℕ → ℕ) × Visited d ys selected queue level selected' queue' level'

  seen_more :
      (d y : ℕ) (ys selected : List ℕ) (queue : List (ℕ × ℕ)) (level : ℕ → ℕ)
      (out : List ℕ × List (ℕ × ℕ))
      → mem y selected ≡ true
      → AfterVisit d ys selected queue level out
      → AfterVisit d (y ∷ ys) selected queue level out
  seen_more d y ys selected queue level out there (level', v) = (
    level',
    record {
      round = v.round;
      grows = v.grows;
      same = v.same;
      all_in = λ z m. elim (Bool-cases (y == z)) [
        | inl e ↦
            let e' : y ≡ z = ground (arith, e) in
            subst (λ t. mem t out.0 ≡ true) e' (v.grows y there)
        | inr e ↦ v.all_in z (ground (arith, m, e))
      ];
      new = v.new;
      keeps = v.keeps;
      measure = v.measure;
    },
  )

  selected_more :
      (d y : ℕ) (ys selected : List ℕ) (queue : List (ℕ × ℕ)) (level : ℕ → ℕ)
      (out : List ℕ × List (ℕ × ℕ))
      → mem y selected ≡ false
      → mem y universe ≡ true
      → AfterVisit d ys (y ∷ selected) (queue ++ (y, suc d) ∷ []) (set_level y (suc d) level) out
      → AfterVisit d (y ∷ ys) selected queue level out
  selected_more d y ys selected queue level out fresh known (level', v) = (
    level',
    record {
      round = v.round;
      grows = λ z m. v.grows z (ground (arith, m, Bool-cases (y == z)));
      same = λ z m.
          v.same z (ground (arith, m, Bool-cases (y == z)))
          ∙ set_level_old y (suc d) z level selected fresh m;
      all_in = λ z m. elim (Bool-cases (y == z)) [
        | inl e ↦ v.grows z (ground (arith, e))
        | inr e ↦ v.all_in z (ground (arith, m, e))
      ];
      new = λ z m. elim (v.new z m) [
        | inr waiting ↦ inr waiting
        | inl there ↦ elim (Bool-cases (y == z)) [
          | inl e ↦ inr (
              v.keeps z
                (ground (arith, e, queued-append z queue y (suc d), Bool-cases (queued z queue))))
          | inr e ↦ inl (ground (arith, there, e))
        ]
      ];
      keeps = λ z m. v.keeps z (ground (arith, m, queued-append z queue y (suc d)));
      measure =
          let fewer = unselected_new universe y selected known fresh in
          let longer = length-append queue ((y, suc d) ∷ []) in let rest = v.measure in omega arith;
    },
  )

  pub visit-AfterVisit :
      (d x : ℕ) (ys selected : List ℕ) (queue : List (ℕ × ℕ)) (level : ℕ → ℕ)
      → d < depth
      → Walk succ root d x
      → All (λ y. (mem y (succ x) ≡ true) × (mem y universe ≡ true)) ys
      → IsRound succ root depth d selected queue level
      → AfterVisit d ys selected queue level (visit d ys selected queue)
  unfolding visit
  visit-AfterVisit d x [] selected queue level below walk known i = (
    level,
    record {
      round = i;
      grows = λ z m. m;
      same = λ z m. refl;
      all_in = λ z m. cc;
      new = λ z m. inl m;
      keeps = λ z m. m;
      measure = omega arith;
    },
  )
  visit-AfterVisit d x (y ∷ ys) selected queue level below walk known i =
      let visited = λ (b : Bool).
        visit d ys (if b then selected else y ∷ selected)
          (if b then queue else queue ++ (y, suc d) ∷ []) in
      elim (Bool-cases (mem y selected)) [
        | inl there ↦ seen_more d y ys selected queue level (visited (mem y selected)) there (
            subst (λ b. AfterVisit d ys selected queue level (visited b)) (sym there)
              (visit-AfterVisit d x ys selected queue level below walk known.1 i))
        | inr fresh ↦
            let more = queue ++ (y, suc d) ∷ [] in
            let levels = set_level y (suc d) level in
            selected_more d y ys selected queue level (visited (mem y selected)) fresh known.0.1 (
              subst (λ b. AfterVisit d ys (y ∷ selected) more levels (visited b)) (sym fresh)
                (visit-AfterVisit d x ys (y ∷ selected) more levels below walk known.1 (
                  select-IsRound succ root depth d x y selected queue level below walk known.0.0
                    fresh i)))
      ]
