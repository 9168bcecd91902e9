-- ===== src/Functions/Explore/Levels.antt =====
-- The queue of the search in backend/reversing_lab/analysis/functions.py holds levels in rising order, at
-- most one apart.
use reversing_lab.Prelude.{
  ℕ, suc, ◌+◌, ◌≤◌, ◌<◌, ◌≡◌, inl, inr, sym, ap, ◌∙◌, Bool, true, false, ◌||◌, List, [], ◌∷◌, ◌++◌,
  if◌then◌else◌, ◌==◌, arith, All, Bool-cases,
}
use mathlib.Core.Path.{subst}
use reversing_lab.Prelude.Sets.{mem}
use reversing_lab.Functions.Explore.{Walk}

-- The number stands in the queue.
abbrev pub queued : ℕ → List (ℕ × ℕ) → Bool
queued x [] = false
queued x ((y, d) ∷ queue) = (y == x) || queued x queue

abbrev pub Rising : List (ℕ × ℕ) → Type 0
Rising [] = Unit
Rising ((x, d) ∷ queue) = All (λ (e : ℕ × ℕ). d ≤ e.1) queue × Rising queue

module _ (succ : ℕ → List ℕ) (root depth : ℕ) where
  -- What holds within a round at level `d`, of the level at which each number was selected.
  pub record IsRound (d : ℕ) (selected : List ℕ) (queue : List (ℕ × ℕ)) (level : ℕ → ℕ)
      : Type 0 where
    pub walks : (x : ℕ) → mem x selected ≡ true → Walk succ root (level x) x
    pub deep : (x : ℕ) → mem x selected ≡ true → level x ≤ depth
    pub near : (x : ℕ) → mem x selected ≡ true → level x ≤ d + 1
    pub entries :
        All (λ (e : ℕ × ℕ). (mem e.0 selected ≡ true) × (level e.0 ≡ e.1) × (d ≤ e.1)) queue
    pub rising : Rising queue

-- A level for one more number.
abbrev pub set_level : ℕ → ℕ → (ℕ → ℕ) → ℕ → ℕ
set_level y l level z = if y == z then l else level z

All-queue :
    (P Q : ℕ × ℕ → Type 0) (queue : List (ℕ × ℕ)) (last : ℕ × ℕ)
    → ((e : ℕ × ℕ) → P e → Q e)
    → All P queue
    → Q last
    → All Q (queue ++ last ∷ [])
All-queue P Q [] last weaken all q = (q, tt)
All-queue P Q (e ∷ queue) last weaken all q =
    (weaken e all.0, All-queue P Q queue last weaken all.1 q)

Rising-snoc :
    (queue : List (ℕ × ℕ)) (y l : ℕ)
    → Rising queue
    → All (λ (e : ℕ × ℕ). e.1 ≤ l) queue
    → Rising (queue ++ (y, l) ∷ [])
Rising-snoc [] y l r all = (tt, tt)
Rising-snoc ((x, d) ∷ queue) y l r all = (
  All-queue _ (λ (e : ℕ × ℕ). d ≤ e.1) queue (y, l) (λ e h. h) r.0 all.0,
  Rising-snoc queue y l r.1 all.1,
)

All-map :
    (P Q : ℕ × ℕ → Type 0) (queue : List (ℕ × ℕ))
    → ((e : ℕ × ℕ) → P e → Q e)
    → All P queue
    → All Q queue
All-map P Q [] h all = tt
All-map P Q (e ∷ queue) h all = (h e all.0, All-map P Q queue h all.1)

-- The levels that there are stay.
pub set_level_old :
    (y l z : ℕ) (level : ℕ → ℕ) (selected : List ℕ)
    → mem y selected ≡ false
    → mem z selected ≡ true
    → set_level y l level z ≡ level z
set_level_old y l z level selected fresh there = elim (Bool-cases (y == z)) [
  | inl same ↦
      let e : y ≡ z = ground (arith, same) in
      let clash : mem z selected ≡ false = ap (λ t. mem t selected) (sym e) ∙ fresh in
      ground (arith, clash, there)
  | inr other ↦ ground (arith, other)
]

pub set_level_new : (y l : ℕ) (level : ℕ → ℕ) → set_level y l level y ≡ l
set_level_new y l level = ground arith

module _ (succ : ℕ → List ℕ) (root depth : ℕ) where
  -- A property of levels that the old numbers have and the new one gets.
  each_selected :
      (P : ℕ → ℕ → Type 0) (y l : ℕ) (selected : List ℕ) (level : ℕ → ℕ)
      → mem y selected ≡ false
      → P l y
      → ((z : ℕ) → mem z selected ≡ true → P (level z) z)
      → (z : ℕ) → mem z (y ∷ selected) ≡ true
      → P (set_level y l level z) z
  each_selected P y l selected level fresh new old z there = elim (Bool-cases (y == z)) [
    | inl same ↦
        let e : y ≡ z = ground (arith, same) in
        subst (λ t. P (set_level y l level t) t) e
          (subst (λ t. P t y) (sym (set_level_new y l level)) new)
    | inr other ↦
        let earlier : mem z selected ≡ true = ground (arith, other, there) in
        subst (λ t. P t z) (sym (set_level_old y l z level selected fresh earlier)) (old z earlier)
  ]

  -- One callee is selected and goes to the end of the queue.
  pub select-IsRound :
      (d x y : ℕ) (selected : List ℕ) (queue : List (ℕ × ℕ)) (level : ℕ → ℕ)
      → d < depth
      → Walk succ root d x
      → mem y (succ x) ≡ true
      → mem y selected ≡ false
      → IsRound succ root depth d selected queue level
      → IsRound succ root depth d
          (y ∷ selected)
          (queue ++ (y, suc d) ∷ [])
          (set_level y (suc d) level)
  select-IsRound d x y selected queue level below walk callee fresh i = record {
    walks =
        each_selected (λ l z. Walk succ root l z) y (suc d) selected level fresh (x, walk, callee)
          i.walks;
    deep = each_selected (λ l z. l ≤ depth) y (suc d) selected level fresh (omega arith) i.deep;
    near = each_selected (λ l z. l ≤ d + 1) y (suc d) selected level fresh (omega arith) i.near;
    entries =
        All-queue _ _ queue (y, suc d)
          (λ e h.
            (ground (arith, h.0), set_level_old y (suc d) e.0 level selected fresh h.0 ∙ h.1, h.2))
          i.entries (ground arith, set_level_new y (suc d) level, omega arith);
    rising = Rising-snoc queue y (suc d) i.rising (
        All-map _ (λ (e : ℕ × ℕ). e.1 ≤ suc d) queue
          (λ e h. let bound = i.near e.0 h.0 in omega (arith, h.1)) i.entries);
  }
