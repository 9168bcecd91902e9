-- ===== src/Cfg/Graph/Exits.antt =====
-- Which blocks of backend/reversing_lab/disassembler/cfg.py follow a block, by its last instruction.
use reversing_lab.Prelude.{
  ℕ, zero, suc, ◌<◌, ◌==◌, ◌≡◌, ◌⊎◌, inl, inr, ◌↔◌, Bool, true, false, some, List, [], ◌∷◌, ◌++◌,
  if◌then◌else◌, arith, get_elem?, All, if_keeps, Bool-cases, ap, ◌∙◌, refl,
}
use reversing_lab.Prelude.Sets.{mem, Increasing}
use reversing_lab.Cfg.Classify.{
  Instruction, next_address, is_jump, is_return, direct_target, falls_through,
}
use reversing_lab.Cfg.Graph.{leader_to_id, to_list, target_ids, successors_of, dedupe}
use reversing_lab.Cfg.Graph.Edges.{mem-to_list, mem-target_ids, mem-append, mem-dedupe}

All-get_elem? : (P : ℕ → Type 0) (xs : List ℕ) (i a : ℕ) → All P xs → get_elem? xs i ≡ some a → P a
All-get_elem? P [] i a all h = cc
All-get_elem? P (x ∷ xs) zero a all h = let e : x ≡ a = cc in rw e at all.0
All-get_elem? P (x ∷ xs) (suc i) a all h = All-get_elem? P xs i a all.1 h

-- The index of a leader is its identifier.
get_elem?-leader_to_id :
    (leaders : List ℕ) (id address : ℕ)
    → Increasing leaders
    → get_elem? leaders id ≡ some address
    → leader_to_id leaders address ≡ some id
unfolding leader_to_id
get_elem?-leader_to_id [] id address up h = cc
get_elem?-leader_to_id (leader ∷ leaders) zero address up h = ground (arith, h)
get_elem?-leader_to_id (leader ∷ leaders) (suc id) address up h = ground (
  arith,
  get_elem?-leader_to_id leaders id address up.1 h,
  All-get_elem? (λ x. leader < x) leaders id address up.0 h,
)

mem_of_leader :
    (leaders : List ℕ) (id address : ℕ)
    → Increasing leaders
    → get_elem? leaders id ≡ some address
    → mem id (to_list (leader_to_id leaders address)) ≡ true
mem_of_leader leaders id address up h =
    ground (arith, get_elem?-leader_to_id leaders id address up h)

mem_left : (x : ℕ) (xs ys : List ℕ) → mem x xs ≡ true → mem x (xs ++ ys) ≡ true
mem_left x [] ys m = cc
mem_left x (y ∷ xs) ys m = ground (arith, mem_left x xs ys)

mem_right : (x : ℕ) (xs ys : List ℕ) → mem x ys ≡ true → mem x (xs ++ ys) ≡ true
mem_right x [] ys m = m
mem_right x (y ∷ xs) ys m = ground (arith, mem_right x xs ys m)

dedupe-mem :
    (s : ℕ) (seen ss : List ℕ)
    → mem s seen ≡ false
    → mem s ss ≡ true
    → mem s (dedupe seen ss) ≡ true
unfolding dedupe
dedupe-mem s seen [] fresh m = cc
dedupe-mem s seen (x ∷ ss) fresh m = elim (Bool-cases (x == s)) [
  | inl same ↦ let e : x ≡ s = ground arith in ground (arith, e, fresh)
  | inr other ↦ ground (arith, other, dedupe-mem s seen ss fresh, dedupe-mem s (x ∷ seen) ss)
]

-- The block behind the last instruction.
abbrev pub FallsTo : List ℕ → Instruction → ℕ → Type 0
FallsTo leaders last s =
    (is_return last ≡ false)
    × ((is_jump last ≡ false) ⊎ (falls_through last ≡ true))
    × (get_elem? leaders s ≡ some (next_address last))

-- The block at the direct target of the last instruction.
abbrev pub BranchesTo : List ℕ → Instruction → ℕ → Type 0
BranchesTo leaders last s =
    (is_return last ≡ false)
    × (is_jump last ≡ true)
    × ((target : ℕ) × (direct_target last ≡ some target) × (get_elem? leaders s ≡ some target))

when_falls :
    (s : ℕ) (falls : Bool) (ss : List ℕ)
    → mem s (if falls then ss else []) ≡ true
    → (falls ≡ true) × (mem s ss ≡ true)
when_falls s true ss m = (refl, m)
when_falls s false ss m = cc

only_exits :
    (leaders : List ℕ) (last : Instruction) (s : ℕ)
    → mem s (successors_of leaders last) ≡ true
    → FallsTo leaders last s ⊎ BranchesTo leaders last s
unfolding successors_of
only_exits leaders last s =
    let fall = to_list (leader_to_id leaders (next_address last)) in
    let behind = mem-to_list leaders (next_address last) s in
    let Exits : List ℕ → Type 0 =
      λ ss. mem s ss ≡ true → FallsTo leaders last s ⊎ BranchesTo leaders last s in
    if_keeps Exits (is_return last) _ _ (λ ret m. cc)
      (λ goes_on.
        if_keeps Exits (is_jump last) _ fall
          (λ jump m.
            let past_jump = if falls_through last then fall else [] in
            elim (mem-append s (target_ids leaders (direct_target last)) past_jump m) [
              | inl taken ↦ inr (goes_on, jump, mem-target_ids leaders (direct_target last) s taken)
              | inr past ↦
                  let (falls, there) = when_falls s (falls_through last) fall past in
                  inl (goes_on, inr falls, behind there)
            ])
          (λ plain m. inl (goes_on, inl plain, behind m)))

falls_to :
    (leaders : List ℕ) (last : Instruction) (s : ℕ)
    → Increasing leaders
    → FallsTo leaders last s
    → mem s (successors_of leaders last) ≡ true
unfolding successors_of
falls_to leaders last s up (goes_on, inl plain, there) =
    ground (arith, goes_on, plain, mem_of_leader leaders s (next_address last) up there)
falls_to leaders last s up (goes_on, inr falls, there) =
    let behind = mem_of_leader leaders s (next_address last) up there in
    let fall = to_list (leader_to_id leaders (next_address last)) in
    elim (Bool-cases (is_jump last)) [
      | inl jump ↦ ground (
        arith,
        goes_on,
        jump,
        falls,
        mem_right s (target_ids leaders (direct_target last)) fall behind,
      )
      | inr plain ↦ ground (arith, goes_on, plain, behind)
    ]

branches_to :
    (leaders : List ℕ) (last : Instruction) (s : ℕ)
    → Increasing leaders
    → BranchesTo leaders last s
    → mem s (successors_of leaders last) ≡ true
unfolding successors_of
branches_to leaders last s up (goes_on, jump, (target, direct, there)) =
    let fall = to_list (leader_to_id leaders (next_address last)) in
    let taken : mem s (target_ids leaders (direct_target last)) ≡ true =
      ap (λ o. mem s (target_ids leaders o)) direct ∙ mem_of_leader leaders s target up there in
    ground (
      arith,
      goes_on,
      jump,
      mem_left s (target_ids leaders (direct_target last)) (if falls_through last then fall else [])
          taken,
    )

-- The successors of a block, over increasing leaders, are exactly these: the block that starts behind its
-- last instruction, unless that is a return or a jump that does not fall through, and the block that
-- starts at the direct target of its last instruction when that is a jump and no return.
pub mem-successors_of :
    (leaders : List ℕ) (last : Instruction) (s : ℕ)
    → Increasing leaders
    → (mem s (dedupe [] (successors_of leaders last)) ≡ true)
      ↔ (FallsTo leaders last s ⊎ BranchesTo leaders last s)
mem-successors_of leaders last s up = (
  λ m. only_exits leaders last s (mem-dedupe s [] (successors_of leaders last) m),
  λ exits. dedupe-mem s [] (successors_of leaders last) refl (elim exits [
    | inl falls ↦ falls_to leaders last s up falls
    | inr branches ↦ branches_to leaders last s up branches
  ]),
)
