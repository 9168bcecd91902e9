-- ===== src/Cfg/Graph/Edges.antt =====
-- Where the edges of backend/reversing_lab/disassembler/cfg.py lead.
use reversing_lab.Prelude.{
  ℕ, zero, suc, ◌+◌, ◌<◌, ◌≡◌, ◌⊎◌, inl, inr, refl, Bool, true, Option, none, some, List, [], ◌∷◌,
  ◌++◌, if◌then◌else◌, ◌==◌, arith, length, get_elem?, All, Option-cases, ◌↔◌, if_keeps,
}
use reversing_lab.Prelude.Sets.{mem}
use reversing_lab.Cfg.Classify.{
  Instruction, next_address, is_jump, is_return, direct_target, falls_through,
}
use reversing_lab.Cfg.Slice.{Bodies}
use reversing_lab.Cfg.Reach.{reach, PathTo}
use reversing_lab.Cfg.Reach.Exact.{reach_exact}
use reversing_lab.Cfg.Graph.{
  leader_to_id, to_list, target_ids, successors_of, dedupe, last_of, build_blocks, successor_map,
}

-- The identifier of a leader is its index.
leader_to_id-get_elem? :
    (leaders : List ℕ) (address id : ℕ)
    → leader_to_id leaders address ≡ some id
    → get_elem? leaders id ≡ some address
unfolding leader_to_id
leader_to_id-get_elem? [] address id h = cc
leader_to_id-get_elem? (leader ∷ leaders) address zero h =
    elim (Option-cases (leader_to_id leaders address)) [
      | inl absent ↦ ground (arith, h, absent)
      | inr there ↦ ground (arith, h, there.1)
    ]
leader_to_id-get_elem? (leader ∷ leaders) address (suc id) h =
    elim (Option-cases (leader_to_id leaders address)) [
      | inl absent ↦ ground (arith, h, absent)
      | inr there ↦ ground (arith, h, there.1, leader_to_id-get_elem? leaders address id)
    ]

pub mem-dedupe : (s : ℕ) (seen ss : List ℕ) → mem s (dedupe seen ss) ≡ true → (mem s ss ≡ true)
unfolding dedupe
mem-dedupe s seen [] m = cc
mem-dedupe s seen (x ∷ ss) m = ground (arith, mem-dedupe s seen ss, mem-dedupe s (x ∷ seen) ss)

-- An identifier of `to_list` is that of its leader.
pub mem-to_list :
    (leaders : List ℕ) (address id : ℕ)
    → mem id (to_list (leader_to_id leaders address)) ≡ true
    → get_elem? leaders id ≡ some address
mem-to_list leaders address id m = elim (Option-cases (leader_to_id leaders address)) [
  | inl absent ↦ ground (arith, absent)
  | inr there ↦
      let same : there.0 ≡ id = ground (arith, there.1) in
      leader_to_id-get_elem? leaders address id (rw (← same) there.1)
]

pub mem-append :
    (x : ℕ) (xs ys : List ℕ) → mem x (xs ++ ys) ≡ true → (mem x xs ≡ true) ⊎ (mem x ys ≡ true)
mem-append x [] ys m = inr m
mem-append x (y ∷ xs) ys m = ground (arith, mem-append x xs ys)

abbrev pub Leads : List ℕ → Instruction → ℕ → Type 0
Leads leaders last s =
    (get_elem? leaders s ≡ some (next_address last))
    ⊎ ((target : ℕ) × (direct_target last ≡ some target) × (get_elem? leaders s ≡ some target))

pub mem-target_ids :
    (leaders : List ℕ) (o : Option ℕ) (s : ℕ)
    → mem s (target_ids leaders o) ≡ true
    → (target : ℕ) × (o ≡ some target) × (get_elem? leaders s ≡ some target)
mem-target_ids leaders none s m = cc
mem-target_ids leaders (some target) s m = (target, refl, mem-to_list leaders target s m)

in_either : (s : ℕ) (b : Bool) (ss : List ℕ) → mem s (if b then ss else []) ≡ true → mem s ss ≡ true
in_either s b ss m = ground arith

-- A successor of a block is the block of the leader behind its last instruction, or that at the direct
-- target of its last instruction.
pub successors_of-Leads :
    (leaders : List ℕ) (last : Instruction) (s : ℕ)
    → mem s (successors_of leaders last) ≡ true
    → Leads leaders last s
unfolding successors_of
successors_of-Leads leaders last s =
    let fall = to_list (leader_to_id leaders (next_address last)) in
    let falls : mem s fall ≡ true → Leads leaders last s =
      λ m. inl (mem-to_list leaders (next_address last) s m) in
    if_keeps (λ ss. mem s ss ≡ true → Leads leaders last s) (is_return last) _ _ (λ ret m. cc)
      (λ other.
        if_keeps (λ ss. mem s ss ≡ true → Leads leaders last s) (is_jump last) _ fall
          (λ jump m. elim (mem-append s (target_ids leaders (direct_target last)) _ m) [
            | inl taken ↦ inr (mem-target_ids leaders (direct_target last) s taken)
            | inr past ↦ falls (in_either s (falls_through last) fall past)
          ])
          (λ plain. falls))

get_elem?-bound : (xs : List ℕ) (i a : ℕ) → get_elem? xs i ≡ some a → i < length xs
get_elem?-bound [] i a h = cc
get_elem?-bound (x ∷ xs) zero a h = omega arith
get_elem?-bound (x ∷ xs) (suc i) a h = let rest = get_elem?-bound xs i a h in omega arith

Leads-bound :
    (leaders : List ℕ) (last : Instruction) (s : ℕ) → Leads leaders last s → s < length leaders
Leads-bound leaders last s (inl fall) = get_elem?-bound leaders s (next_address last) fall
Leads-bound leaders last s (inr (target, direct, taken)) = get_elem?-bound leaders s target taken

All-of_mem : (P : ℕ → Type 0) (xs : List ℕ) → ((x : ℕ) → mem x xs ≡ true → P x) → All P xs
All-of_mem P [] h = tt
All-of_mem P (x ∷ xs) h = (h x (ground arith), All-of_mem P xs (λ y m. h y (ground (arith, m))))

-- Every edge of the graph leads to a block.
build_blocks-bound :
    (leaders : List ℕ) (id : ℕ) (bodies : Bodies) (x : ℕ)
    → All (λ s. s < length leaders) (successor_map (build_blocks leaders id bodies) x)
unfolding build_blocks successor_map
build_blocks-bound leaders id [] x = tt
build_blocks-bound leaders id ((addr, []) ∷ bodies) x = build_blocks-bound leaders (suc id) bodies x
build_blocks-bound leaders id ((addr, insn ∷ insns) ∷ bodies) x =
    let last = last_of insn insns in
    if_keeps (All (λ s. s < length leaders)) (id == x) (dedupe [] (successors_of leaders last))
      (successor_map (build_blocks leaders (suc id) bodies) x)
      (λ same. All-of_mem _ (dedupe [] (successors_of leaders last)) (λ s m.
        Leads-bound leaders last s
          (successors_of-Leads leaders last s (mem-dedupe s [] (successors_of leaders last) m))))
      (λ other. build_blocks-bound leaders (suc id) bodies x)

-- On the blocks of any slicing the worklist ends within one round more than there are leaders, with
-- exactly the blocks to which a path of the graph's edges leads from the entry block.
pub reachable_exact :
    (leader : ℕ) (leaders : List ℕ) (bodies : Bodies)
    → let succ = successor_map (build_blocks (leader ∷ leaders) 0 bodies) in
      (set : List ℕ) × (reach succ (length (leader ∷ leaders) + 1) 0 ≡ some set)
      × ((x : ℕ) → (mem x set ≡ true) ↔ PathTo succ 0 x)
reachable_exact leader leaders bodies =
    reach_exact (successor_map (build_blocks (leader ∷ leaders) 0 bodies)) 0
      (length (leader ∷ leaders)) (build_blocks-bound (leader ∷ leaders) 0 bodies) (omega arith)
