-- ===== src/Cfg/Slice.antt =====
-- Step 3 of `build_cfg` of backend/reversing_lab/disassembler/cfg.py: the bound on the number of
-- blocks, and the slicing of the instructions at the leaders.
pub mod Partition
pub mod Whole
pub mod Straight
use reversing_lab.Prelude.{
  ℕ, suc, ◌+◌, ◌≤◌, ◌<◌, ◌≡◌, refl, Bool, true, false, Option, none, some, List, [], ◌∷◌, ◌++◌, map,
  if◌then◌else◌, leb, ltb, ◌==◌, arith, take, length,
}
use reversing_lab.Prelude.Sets.{mem}
use reversing_lab.Cfg.Classify.{Instruction, next_address}

-- block_instructions: each leader with the instructions of its block
abbrev pub Bodies : Type 0
Bodies = List (ℕ × List Instruction)

-- {addr: [] for addr in sorted_leaders}
unfoldable pub no_bodies : List ℕ → Bodies
no_bodies [] = []
no_bodies (addr ∷ leaders) = (addr, []) ∷ no_bodies leaders

-- block_instructions[current].append(insn)
unfoldable pub append_to : ℕ → Instruction → Bodies → Bodies
append_to current insn [] = []
append_to current insn ((addr, body) ∷ bodies) =
    if addr == current
    then (addr, body ++ insn ∷ []) ∷ bodies
    else (addr, body) ∷ append_to current insn bodies

-- The loop over the instructions, from the current leader.
unfoldable pub slice_from : List ℕ → ℕ → List Instruction → Bodies → Bodies
slice_from leaders current [] bodies = bodies
slice_from leaders current (insn ∷ insns) bodies =
    let current' = if mem insn.address leaders then insn.address else current in
    slice_from leaders current' insns (append_to current' insn bodies)

-- sorted_leaders, cut at max_cfg_nodes, with `truncated`
unfoldable pub cut_leaders : ℕ → List ℕ → List ℕ × Bool
cut_leaders max_nodes leaders =
    if ltb max_nodes (length leaders) then (take max_nodes leaders, true) else (leaders, false)

abbrev pub first_of_list : List ℕ → ℕ
first_of_list [] = 0
first_of_list (x ∷ xs) = x

unfoldable pub slice : List ℕ → List Instruction → Bodies
unfolding slice_from no_bodies append_to
slice leaders insns = slice_from leaders (first_of_list leaders) insns (no_bodies leaders)
