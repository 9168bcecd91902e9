-- ===== src/Cfg/Collect.antt =====
-- Step 1 of `build_cfg` of backend/reversing_lab/disassembler/cfg.py: how much of Capstone's linear
-- decoding belongs to the function.
pub mod Extent
use reversing_lab.Prelude.{
  ℕ, suc, ◌+◌, ◌≤◌, ◌≡◌, refl, Bool, true, false, ◌&&◌, ◌||◌, Option, none, some, List, [], ◌∷◌,
  ◌++◌, if◌then◌else◌, leb, ltb, arith, length, min, Bool-cases, inl, inr,
}
use reversing_lab.Cfg.Classify.{
  Instruction, next_address, is_jump, is_return, is_unconditional_jump, direct_target,
}

-- `if target is not None and target > max_forward_target: max_forward_target = target`
abbrev pub raise_forward : Option ℕ → ℕ → ℕ
raise_forward none forward = forward
raise_forward (some target) forward = if ltb forward target then target else forward

unfoldable pub new_forward : Instruction → ℕ → ℕ
new_forward insn forward =
    if is_jump insn then raise_forward (direct_target insn) forward else forward

-- `terminates`
unfoldable pub terminates : Instruction → Bool
terminates insn = is_return insn || is_unconditional_jump insn

-- The loop, from the number of instructions that it has and `max_forward_target`: the instructions that
-- it adds, and `truncated`.
unfoldable pub collect : ℕ → ℕ → ℕ → List Instruction → List Instruction × Bool
collect limit count forward [] = ([], false)
collect limit count forward (insn ∷ insns) =
    let forward' = new_forward insn forward in
    let (rest, truncated) = collect limit (count + 1) forward' insns in
    if leb limit count
    then ([], true)
    else (if terminates insn && ltb forward' (next_address insn)
        then (insn ∷ [], false)
        else (insn ∷ rest, truncated))
