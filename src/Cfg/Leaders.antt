-- ===== src/Cfg/Leaders.antt =====
-- Step 2 of `build_cfg` of backend/reversing_lab/disassembler/cfg.py: the leaders, as a sorted set.
pub mod Order
pub mod Split
use reversing_lab.Prelude.{
  ℕ, ◌+◌, ◌≤◌, ◌<◌, ◌≡◌, refl, Bool, true, false, ◌&&◌, ◌||◌, Option, none, some, List, [], ◌∷◌,
  map, if◌then◌else◌, leb, ltb, ◌==◌, arith, Bool-cases, inl, inr, ◌⊎◌,
}
use reversing_lab.Prelude.Sets.{mem, insert, Increasing, insert-Increasing, mem-insert}
use reversing_lab.Cfg.Classify.{Instruction, next_address, is_jump, is_return, direct_target}

-- {insn.address for insn in instructions}
abbrev pub addresses_of : List Instruction → List ℕ
addresses_of = map (λ (insn : Instruction). insn.address)

-- The region that a target must lie in: its lowest address, the address behind it, and where its
-- instructions begin.
pub record Region : Type 0 where
  pub lowest : ℕ
  pub highest : ℕ
  pub addresses : List ℕ

unfoldable pub add_target : Region → Option ℕ → List ℕ → List ℕ
add_target region none leaders = leaders
add_target region (some target) leaders =
    if leb region.lowest target && ltb target region.highest && mem target region.addresses
    then insert target leaders
    else leaders

unfoldable pub add_next : Region → Instruction → List ℕ → List ℕ
add_next region insn leaders =
    if mem (next_address insn) region.addresses then insert (next_address insn) leaders else leaders

-- The body of the loop over the instructions.
unfoldable pub add_leaders : Region → Instruction → List ℕ → List ℕ
unfolding add_target add_next
add_leaders region insn leaders =
    if is_jump insn
    then add_next region insn (add_target region (direct_target insn) leaders)
    else (if is_return insn then add_next region insn leaders else leaders)

unfoldable pub leaders_from : Region → List Instruction → List ℕ → List ℕ
unfolding add_leaders
leaders_from region [] leaders = leaders
leaders_from region (insn ∷ insns) leaders =
    leaders_from region insns (add_leaders region insn leaders)

abbrev pub last_end : Instruction → List Instruction → ℕ
last_end insn [] = next_address insn
last_end insn (x ∷ xs) = last_end x xs

abbrev pub region_of : Instruction → List Instruction → Region
region_of first rest = record {
  lowest = first.address;
  highest = last_end first rest;
  addresses = addresses_of (first ∷ rest);
}

-- The leaders of a non-empty list of instructions.
unfoldable pub find_leaders : Instruction → List Instruction → List ℕ
unfolding leaders_from
find_leaders first rest = leaders_from (region_of first rest) (first ∷ rest) (first.address ∷ [])
