-- ===== src/Cfg/Tests.antt =====
-- Runs of the model, and each theorem at an input.
use reversing_lab.Prelude.{ℕ, ◌+◌, ◌≡◌, ◌⊎◌, ◌↔◌, refl, true, some, List, [], ◌∷◌, length, arith}
use reversing_lab.Prelude.Sets.{mem, insert}
use reversing_lab.Prelude.Trim.{strip, lstrip, rstrip, behind_comma}
use reversing_lab.Cfg.Classify.{
  Instruction, last_operand, hex_value, read_hex, read_target, direct_target, is_call, is_jump,
  is_return, is_unconditional_jump, falls_through,
}
use reversing_lab.Cfg.Leaders.{find_leaders, leaders_from, add_leaders, add_target, add_next}
use reversing_lab.Cfg.Slice.{Bodies, slice, cut_leaders}
use reversing_lab.Cfg.Slice.Partition.{contents}
use reversing_lab.Cfg.Slice.Whole.{blocks_partition}
use reversing_lab.Cfg.Slice.Straight.{AllStraight, blocks_straight}
use reversing_lab.Cfg.Reach.{reach, PathTo}
use reversing_lab.Cfg.Graph.{
  block_edge, build_blocks, successor_map, leader_to_id, successors_of, dedupe, last_edges,
  typed_edges, edges_of,
}
use reversing_lab.Cfg.Graph.Edges.{reachable_exact}
use reversing_lab.Cfg.Graph.Exits.{FallsTo, BranchesTo, mem-successors_of}
use reversing_lab.Cfg.Graph.Typed.{targeted, typed_edges-eq-edges, outside_target_edge}

-- je 0x5
abbrev branch : Instruction
branch = record {
  address = 0;
  mnemonic = "je";
  op_str = "0x5";
  bytes_hex = "7403";
  size = 2;
  groups = "jump" ∷ [];
}

-- mov eax, 0x2a
abbrev move : Instruction
move = record {
  address = 2;
  mnemonic = "mov";
  op_str = "eax, 0x2a";
  bytes_hex = "6a2a58";
  size = 3;
  groups = [];
}

abbrev leave : Instruction
leave = record {
  address = 5;
  mnemonic = "ret";
  op_str = "";
  bytes_hex = "c3";
  size = 1;
  groups = "ret" ∷ [];
}

abbrev rest : List Instruction
rest = move ∷ leave ∷ []

-- je 0x50, out of the function
abbrev escape : Instruction
escape = record {
  address = 0;
  mnemonic = "je";
  op_str = "0x50";
  bytes_hex = "744e";
  size = 2;
  groups = "jump" ∷ [];
}

target_of_branch : direct_target branch ≡ some 5
unfolding direct_target last_operand behind_comma strip lstrip rstrip read_target read_hex hex_value
target_of_branch = refl

three_leaders : find_leaders branch rest ≡ 0 ∷ 2 ∷ 5 ∷ []
unfolding find_leaders leaders_from add_leaders add_target add_next insert direct_target
    last_operand behind_comma strip lstrip rstrip read_target read_hex hex_value is_jump is_return
    is_call
three_leaders = refl

blocks_partition_example :
    contents (slice (cut_leaders 2 (find_leaders branch rest)).0 (branch ∷ rest)) ≡ branch ∷ rest
blocks_partition_example =
    blocks_partition 2 branch rest (omega arith)
      ((omega arith, (omega arith, tt)), ((omega arith, tt), (tt, tt)))

blocks_straight_example : AllStraight (slice (find_leaders branch rest) (branch ∷ rest))
blocks_straight_example =
    blocks_straight branch rest ((omega arith, (omega arith, tt)), ((omega arith, tt), (tt, tt)))
      (refl, (refl, tt))

-- The blocks of the three leaders.
abbrev bodies : Bodies
bodies = (0, branch ∷ []) ∷ (2, move ∷ []) ∷ (5, leave ∷ []) ∷ []

reachable_exact_example :
    let succ = successor_map (build_blocks (0 ∷ 2 ∷ 5 ∷ []) 0 bodies) in
    (set : List ℕ) × (reach succ (length {A = ℕ} (0 ∷ 2 ∷ 5 ∷ []) + 1) 0 ≡ some set)
    × ((x : ℕ) → (mem x set ≡ true) ↔ PathTo succ 0 x)
reachable_exact_example = reachable_exact 0 (2 ∷ 5 ∷ []) bodies

mem-successors_of_example :
    (mem 2 (dedupe [] (successors_of (0 ∷ 2 ∷ 5 ∷ []) branch)) ≡ true)
    ↔ (FallsTo (0 ∷ 2 ∷ 5 ∷ []) branch 2 ⊎ BranchesTo (0 ∷ 2 ∷ 5 ∷ []) branch 2)
mem-successors_of_example = mem-successors_of (0 ∷ 2 ∷ 5 ∷ []) branch 2 (omega arith)

typed_edges-eq-edges_example :
    let successors = dedupe [] (successors_of (0 ∷ 2 ∷ 5 ∷ []) branch) in
    targeted (typed_edges 0 branch [] successors) ≡ edges_of 0 successors
typed_edges-eq-edges_example = typed_edges-eq-edges (0 ∷ 2 ∷ 5 ∷ []) 0 branch []

outside_target_edge_example :
    last_edges 0 escape (dedupe [] (successors_of (0 ∷ 2 ∷ 5 ∷ []) escape))
    ≡ block_edge 0 "conditional" escape (some 80) 1 ∷ []
unfolding leader_to_id falls_through is_unconditional_jump direct_target last_operand behind_comma
    strip lstrip rstrip read_target read_hex hex_value is_jump is_return is_call
outside_target_edge_example =
    outside_target_edge (0 ∷ 2 ∷ 5 ∷ []) 0 1 80 escape refl refl refl refl refl refl
