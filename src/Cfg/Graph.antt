-- ===== src/Cfg/Graph.antt =====
-- The blocks, their successors and the typed edges of `build_cfg` of
-- backend/reversing_lab/disassembler/cfg.py.
pub mod Edges
pub mod Exits
pub mod Typed
use reversing_lab.Prelude.{
  ℕ, zero, suc, ◌+◌, Bool, true, false, Option, none, some, List, [], ◌∷◌, ◌++◌, String,
  if◌then◌else◌, ◌==◌, map,
}
use reversing_lab.Prelude.Sets.{mem}
use reversing_lab.Cfg.Classify.{
  Instruction, next_address, is_jump, is_return, is_call, direct_target, falls_through,
}
use reversing_lab.Cfg.Slice.{Bodies}

-- A block before reachability and dominators are known.
pub record BasicBlock : Type 0 where
  pub id : ℕ
  pub start_address : ℕ
  pub end_address : ℕ
  pub instructions : List Instruction
  pub successors : List ℕ

pub record CfgEdge : Type 0 where
  pub source : ℕ
  pub target : Option ℕ
  pub kind : String
  pub instruction_address : ℕ
  pub target_address : Option ℕ

abbrev pub one_more : Option ℕ → Option ℕ
one_more none = none
one_more (some n) = some (suc n)

-- leader_to_id.get(address): the index among the leaders
unfoldable pub leader_to_id : List ℕ → ℕ → Option ℕ
leader_to_id [] address = none
leader_to_id (leader ∷ leaders) address =
    let rest = one_more (leader_to_id leaders address) in if leader == address then some 0 else rest

abbrev pub to_list : Option ℕ → List ℕ
to_list none = []
to_list (some x) = x ∷ []

-- `if target is not None and target in leader_to_id: successors.append(…)`
abbrev pub target_ids : List ℕ → Option ℕ → List ℕ
target_ids leaders none = []
target_ids leaders (some target) = to_list (leader_to_id leaders target)

-- `successors` of a block with this last instruction
unfoldable pub successors_of : List ℕ → Instruction → List ℕ
unfolding leader_to_id
successors_of leaders last =
    let fall = to_list (leader_to_id leaders (next_address last)) in
    if is_return last
    then []
    else (if is_jump last
        then target_ids leaders (direct_target last) ++ (if falls_through last then fall else [])
        else fall)

-- `ordered_successors`
unfoldable pub dedupe : List ℕ → List ℕ → List ℕ
dedupe seen [] = []
dedupe seen (s ∷ ss) =
    let rest = dedupe (s ∷ seen) ss in if mem s seen then dedupe seen ss else s ∷ rest

abbrev pub last_of : Instruction → List Instruction → Instruction
last_of insn [] = insn
last_of insn (x ∷ xs) = last_of x xs

-- The loop over the leaders, from the identifier of the first.
unfoldable pub build_blocks : List ℕ → ℕ → Bodies → List BasicBlock
unfolding successors_of dedupe
build_blocks leaders id [] = []
build_blocks leaders id ((addr, []) ∷ bodies) = build_blocks leaders (suc id) bodies
build_blocks leaders id ((addr, insn ∷ insns) ∷ bodies) =
    record {
      id = id;
      start_address = addr;
      end_address = next_address (last_of insn insns);
      instructions = insn ∷ insns;
      successors = dedupe [] (successors_of leaders (last_of insn insns));
    }
    ∷ build_blocks leaders (suc id) bodies

-- successor_map.get(id, set())
unfoldable pub successor_map : List BasicBlock → ℕ → List ℕ
successor_map [] id = []
successor_map (block ∷ blocks) id =
    let rest = successor_map blocks id in if block.id == id then block.successors else rest

-- The edges of one block, as pairs.
abbrev pub edges_of : ℕ → List ℕ → List (ℕ × ℕ)
edges_of id = map (λ s. (id, s))

-- An edge to a block of the graph.
abbrev pub block_edge : ℕ → String → Instruction → Option ℕ → ℕ → CfgEdge
block_edge id kind insn target_address t = record {
  source = id;
  target = some t;
  kind = kind;
  instruction_address = insn.address;
  target_address = target_address;
}

-- An edge that has no target in the graph.
abbrev pub open_edge : ℕ → String → Instruction → Option ℕ → CfgEdge
open_edge id kind insn target_address = record {
  source = id;
  target = none;
  kind = kind;
  instruction_address = insn.address;
  target_address = target_address;
}

-- The typed edges of a branch with a direct target, from the index 0.
unfoldable pub jump_edges : ℕ → Instruction → ℕ → List ℕ → List CfgEdge
jump_edges id last target_address [] = []
jump_edges id last target_address (target ∷ targets) =
    let conditional = falls_through last in
    block_edge id (if conditional then "conditional" else "unconditional") last
      (some target_address) target
    ∷ map (block_edge id (if conditional then "fallthrough" else "unconditional") last none) targets

abbrev pub indirect_or : ℕ → Instruction → List ℕ → Option ℕ → List CfgEdge
indirect_or id last successors none = open_edge id "indirect" last none ∷ []
indirect_or id last successors (some target_address) = jump_edges id last target_address successors

-- The typed edges of the last instruction.
unfoldable pub last_edges : ℕ → Instruction → List ℕ → List CfgEdge
unfolding jump_edges
last_edges id last successors =
    if is_return last
    then open_edge id "return" last none ∷ []
    else (if is_jump last
        then indirect_or id last successors (direct_target last)
        else map (block_edge id "fallthrough" last none) successors)

-- The calls of a block.
unfoldable pub call_edges : ℕ → List Instruction → List CfgEdge
call_edges id [] = []
call_edges id (insn ∷ insns) =
    let rest = call_edges id insns in
    if is_call insn then open_edge id "call" insn (direct_target insn) ∷ rest else rest

-- All typed edges of a block that begins with this instruction.
unfoldable pub typed_edges : ℕ → Instruction → List Instruction → List ℕ → List CfgEdge
unfolding last_edges call_edges
typed_edges id insn insns successors =
    last_edges id (last_of insn insns) successors ++ call_edges id (insn ∷ insns)
