-- ===== src/Cfg/Slice/Partition.antt =====
-- Slicing, in backend/reversing_lab/disassembler/cfg.py, neither loses nor reorders an instruction.
use mathlib.Core.List.{append-nil, append_assoc}
use reversing_lab.Prelude.{
  ℕ, ◌≤◌, ◌<◌, ◌≡◌, ◌⊎◌, inl, inr, refl, sym, ap, ◌∙◌, true, List, [], ◌∷◌, ◌++◌, ◌==◌,
  if◌then◌else◌, arith, All, Bool-cases,
}
use reversing_lab.Prelude.Sets.{mem, Increasing}
use reversing_lab.Cfg.Classify.{Instruction}
use reversing_lab.Cfg.Leaders.{addresses_of}
use reversing_lab.Cfg.Slice.{Bodies, no_bodies, append_to, slice_from, slice}

abbrev pub keys : Bodies → List ℕ
keys [] = []
keys ((addr, body) ∷ bodies) = addr ∷ keys bodies

-- The instructions of all blocks, in the order of the leaders.
abbrev pub contents : Bodies → List Instruction
contents [] = []
contents ((addr, body) ∷ bodies) = body ++ contents bodies

-- Only the blocks of leaders up to `current` have instructions.
abbrev pub EmptyBeyond : ℕ → Bodies → Type 0
EmptyBeyond current [] = Unit
EmptyBeyond current ((addr, body) ∷ bodies) =
    ((addr ≤ current) ⊎ (body ≡ [])) × EmptyBeyond current bodies

keys-append_to :
    (current : ℕ) (insn : Instruction) (bodies : Bodies)
    → keys (append_to current insn bodies) ≡ keys bodies
unfolding append_to
keys-append_to current insn [] = refl
keys-append_to current insn ((addr, body) ∷ bodies) =
    ground (arith, keys-append_to current insn bodies)

keys-no_bodies : (leaders : List ℕ) → keys (no_bodies leaders) ≡ leaders
unfolding no_bodies
keys-no_bodies [] = refl
keys-no_bodies (x ∷ leaders) = ap (λ t. x ∷ t) (keys-no_bodies leaders)

pub EmptyBeyond-no_bodies :
    (current : ℕ) (leaders : List ℕ) → EmptyBeyond current (no_bodies leaders)
unfolding no_bodies
EmptyBeyond-no_bodies current [] = tt
EmptyBeyond-no_bodies current (x ∷ leaders) = (inr refl, EmptyBeyond-no_bodies current leaders)

contents-no_bodies : (leaders : List ℕ) → contents (no_bodies leaders) ≡ []
unfolding no_bodies
contents-no_bodies [] = refl
contents-no_bodies (x ∷ leaders) = contents-no_bodies leaders

pub EmptyBeyond-up :
    (current next : ℕ) (bodies : Bodies)
    → current ≤ next
    → EmptyBeyond current bodies
    → EmptyBeyond next bodies
EmptyBeyond-up current next [] h e = tt
EmptyBeyond-up current next ((addr, body) ∷ bodies) h e =
    (ground arith, EmptyBeyond-up current next bodies h e.1)

pub EmptyBeyond-append_to :
    (current : ℕ) (insn : Instruction) (bodies : Bodies)
    → EmptyBeyond current bodies
    → EmptyBeyond current (append_to current insn bodies)
unfolding append_to
EmptyBeyond-append_to current insn [] e = tt
EmptyBeyond-append_to current insn ((addr, body) ∷ bodies) e =
    ground (arith, EmptyBeyond-append_to current insn bodies)

contents_beyond :
    (current : ℕ) (bodies : Bodies)
    → All (λ addr. current < addr) (keys bodies)
    → EmptyBeyond current bodies
    → contents bodies ≡ []
contents_beyond current [] above e = refl
contents_beyond current ((addr, body) ∷ bodies) above e =
    ground (arith, contents_beyond current bodies)

-- An instruction appended to the current block is behind all others.
contents-append_to :
    (current : ℕ) (insn : Instruction) (bodies : Bodies)
    → Increasing (keys bodies)
    → mem current (keys bodies) ≡ true
    → EmptyBeyond current bodies
    → contents (append_to current insn bodies) ≡ contents bodies ++ insn ∷ []
unfolding append_to
contents-append_to current insn [] inc m e = cc
contents-append_to current insn ((addr, body) ∷ bodies) inc m e =
    elim (Bool-cases (addr == current)) [
      | inl same ↦
          let e0 : addr ≡ current = ground arith in
          let c = contents_beyond addr bodies inc.0 (rw e0 e.1) in
          ground (arith, same, c, append-nil (body ++ insn ∷ []), append-nil body)
      | inr other ↦ ground (
        arith,
        other,
        contents-append_to current insn bodies inc.1,
        append_assoc body (contents bodies) (insn ∷ []),
      )
    ]

-- Where the next instruction goes: its own block, if it is a leader.
abbrev pub turn : List ℕ → ℕ → Instruction → ℕ
turn leaders current insn = if mem insn.address leaders then insn.address else current

pub turn-mem :
    (leaders : List ℕ) (current : ℕ) (insn : Instruction)
    → mem current leaders ≡ true
    → mem (turn leaders current insn) leaders ≡ true
turn-mem leaders current insn m = ground arith

pub turn-le :
    (leaders : List ℕ) (current : ℕ) (insn : Instruction)
    → current ≤ insn.address
    → (current ≤ turn leaders current insn) × (turn leaders current insn ≤ insn.address)
turn-le leaders current insn h = ground arith

All-le_of_lt : (a b : ℕ) (xs : List ℕ) → a ≤ b → All (λ x. b < x) xs → All (λ x. a ≤ x) xs
All-le_of_lt a b [] h all = tt
All-le_of_lt a b (x ∷ xs) h all = (omega arith, All-le_of_lt a b xs h all.1)

contents-slice_from :
    (leaders : List ℕ) (current : ℕ) (insns : List Instruction) (bodies : Bodies)
    → Increasing leaders
    → keys bodies ≡ leaders
    → mem current leaders ≡ true
    → EmptyBeyond current bodies
    → All (λ a. current ≤ a) (addresses_of insns)
    → Increasing (addresses_of insns)
    → contents (slice_from leaders current insns bodies) ≡ contents bodies ++ insns
unfolding slice_from
contents-slice_from leaders current [] bodies inc k m e above up =
    sym (append-nil (contents bodies))
contents-slice_from leaders current (insn ∷ insns) bodies inc k m e above up =
    let current' = turn leaders current insn in
    let bounds = turn-le leaders current insn above.0 in
    let m' = turn-mem leaders current insn m in
    let e' = EmptyBeyond-up current current' bodies bounds.0 e in
    let here = contents-append_to current' insn bodies (rw k inc) (rw k m') e' in
    let rest =
      contents-slice_from leaders current' insns (append_to current' insn bodies) inc
        (keys-append_to current' insn bodies ∙ k) m' (EmptyBeyond-append_to current' insn bodies e')
        (All-le_of_lt current' insn.address (addresses_of insns) bounds.1 up.0) up.1 in
    rest ∙ ap (λ t. t ++ insns) here ∙ append_assoc (contents bodies) (insn ∷ []) insns

-- Sliced at any sorted leaders of which the first is not behind the first instruction, the blocks hold
-- the instructions in their order.
pub contents-slice :
    (leader : ℕ) (leaders : List ℕ) (insns : List Instruction)
    → Increasing (leader ∷ leaders)
    → All (λ a. leader ≤ a) (addresses_of insns)
    → Increasing (addresses_of insns)
    → contents (slice (leader ∷ leaders) insns) ≡ insns
unfolding slice
contents-slice leader leaders insns inc above up =
    contents-slice_from (leader ∷ leaders) leader insns (no_bodies (leader ∷ leaders)) inc
      (keys-no_bodies (leader ∷ leaders)) (ground arith)
      (EmptyBeyond-no_bodies leader (leader ∷ leaders)) above up
    ∙ ap (λ t. t ++ insns) (contents-no_bodies (leader ∷ leaders))
