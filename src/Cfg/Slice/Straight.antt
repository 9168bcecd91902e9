-- ===== src/Cfg/Slice/Straight.antt =====
-- In the blocks of backend/reversing_lab/disassembler/cfg.py control leaves at the last instruction only.
use reversing_lab.Prelude.{
  ℕ, ◌≤◌, ◌<◌, ◌≡◌, ◌⊎◌, inl, inr, sym, true, false, List, [], ◌∷◌, ◌++◌, ◌==◌, arith, All,
  Bool-cases, if_keeps,
}
use reversing_lab.Prelude.Sets.{mem, Increasing}
use reversing_lab.Cfg.Classify.{Instruction}
use reversing_lab.Cfg.Leaders.{addresses_of, region_of, find_leaders}
use reversing_lab.Cfg.Slice.{Bodies, no_bodies, append_to, slice_from, slice}
use reversing_lab.Cfg.Leaders.Order.{find_leaders-IsLeaders, head_of_leaders}
use mathlib.Core.Path.{subst}
use reversing_lab.Cfg.Slice.Partition.{
  EmptyBeyond, turn, turn-le, EmptyBeyond-up, EmptyBeyond-append_to, EmptyBeyond-no_bodies,
}
use reversing_lab.Cfg.Leaders.Split.{
  transfers, IsPlain, IsStraight, IsContiguous, IsSplit, leaders_from-IsSplit,
}

IsPlain-snoc :
    (body : List Instruction) (insn : Instruction)
    → All IsPlain body
    → IsPlain insn
    → All IsPlain (body ++ insn ∷ [])
IsPlain-snoc [] insn all p = (p, tt)
IsPlain-snoc (x ∷ body) insn all p = (all.0, IsPlain-snoc body insn all.1 p)

IsStraight-snoc :
    (body : List Instruction) (insn : Instruction)
    → All IsPlain body
    → IsStraight (body ++ insn ∷ [])
IsStraight-snoc [] insn all = tt
IsStraight-snoc (x ∷ []) insn all = (all.0, tt)
IsStraight-snoc (x ∷ y ∷ body) insn all = (all.0, IsStraight-snoc (y ∷ body) insn all.1)

-- The block of the current leader is open: unless the last instruction transfers control, it holds
-- none that does.
abbrev IsOpen : ℕ → Instruction → Bodies → Type 0
IsOpen current last [] = Unit
IsOpen current last ((addr, body) ∷ bodies) =
    (IsStraight body × (((addr == current) ≡ false) ⊎ (transfers last ≡ true) ⊎ All IsPlain body))
    × IsOpen current last bodies

-- The block of the current leader can take an instruction.
abbrev IsReady : ℕ → Bodies → Type 0
IsReady current [] = Unit
IsReady current ((addr, body) ∷ bodies) =
    (IsStraight body × (((addr == current) ≡ false) ⊎ All IsPlain body)) × IsReady current bodies

IsReady-turn :
    (leaders : List ℕ) (current : ℕ) (last insn : Instruction) (bodies : Bodies)
    → IsPlain last ⊎ (mem insn.address leaders ≡ true)
    → current < insn.address
    → EmptyBeyond current bodies
    → IsOpen current last bodies
    → IsReady (turn leaders current insn) bodies
IsReady-turn leaders current last insn [] split h e o = tt
IsReady-turn leaders current last insn ((addr, body) ∷ bodies) split h e o =
    let empty : body ≡ [] → All IsPlain body = λ none_yet. subst (All IsPlain) (sym none_yet) tt in
    (
      (o.0.0, ground (arith, split, o.0.1, e.0, empty)),
      IsReady-turn leaders current last insn bodies split h e.1 o.1,
    )

IsOpen-ready :
    (current : ℕ) (insn : Instruction) (bodies : Bodies)
    → IsReady current bodies
    → IsOpen current insn bodies
IsOpen-ready current insn [] r = tt
IsOpen-ready current insn ((addr, body) ∷ bodies) r = (
  (r.0.0, elim r.0.1 [ inl other ↦ inl other | inr plain ↦ inr (inr plain) ]),
  IsOpen-ready current insn bodies r.1,
)

IsOpen-snoc :
    (body : List Instruction) (insn : Instruction)
    → All IsPlain body
    → (transfers insn ≡ true) ⊎ All IsPlain (body ++ insn ∷ [])
IsOpen-snoc body insn all = elim (Bool-cases (transfers insn)) [
  | inl leaves ↦ inl leaves
  | inr plain ↦ inr (IsPlain-snoc body insn all plain)
]

IsOpen-append_to :
    (current : ℕ) (insn : Instruction) (bodies : Bodies)
    → IsReady current bodies
    → IsOpen current insn (append_to current insn bodies)
unfolding append_to
IsOpen-append_to current insn [] r = tt
IsOpen-append_to current insn ((addr, body) ∷ bodies) r =
    if_keeps (IsOpen current insn) (addr == current) ((addr, body ++ insn ∷ []) ∷ bodies)
      ((addr, body) ∷ append_to current insn bodies)
      (λ same.
        let all : All IsPlain body = ground (arith, same, r.0.1) in
        (
          (IsStraight-snoc body insn all, inr (IsOpen-snoc body insn all)),
          IsOpen-ready current insn bodies r.1,
        ))
      (λ other. ((r.0.0, inl other), IsOpen-append_to current insn bodies r.1))

abbrev pub AllStraight : Bodies → Type 0
AllStraight [] = Unit
AllStraight ((addr, body) ∷ bodies) = IsStraight body × AllStraight bodies

AllStraight-open :
    (current : ℕ) (insn : Instruction) (bodies : Bodies)
    → IsOpen current insn bodies
    → AllStraight bodies
AllStraight-open current insn [] o = tt
AllStraight-open current insn ((addr, body) ∷ bodies) o =
    (o.0.0, AllStraight-open current insn bodies o.1)

slice_from-AllStraight :
    (leaders : List ℕ) (current : ℕ) (last : Instruction) (insns : List Instruction)
    (bodies : Bodies)
    → IsSplit leaders (last ∷ insns)
    → Increasing (addresses_of (last ∷ insns))
    → current ≤ last.address
    → EmptyBeyond current bodies
    → IsOpen current last bodies
    → AllStraight (slice_from leaders current insns bodies)
unfolding slice_from
slice_from-AllStraight leaders current last [] bodies split up h e o =
    AllStraight-open current last bodies o
slice_from-AllStraight leaders current last (insn ∷ insns) bodies split up h e o =
    let current' = turn leaders current insn in
    let before : current < insn.address = omega (arith, up.0.0) in
    let bounds = turn-le leaders current insn (omega arith) in
    let ready = IsReady-turn leaders current last insn bodies split.0 before e o in
    let e' = EmptyBeyond-up current current' bodies bounds.0 e in
    slice_from-AllStraight leaders current' insn insns (append_to current' insn bodies) split.1 up.1
      bounds.1 (EmptyBeyond-append_to current' insn bodies e')
      (IsOpen-append_to current' insn bodies ready)

IsReady-no_bodies : (current : ℕ) (leaders : List ℕ) → IsReady current (no_bodies leaders)
unfolding no_bodies
IsReady-no_bodies current [] = tt
IsReady-no_bodies current (x ∷ leaders) = ((tt, inr tt), IsReady-no_bodies current leaders)

mem_cons :
    (y : ℕ) (ys all : List ℕ)
    → All (λ a. mem a all ≡ true) ys
    → All (λ a. mem a (y ∷ all) ≡ true) ys
mem_cons y [] all h = tt
mem_cons y (x ∷ ys) all h = (ground (arith, h.0), mem_cons y ys all h.1)

All-mem : (xs : List ℕ) → All (λ a. mem a xs ≡ true) xs
All-mem [] = tt
All-mem (x ∷ xs) = (ground arith, mem_cons x xs xs (All-mem xs))

slice-AllStraight :
    (others : List ℕ) (first : Instruction) (rest : List Instruction)
    → let leaders = first.address ∷ others in
      IsSplit leaders (first ∷ rest)
      → Increasing (addresses_of (first ∷ rest))
      → AllStraight (slice leaders (first ∷ rest))
unfolding slice slice_from
slice-AllStraight others first rest split up =
    let leaders = first.address ∷ others in
    let current = turn leaders first.address first in
    let bounds = turn-le leaders first.address first (omega arith) in
    let empty = EmptyBeyond-no_bodies current leaders in
    slice_from-AllStraight leaders current first rest (append_to current first (no_bodies leaders))
      split up bounds.1 (EmptyBeyond-append_to current first (no_bodies leaders) empty)
      (IsOpen-append_to current first (no_bodies leaders) (IsReady-no_bodies current leaders))

-- Where the instructions follow one on the other and the number of blocks is not cut, a branch or a
-- return can stand only at the end of a block.
pub blocks_straight :
    (first : Instruction) (rest : List Instruction)
    → Increasing (addresses_of (first ∷ rest))
    → IsContiguous (first ∷ rest)
    → AllStraight (slice (find_leaders first rest) (first ∷ rest))
unfolding find_leaders
blocks_straight first rest up contiguous =
    let is_leaders = find_leaders-IsLeaders first rest up in
    let (others, head) =
      head_of_leaders (region_of first rest) (find_leaders first rest) is_leaders in
    let split =
      leaders_from-IsSplit (region_of first rest) (first ∷ rest) (first.address ∷ [])
        (All-mem (addresses_of (first ∷ rest))) contiguous in
    let split' = subst (λ ls. IsSplit ls (first ∷ rest)) head split in
    subst (λ ls. AllStraight (slice ls (first ∷ rest))) (sym head)
      (slice-AllStraight others first rest split' up)
