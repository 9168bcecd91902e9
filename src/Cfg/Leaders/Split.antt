-- ===== src/Cfg/Leaders/Split.antt =====
-- The leaders of backend/reversing_lab/disassembler/cfg.py stand behind each branch and each return.
use reversing_lab.Prelude.{
  ℕ, ◌≡◌, ◌⊎◌, inl, inr, sym, Bool, true, false, ◌||◌, Option, none, some, List, [], ◌∷◌, arith,
  All, Bool-cases, if_keeps,
}
use reversing_lab.Prelude.Sets.{mem, mem-insert}
use reversing_lab.Cfg.Classify.{Instruction, next_address, is_jump, is_return, direct_target}
use reversing_lab.Cfg.Leaders.{
  addresses_of, Region, add_target, add_next, add_leaders, leaders_from,
}
use mathlib.Core.Path.{subst}

-- A branch or a return.
abbrev pub transfers : Instruction → Bool
transfers insn = is_jump insn || is_return insn

abbrev pub IsPlain : Instruction → Type 0
IsPlain insn = transfers insn ≡ false

-- Only the last instruction may transfer control.
abbrev pub IsStraight : List Instruction → Type 0
IsStraight [] = Unit
IsStraight (insn ∷ []) = Unit
IsStraight (insn ∷ next ∷ rest) = IsPlain insn × IsStraight (next ∷ rest)

-- Each instruction begins where the one before it ends.
abbrev pub IsContiguous : List Instruction → Type 0
IsContiguous [] = Unit
IsContiguous (insn ∷ []) = Unit
IsContiguous (insn ∷ next ∷ rest) = (next_address insn ≡ next.address) × IsContiguous (next ∷ rest)

-- Behind an instruction that transfers control stands a leader.
abbrev pub IsSplit : List ℕ → List Instruction → Type 0
IsSplit leaders [] = Unit
IsSplit leaders (insn ∷ []) = Unit
IsSplit leaders (insn ∷ next ∷ rest) =
    (IsPlain insn ⊎ (mem next.address leaders ≡ true)) × IsSplit leaders (next ∷ rest)

module _ (region : Region) where
  mem-add_target :
      (x : ℕ) (o : Option ℕ) (leaders : List ℕ)
      → mem x leaders ≡ true
      → mem x (add_target region o leaders) ≡ true
  unfolding add_target
  mem-add_target x none leaders m = m
  mem-add_target x (some target) leaders m = ground (arith, mem-insert x target leaders)

  mem-add_next :
      (x : ℕ) (insn : Instruction) (leaders : List ℕ)
      → mem x leaders ≡ true
      → mem x (add_next region insn leaders) ≡ true
  unfolding add_next
  mem-add_next x insn leaders m = ground (arith, mem-insert x (next_address insn) leaders)

  mem-add_next_self :
      (insn : Instruction) (leaders : List ℕ)
      → mem (next_address insn) region.addresses ≡ true
      → mem (next_address insn) (add_next region insn leaders) ≡ true
  unfolding add_next
  mem-add_next_self insn leaders m =
      ground (arith, mem-insert (next_address insn) (next_address insn) leaders)

  mem-add_leaders :
      (x : ℕ) (insn : Instruction) (leaders : List ℕ)
      → mem x leaders ≡ true
      → mem x (add_leaders region insn leaders) ≡ true
  mem-add_leaders x insn leaders m =
      let t = mem-add_target x (direct_target insn) leaders m in
      unfold add_leaders in
      if_keeps (λ ls. mem x ls ≡ true) (is_jump insn) _ _ (λ jump. mem-add_next x insn _ t)
        (λ other.
          if_keeps (λ ls. mem x ls ≡ true) (is_return insn) _ _
            (λ ret. mem-add_next x insn leaders m) (λ plain. m))

  next-add_leaders :
      (insn : Instruction) (leaders : List ℕ)
      → mem (next_address insn) region.addresses ≡ true
      → IsPlain insn ⊎ (mem (next_address insn) (add_leaders region insn leaders) ≡ true)
  next-add_leaders insn leaders m =
      let targets = add_target region (direct_target insn) leaders in
      let after_jump = mem-add_next_self insn targets m in
      let after_return = mem-add_next_self insn leaders m in
      elim (Bool-cases (is_jump insn)) [
        | inl jump ↦ inr (unfold add_leaders in rw jump after_jump)
        | inr other ↦ elim (Bool-cases (is_return insn)) [
          | inl ret ↦ inr (unfold add_leaders in rw (other, ret) after_return)
          | inr plain ↦ inl (ground (arith, other, plain))
        ]
      ]

  mem-leaders_from :
      (x : ℕ) (insns : List Instruction) (leaders : List ℕ)
      → mem x leaders ≡ true
      → mem x (leaders_from region insns leaders) ≡ true
  unfolding leaders_from
  mem-leaders_from x [] leaders m = m
  mem-leaders_from x (insn ∷ insns) leaders m =
      mem-leaders_from x insns (add_leaders region insn leaders) (mem-add_leaders x insn leaders m)

  pub leaders_from-IsSplit :
      (insns : List Instruction) (leaders : List ℕ)
      → All (λ a. mem a region.addresses ≡ true) (addresses_of insns)
      → IsContiguous insns
      → IsSplit (leaders_from region insns leaders) insns
  unfolding leaders_from
  leaders_from-IsSplit [] leaders inside c = tt
  leaders_from-IsSplit (insn ∷ []) leaders inside c = tt
  leaders_from-IsSplit (insn ∷ next ∷ rest) leaders inside c =
      let after = add_leaders region insn leaders in
      let there = subst (λ a. mem a region.addresses ≡ true) (sym c.0) inside.1.0 in
      (
        elim (next-add_leaders insn leaders there) [
          | inl plain ↦ inl plain
          | inr m ↦ inr (
              subst (λ a. mem a (leaders_from region (next ∷ rest) after) ≡ true) c.0
                (mem-leaders_from (next_address insn) (next ∷ rest) after m))
        ],
        leaders_from-IsSplit (next ∷ rest) after inside.1 c.1,
      )
