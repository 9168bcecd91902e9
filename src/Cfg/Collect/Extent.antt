-- ===== src/Cfg/Collect/Extent.antt =====
-- How much the collection loop of backend/reversing_lab/disassembler/cfg.py takes.
use reversing_lab.Prelude.{
  ℕ, ◌+◌, ◌≤◌, ◌<◌, ◌≡◌, ◌⊎◌, refl, Bool, true, false, ◌&&◌, List, [], ◌∷◌, ◌++◌, leb, ltb, arith,
  length, inl, inr, ap, if_keeps,
}
use reversing_lab.Cfg.Classify.{Instruction, next_address}
use reversing_lab.Cfg.Collect.{new_forward, terminates, collect}

abbrev pub Extent : ℕ → ℕ → List Instruction → List Instruction × Bool → Type 0
Extent limit count insns (taken, truncated) =
    ((left : List Instruction) × (insns ≡ taken ++ left)
      × ((truncated ≡ false) ⊎ ((count + length taken ≡ limit) × (0 < length left))))
    × (count + length taken ≤ limit)

-- The instructions taken are the first of those decoded and, with the `count` there were, at most
-- `limit`; `truncated` means that exactly `limit` were taken and some are left.
pub collect-Extent :
    (limit count forward : ℕ) (insns : List Instruction)
    → count ≤ limit
    → Extent limit count insns (collect limit count forward insns)
unfolding collect
collect-Extent limit count forward [] h = (([], refl, inl refl), omega arith)
collect-Extent limit count forward (insn ∷ insns) h =
    let forward' = new_forward insn forward in
    if_keeps (Extent limit count (insn ∷ insns)) (leb limit count) ([], true) _
      (λ full. ((insn ∷ insns, refl, inr (ground (arith, full), omega arith)), omega arith))
      (λ room.
        if_keeps (Extent limit count (insn ∷ insns))
          (terminates insn && ltb forward' (next_address insn)) (insn ∷ [], false) _
          (λ ends. ((insns, refl, inl refl), ground (arith, room)))
          (λ goes.
            let rest = collect-Extent limit (count + 1) forward' insns (ground (arith, room)) in
            (
              (
                rest.0.0,
                ap (λ t. insn ∷ t) rest.0.1,
                elim rest.0.2 [
                  | inl whole ↦ inl whole
                  | inr cut ↦ inr (omega (arith, cut.0), cut.1)
                ],
              ),
              omega (arith, rest.1),
            )))
