-- ===== src/Cfg/Slice/Whole.antt =====
-- From the collected instructions to the blocks, in backend/reversing_lab/disassembler/cfg.py.
use reversing_lab.Prelude.{
  ℕ, zero, suc, ◌<◌, ◌≡◌, List, [], ◌∷◌, ltb, arith, All, take, length, Bool-cases, inl, inr,
}
use reversing_lab.Prelude.Sets.{Increasing}
use reversing_lab.Cfg.Classify.{Instruction}
use reversing_lab.Cfg.Leaders.{addresses_of, region_of, find_leaders}
use reversing_lab.Cfg.Leaders.Order.{find_leaders-IsLeaders, head_of_leaders, at_most}
use reversing_lab.Cfg.Slice.{slice, cut_leaders}
use reversing_lab.Cfg.Slice.Partition.{contents, contents-slice}

All-take : (P : ℕ → Type 0) (n : ℕ) (xs : List ℕ) → All P xs → All P (take n xs)
All-take P zero xs all = tt
All-take P (suc n) [] all = tt
All-take P (suc n) (x ∷ xs) all = (all.0, All-take P n xs all.1)

Increasing-take : (n : ℕ) (xs : List ℕ) → Increasing xs → Increasing (take n xs)
Increasing-take zero xs up = tt
Increasing-take (suc n) [] up = tt
Increasing-take (suc n) (x ∷ xs) up = (All-take _ n xs up.0, Increasing-take n xs up.1)

-- Cut at one block at least, sorted leaders stay sorted and keep their first.
cut_head :
    (max_nodes leader : ℕ) (leaders : List ℕ)
    → Increasing (leader ∷ leaders)
    → 0 < max_nodes
    → (others : List ℕ) × ((cut_leaders max_nodes (leader ∷ leaders)).0 ≡ leader ∷ others)
      × Increasing (leader ∷ others)
unfolding cut_leaders
cut_head zero leader leaders up some_nodes = absurd (omega arith)
cut_head (suc n) leader leaders up some_nodes =
    elim (Bool-cases (ltb (suc n) (length (leader ∷ leaders)))) [
      | inl long ↦
          (take n leaders, ground (arith, long), Increasing-take (suc n) (leader ∷ leaders) up)
      | inr short ↦ (leaders, ground (arith, short), up)
    ]

-- Decoded instructions with increasing addresses are, block after block, the instructions of the graph:
-- each is in exactly one place, in order, also where the number of blocks is cut.
pub blocks_partition :
    (max_nodes : ℕ) (first : Instruction) (rest : List Instruction)
    → 0 < max_nodes
    → Increasing (addresses_of (first ∷ rest))
    → contents (slice (cut_leaders max_nodes (find_leaders first rest)).0 (first ∷ rest))
      ≡ first ∷ rest
blocks_partition max_nodes first rest some_nodes up =
    let is_leaders = find_leaders-IsLeaders first rest up in
    let (leaders, head) = head_of_leaders (region_of first rest) _ is_leaders in
    let (others, cut, sorted) =
      cut_head max_nodes first.address leaders (rw head at is_leaders.0) some_nodes in
    rw (head, cut)
      (contents-slice first.address others (first ∷ rest) sorted
        (omega arith, at_most first.address (addresses_of rest) up.0) up)
