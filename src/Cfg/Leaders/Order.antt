-- ===== src/Cfg/Leaders/Order.antt =====
-- The leaders of backend/reversing_lab/disassembler/cfg.py are sorted, begin at the first instruction,
-- and are addresses of instructions.
use reversing_lab.Prelude.{
  ℕ, ◌≤◌, ◌<◌, ◌≡◌, true, Option, none, some, List, [], ◌∷◌, ◌==◌, ltb, leb, if◌then◌else◌, arith,
  All, if_keeps, ◌&&◌, Bool-cases, inl, inr, ap,
}
use reversing_lab.Prelude.Sets.{mem, insert, Increasing, insert-Increasing, mem-insert, of_mem}
use reversing_lab.Cfg.Classify.{Instruction, next_address, is_jump, is_return, direct_target}
use reversing_lab.Cfg.Leaders.{
  addresses_of, Region, add_target, add_next, add_leaders, leaders_from, region_of, find_leaders,
}

abbrev pub IsLeaders : Region → List ℕ → Type 0
IsLeaders region leaders =
    Increasing leaders
    × (mem region.lowest leaders ≡ true)
    × All (λ l. (region.lowest ≤ l) × (mem l region.addresses ≡ true)) leaders

All-insert : (P : ℕ → Type 0) (x : ℕ) (xs : List ℕ) → P x → All P xs → All P (insert x xs)
unfolding insert
All-insert P x [] p all = (p, tt)
All-insert P x (y ∷ ys) p all =
    if_keeps (All P) (ltb x y) (x ∷ y ∷ ys) (if x == y then y ∷ ys else y ∷ insert x ys)
      (λ before. (p, all))
      (λ behind.
        if_keeps (All P) (x == y) (y ∷ ys) (y ∷ insert x ys) (λ same. all)
          (λ other. (all.0, All-insert P x ys p all.1)))

insert-IsLeaders :
    (region : Region) (x : ℕ) (leaders : List ℕ)
    → region.lowest ≤ x
    → mem x region.addresses ≡ true
    → IsLeaders region leaders
    → IsLeaders region (insert x leaders)
insert-IsLeaders region x leaders h m i = (
  insert-Increasing x leaders i.0,
  ground (arith, mem-insert region.lowest x leaders, i.1),
  All-insert _ x leaders (h, m) i.2,
)

module _ (region : Region) (lowest : All (λ a. region.lowest ≤ a) region.addresses) where
  add_target-IsLeaders :
      (o : Option ℕ) (leaders : List ℕ)
      → IsLeaders region leaders
      → IsLeaders region (add_target region o leaders)
  unfolding add_target
  add_target-IsLeaders none leaders i = i
  add_target-IsLeaders (some target) leaders i =
      if_keeps (IsLeaders region)
        (leb region.lowest target && ltb target region.highest && mem target region.addresses)
        (insert target leaders) leaders
        (λ c.
          let there : mem target region.addresses ≡ true = ground arith in
          insert-IsLeaders region target leaders (of_mem _ target region.addresses lowest there)
            there i)
        (λ c. i)

  add_next-IsLeaders :
      (insn : Instruction) (leaders : List ℕ)
      → IsLeaders region leaders
      → IsLeaders region (add_next region insn leaders)
  unfolding add_next
  add_next-IsLeaders insn leaders i =
      if_keeps (IsLeaders region) (mem (next_address insn) region.addresses)
        (insert (next_address insn) leaders) leaders
        (λ there.
          insert-IsLeaders region (next_address insn) leaders
            (of_mem _ (next_address insn) region.addresses lowest there) there i)
        (λ c. i)

  leaders_from-IsLeaders :
      (insns : List Instruction) (leaders : List ℕ)
      → IsLeaders region leaders
      → IsLeaders region (leaders_from region insns leaders)
  unfolding leaders_from
  leaders_from-IsLeaders [] leaders i = i
  leaders_from-IsLeaders (insn ∷ insns) leaders i =
      leaders_from-IsLeaders insns (add_leaders region insn leaders) (
        unfold add_leaders in
        if_keeps (IsLeaders region) (is_jump insn) _ _
          (λ jump. add_next-IsLeaders insn _ (add_target-IsLeaders (direct_target insn) leaders i))
          (λ other.
            if_keeps (IsLeaders region) (is_return insn) _ _
              (λ ret. add_next-IsLeaders insn leaders i) (λ plain. i)))

pub at_most : (a : ℕ) (xs : List ℕ) → All (λ x. a < x) xs → All (λ x. a ≤ x) xs
at_most a [] all = tt
at_most a (x ∷ xs) all = (omega arith, at_most a xs all.1)

-- The leaders of instructions in the order of their addresses are increasing, each is the address of
-- an instruction, and the first instruction's address is the least of them.
pub find_leaders-IsLeaders :
    (first : Instruction) (rest : List Instruction)
    → Increasing (addresses_of (first ∷ rest))
    → IsLeaders (region_of first rest) (find_leaders first rest)
unfolding find_leaders
find_leaders-IsLeaders first rest up =
    leaders_from-IsLeaders (region_of first rest)
      (omega arith, at_most first.address (addresses_of rest) up.0) (first ∷ rest)
      (first.address ∷ []) ((tt, tt), ground arith, ((omega arith, ground arith), tt))

pub head_of_leaders :
    (region : Region) (leaders : List ℕ)
    → IsLeaders region leaders
    → (others : List ℕ) × (leaders ≡ region.lowest ∷ others)
head_of_leaders region [] i = cc
head_of_leaders region (x ∷ xs) i = elim (Bool-cases (x == region.lowest)) [
  | inl same ↦ (xs, ap (λ t. t ∷ xs) (ground arith))
  | inr other ↦
      let behind = of_mem (λ y. x < y) region.lowest xs i.0.0 (ground (arith, other)) in
      absurd (omega (arith, i.2.0.0))
]
