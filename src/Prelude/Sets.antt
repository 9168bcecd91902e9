-- ===== src/Prelude/Sets.antt =====
-- Python's `set` of numbers. Where only membership counts it is a list with `mem`; where the program
-- sorts it, it is a strictly increasing list, kept so by `insert`.
use Prim.Native.Nat.{ℕ, ◌<◌}
use mathlib.Core.Path.{◌≡◌, refl}
use mathlib.Core.Bool.{Bool, true, false, ◌||◌}
use mathlib.Core.List.{List, [], ◌∷◌}
use native.Mathlib.Omega.{arith}
use reversing_lab.Prelude.Tests.{ltb, ◌==◌, if◌then◌else◌, Bool-cases}
use mathlib.Core.Logic.{inl, inr}
use reversing_lab.Prelude.Lists.{All}

-- x in xs
abbrev pub mem : ℕ → List ℕ → Bool
mem x [] = false
mem x (y ∷ ys) = (y == x) || mem x ys

-- xs.add(x), on a sorted set
unfoldable pub insert : ℕ → List ℕ → List ℕ
insert x [] = x ∷ []
insert x (y ∷ ys) = if ltb x y then x ∷ y ∷ ys else (if x == y then y ∷ ys else y ∷ insert x ys)

abbrev pub Increasing : List ℕ → Type 0
Increasing [] = Unit
Increasing (x ∷ xs) = All (λ y. x < y) xs × Increasing xs

pub mem-insert : (x y : ℕ) (ys : List ℕ) → mem x (insert y ys) ≡ ((y == x) || mem x ys)
unfolding insert
mem-insert x y [] = refl
mem-insert x y (z ∷ zs) = ground (arith, mem-insert x y zs)

below-insert :
    (b x : ℕ) (ys : List ℕ) → b < x → All (λ y. b < y) ys → All (λ y. b < y) (insert x ys)
unfolding insert
below-insert b x [] h all = (h, tt)
below-insert b x (y ∷ ys) h all = ground (arith, below-insert b x ys h)

pub All-below_trans : (a b : ℕ) (ys : List ℕ) → a < b → All (λ y. b < y) ys → All (λ y. a < y) ys
All-below_trans a b [] h all = tt
All-below_trans a b (y ∷ ys) h all = (omega arith, All-below_trans a b ys h all.1)

pub insert-Increasing : (x : ℕ) (ys : List ℕ) → Increasing ys → Increasing (insert x ys)
unfolding insert
insert-Increasing x [] h = (tt, tt)
insert-Increasing x (y ∷ ys) h =
    ground (arith, insert-Increasing x ys h.1, below-insert y x ys, All-below_trans x y ys)

-- A property of all members holds of each.
pub of_mem : (P : ℕ → Type 0) (x : ℕ) (xs : List ℕ) → All P xs → mem x xs ≡ true → P x
of_mem P x [] all h = cc
of_mem P x (y ∷ ys) all h = elim (Bool-cases (y == x)) [
  | inl same ↦ let e : y ≡ x = ground arith in rw e at all.0
  | inr other ↦ of_mem P x ys all.1 (ground (arith, other))
]
