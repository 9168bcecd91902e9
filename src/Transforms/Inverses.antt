-- ===== src/Transforms/Inverses.antt =====
-- Rotations of backend/reversing_lab/analyzer/transforms.py undo one another.
use reversing_lab.Prelude.{
  ℕ, zero, suc, ◌<◌, ◌≡◌, refl, Bool, true, false, List, [], ◌∷◌, arith, All, if◌then◌else◌,
}
use reversing_lab.Prelude.Int.{ℤ, pos, negsuc}
use reversing_lab.Transforms.{mod_by, rotate_by, rotate, rotate_bytes}

mod_by-below : (count : ℤ) → mod_by 8 count < 8
mod_by-below (pos n) = omega arith
mod_by-below (negsuc n) = omega arith

-- What holds of the eight counts holds of each count below eight.
of_eight : (P : ℕ → Type 0) → P 0 × P 1 × P 2 × P 3 × P 4 × P 5 × P 6 × P 7 → (k : ℕ) → k < 8 → P k
of_eight P all zero h = all.0
of_eight P all (suc zero) h = all.1
of_eight P all (suc (suc zero)) h = all.2
of_eight P all (suc (suc (suc zero))) h = all.3
of_eight P all (suc (suc (suc (suc zero)))) h = all.4
of_eight P all (suc (suc (suc (suc (suc zero))))) h = all.5
of_eight P all (suc (suc (suc (suc (suc (suc zero)))))) h = all.6
of_eight P all (suc (suc (suc (suc (suc (suc (suc zero))))))) h = all.7
of_eight P all (suc (suc (suc (suc (suc (suc (suc (suc k)))))))) h = absurd (omega arith)

-- Rotated one way and back.
rotate_by_back :
    (v k : ℕ) (left : Bool)
    → v < 256
    → k < 8
    → rotate_by (rotate_by v k left) k (if left then false else true) ≡ v
unfolding rotate_by
rotate_by_back v k true h below =
    of_eight (λ k. rotate_by (rotate_by v k true) k false ≡ v)
      (
        omega arith,
        omega arith,
        omega arith,
        omega arith,
        omega arith,
        omega arith,
        omega arith,
        omega arith,
      )
      k below
rotate_by_back v k false h below =
    of_eight (λ k. rotate_by (rotate_by v k false) k true ≡ v)
      (
        omega arith,
        omega arith,
        omega arith,
        omega arith,
        omega arith,
        omega arith,
        omega arith,
        omega arith,
      )
      k below

-- "ror" undoes "rol" and "rol" undoes "ror" on all bytes, for each count, negative ones included.
pub rotate_bytes_back :
    (count : ℤ) (left : Bool) (bytes : List ℕ)
    → All (λ byte. byte < 256) bytes
    → rotate_bytes count (if left then false else true) (rotate_bytes count left bytes) ≡ bytes
unfolding rotate_bytes rotate
rotate_bytes_back count left [] small = refl
rotate_bytes_back count left (byte ∷ bytes) small = λ i.
    rotate_by_back byte (mod_by 8 count) left small.0 (mod_by-below count) i
    ∷ rotate_bytes_back count left bytes small.1 i
