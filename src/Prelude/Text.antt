-- ===== src/Prelude/Text.antt =====
-- Python's `str` as the native text, a list of characters: slices, trimming and splitting.
use Prim.Native.Nat.{ℕ, zero, suc, ◌≤◌, ◌/◌, ◌%◌}
use Prim.Native.String.{String, [], ◌∷◌, ◌++◌ as ◌<>◌}
use mathlib.Core.Bool.{true, false}
use reversing_lab.Prelude.Tests.{ltb}
use native.Mathlib.Omega.{arith}

-- len(s), in characters
abbrev pub text_length : String → ℕ
text_length [] = 0
text_length (c ∷ s) = suc (text_length s)

-- s[:n]
abbrev pub text_take : ℕ → String → String
text_take zero s = []
text_take (suc n) [] = []
text_take (suc n) (c ∷ s) = c ∷ text_take n s

-- s[n:]
abbrev pub text_drop : ℕ → String → String
text_drop zero s = s
text_drop (suc n) [] = []
text_drop (suc n) (c ∷ s) = text_drop n s

pub text_length-text_take-le : (n : ℕ) (s : String) → text_length (text_take n s) ≤ n
text_length-text_take-le zero s = omega arith
text_length-text_take-le (suc n) [] = omega arith
text_length-text_take-le (suc n) (c ∷ s) = omega (arith, text_length-text_take-le n s)

-- The digit of a value below sixteen.
abbrev pub digit : ℕ → String
digit d = text_take 1 (text_drop d "0123456789abcdef")

-- The decimal digits of `n`, before `rest`; `n` rounds are more than it has digits.
unfoldable pub decimal_before : ℕ → ℕ → String → String
decimal_before zero n rest = rest
decimal_before (suc fuel) n rest = elim (ltb n 10) [
  | true ↦ digit n <> rest
  | false ↦ decimal_before fuel (n / 10) (digit (n % 10) <> rest)
]

unfoldable pub decimal : ℕ → String
unfolding decimal_before
decimal n = decimal_before (suc n) n ""
