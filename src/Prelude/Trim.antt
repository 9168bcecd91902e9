-- ===== src/Prelude/Trim.antt =====
-- Python's `str.strip`, `str.lstrip` of one character, `rsplit(",", 1)[-1]` and `startswith`, on the
-- native text. White space is that of ASCII, which is all that a disassembler prints.
use Prim.Native.Char.{code}
use Prim.Native.String.{String, [], ◌∷◌}
use Prim.Native.Nat.{ℕ}
use mathlib.Core.Bool.{Bool, true, false, ◌&&◌, ◌||◌}
use mathlib.Core.Option.{Option, none, some}
use reversing_lab.Prelude.Tests.{leb, ◌==◌, if◌then◌else◌}

abbrev is_space : ℕ → Bool
is_space c = (leb 9 c && leb c 13) || (leb 28 c && leb c 32)

abbrev is_empty : String → Bool
is_empty [] = true
is_empty (c ∷ s) = false

unfoldable pub lstrip : (ℕ → Bool) → String → String
lstrip test [] = []
lstrip test (c ∷ s) = let rest = lstrip test s in if test (code c) then rest else c ∷ s

unfoldable pub rstrip : (ℕ → Bool) → String → String
rstrip test [] = []
rstrip test (c ∷ s) =
    let rest = rstrip test s in if test (code c) && is_empty rest then [] else c ∷ rest

-- s.strip()
unfoldable pub strip : String → String
unfolding lstrip rstrip
strip s = rstrip is_space (lstrip is_space s)

-- What stands behind the last comma.
unfoldable pub behind_comma : String → Option String
behind_comma [] = none
behind_comma (c ∷ s) = elim (behind_comma s) [
  | some rest ↦ some rest
  | none ↦ if code c == b',' then some s else none
]
