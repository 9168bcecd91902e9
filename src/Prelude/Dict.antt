-- ===== src/Prelude/Dict.antt =====
-- Python's `dict` with text keys as the list of its items in their order. A write to a key that is
-- there keeps its place, and a new key goes to the end.
use reversing_lab.Prelude.Tests.{if◌then◌else◌}
use Prim.Native.String.{String}
use mathlib.Core.Path.{◌≡◌, refl}
use mathlib.Core.Option.{Option, none, some}
use mathlib.Core.List.{List, [], ◌∷◌}
use native.Mathlib.Omega.{arith}
use text.Mathlib.Text.{◌==◌ as str_eq}
use text.Mathlib.TextEquality.{eq_iff}

module _ {ℓ} {V : Type ℓ} where
  -- d.get(key)
  unfoldable pub lookup : String → List (String × V) → Option V
  lookup key [] = none
  lookup key ((k, v) ∷ items) = if str_eq k key then some v else lookup key items

  -- d[key] = value
  unfoldable pub insert : String → V → List (String × V) → List (String × V)
  insert key value [] = (key, value) ∷ []
  insert key value ((k, v) ∷ items) =
      if str_eq k key then (k, value) ∷ items else (k, v) ∷ insert key value items

  pub lookup-insert :
      (key other : String) (value : V) (items : List (String × V))
      → lookup other (insert key value items)
        ≡ (if str_eq key other then some value else lookup other items)
  unfolding lookup insert
  lookup-insert key other value [] = refl
  lookup-insert key other value ((k, v) ∷ items) =
      ground
        (arith, eq_iff k key, eq_iff k other, eq_iff key other, lookup-insert key other value items)
