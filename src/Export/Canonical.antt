-- ===== src/Export/Canonical.antt =====
-- `_canonical` of backend/reversing_lab/audit/export.py: `json.dumps` with sorted keys and without
-- spaces or ASCII escapes, on the values that the payloads hold.
use Prim.Native.Char.{code}
use Prim.Native.String.{compare, ◌++◌ as ◌<>◌}
use Prim.Native.Nat.{Ordering}
use reversing_lab.Prelude.{
  ℕ, ◌/◌, ◌%◌, String, Bool, true, false, Option, none, some, List, [], ◌∷◌, if◌then◌else◌, ltb,
  ◌==◌,
}
use reversing_lab.Prelude.Text.{digit, decimal}

mutual
  pub data Json : Type 0 where
    null : Json
    bool : Bool → Json
    number : ℕ → Json
    text : String → Json
    object : Fields → Json

  -- A dictionary, its items in their order.
  pub data Fields : Type 0 where
    no_fields : Fields
    field : String → Json → Fields → Fields

-- The escape of a character with its number; all but control characters, quotes and the backslash
-- stand for themselves.
unfoldable pub escaped : ℕ → Option String
escaped c =
    if c == b'"'
    then some "\\\""
    else (if c == b'\\'
        then some "\\\\"
        else (if c == 8
            then some "\\b"
            else (if c == 9
                then some "\\t"
                else (if c == 10
                    then some "\\n"
                    else (if c == 12
                        then some "\\f"
                        else (if c == 13
                            then some "\\r"
                            else (if ltb c 32
                                then some ("\\u00" <> digit (c / 16) <> digit (c % 16))
                                else none)))))))

unfoldable pub escape : String → String
unfolding escaped
escape String.[] = ""
escape (String.◌∷◌ c s) = elim (escaped (code c)) [
  | some sequence ↦ sequence <> escape s
  | none ↦ String.◌∷◌ c (escape s)
]

unfoldable pub quoted : String → String
unfolding escape
quoted s = "\"" <> escape s <> "\""

-- Sorting the items by their keys, as code points.
unfoldable pub place : String → String → List (String × String) → List (String × String)
place key value [] = (key, value) ∷ []
place key value ((k, v) ∷ items) = elim (compare key k) [
  | Ordering.gt ↦ (k, v) ∷ place key value items
  | _ ↦ (key, value) ∷ (k, v) ∷ items
]

abbrev joined : List (String × String) → String
joined [] = ""
joined ((k, v) ∷ []) = quoted k <> ":" <> v
joined ((k, v) ∷ item ∷ items) = quoted k <> ":" <> v <> "," <> joined (item ∷ items)

unfoldable mutual
  unfolding quoted decimal place

  pub dumps : Json → String
  dumps null = "null"
  dumps (bool true) = "true"
  dumps (bool false) = "false"
  dumps (number n) = decimal n
  dumps (text s) = quoted s
  dumps (object fields) = "{" <> joined (dumped fields) <> "}"

  -- The items, sorted, each value already in text.
  pub dumped : Fields → List (String × String)
  dumped no_fields = []
  dumped (field key value fields) = place key (dumps value) (dumped fields)

-- `_canonical`
unfoldable pub canonical : Fields → String
unfolding dumps
canonical fields = dumps (object fields)
