-- ===== src/Malware/Texts.antt =====
-- `str.split` at one character, `str.lower` and `str.isdigit`, on the printable ASCII texts that
-- `extract_strings` recovers.
use Prim.Native.Char.{Char, code}
use Prim.Native.String.{◌++◌ as ◌<>◌}
use reversing_lab.Prelude.{
  ℕ, ◌+◌, ◌-◌, ◌*◌, String, Bool, true, false, ◌&&◌, ◌||◌, List, [], ◌∷◌, if◌then◌else◌, leb, ◌==◌,
  str_eq,
}
use reversing_lab.Prelude.Text.{text_take, text_drop}

abbrev pub put_first : Char → List String → List String
put_first c [] = String.◌∷◌ c "" ∷ []
put_first c (part ∷ parts) = String.◌∷◌ c part ∷ parts

-- text.split(sep)
unfoldable pub split : ℕ → String → List String
split sep String.[] = "" ∷ []
split sep (String.◌∷◌ c s) =
    let parts = split sep s in if code c == sep then "" ∷ parts else put_first c parts

abbrev pub last_label : List String → String
last_label [] = ""
last_label (label ∷ []) = label
last_label (label ∷ next ∷ labels) = last_label (next ∷ labels)

-- The part before the first `sep`.
unfoldable pub before : ℕ → String → String
before sep String.[] = ""
before sep (String.◌∷◌ c s) =
    let rest = before sep s in if code c == sep then "" else String.◌∷◌ c rest

-- The part behind the first `sep`, empty where there is none: `partition(sep)[2]`.
unfoldable pub behind : ℕ → String → String
behind sep String.[] = ""
behind sep (String.◌∷◌ c s) = let rest = behind sep s in if code c == sep then s else rest

unfoldable pub lower : String → String
lower String.[] = ""
lower (String.◌∷◌ c s) =
    if leb b'A' (code c) && leb (code c) b'Z'
    then text_take 1 (text_drop (code c - 65) "abcdefghijklmnopqrstuvwxyz") <> lower s
    else String.◌∷◌ c (lower s)

abbrev pub is_member : String → List String → Bool
is_member s [] = false
is_member s (t ∷ ts) = str_eq t s || is_member s ts

abbrev digits : String → Bool
digits String.[] = true
digits (String.◌∷◌ c s) = leb b'0' (code c) && leb (code c) b'9' && digits s

unfoldable pub is_digits : String → Bool
is_digits String.[] = false
is_digits (String.◌∷◌ c s) = digits (String.◌∷◌ c s)

abbrev value_from : ℕ → String → ℕ
value_from n String.[] = n
value_from n (String.◌∷◌ c s) = value_from (n * 10 + (code c - 48)) s

-- int(text), of a text of digits
unfoldable pub to_int : String → ℕ
to_int s = value_from 0 s
