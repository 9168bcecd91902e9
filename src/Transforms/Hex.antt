-- ===== src/Transforms/Hex.antt =====
-- `bytes.fromhex` and `bytes.hex`, by which backend/reversing_lab/analyzer/transforms.py reads its inputs
-- and shows its output.
use Prim.Native.Char.{Char, code}
use reversing_lab.Prelude.{
  ℕ, zero, suc, ◌+◌, ◌-◌, ◌*◌, ◌/◌, ◌%◌, ◌<◌, ◌≡◌, refl, ap, ◌∙◌, String, Bool, true, false, ◌&&◌,
  ◌||◌, Option, none, some, List, [], ◌∷◌, All, if◌then◌else◌, leb, ◌==◌, not, if_false, Bool-cases,
  arith,
}

-- The white space that `fromhex` skips.
abbrev is_blank : ℕ → Bool
is_blank c = (leb 9 c && leb c 13) || (c == 32)

abbrev hex_value : ℕ → Option ℕ
hex_value c =
    if leb b'0' c && leb c b'9'
    then some (c - 48)
    else (if leb b'a' c && leb c b'f'
        then some (c - 87)
        else (if leb b'A' c && leb c b'F' then some (c - 55) else none))

-- A byte before the bytes behind it, if both digits and those are there.
abbrev byte_before : Option ℕ → Option ℕ → Option (List ℕ) → Option (List ℕ)
byte_before (some high) (some low) (some bytes) = some ((high * 16 + low) ∷ bytes)
byte_before _ _ _ = none

-- bytes.fromhex(s)
unfoldable pub from_hex : String → Option (List ℕ)
from_hex String.[] = some []
from_hex (String.◌∷◌ c String.[]) = if is_blank (code c) then some [] else none
from_hex (String.◌∷◌ c (String.◌∷◌ d s)) =
    let skipped = from_hex (String.◌∷◌ d s) in
    let rest = from_hex s in
    if is_blank (code c)
    then skipped
    else byte_before (hex_value (code c)) (hex_value (code d)) rest

abbrev char_at : ℕ → String → Char
char_at n String.[] = "0"
char_at zero (String.◌∷◌ c s) = c
char_at (suc n) (String.◌∷◌ c s) = char_at n s

abbrev digit_char : ℕ → Char
digit_char d = char_at d "0123456789abcdef"

-- data.hex()
unfoldable pub to_hex : List ℕ → String
to_hex [] = ""
to_hex (byte ∷ bytes) =
    String.◌∷◌ (digit_char (byte / 16)) (String.◌∷◌ (digit_char (byte % 16)) (to_hex bytes))

of_not : (b : Bool) → not b ≡ true → b ≡ false
of_not true h = ground (arith, h)
of_not false h = refl

from_nothing : from_hex "" ≡ some []
unfolding from_hex
from_nothing = refl

-- A test at every value up to a bound, by evaluation.
holds_to : (ℕ → Bool) → ℕ → Bool
holds_to test zero = true
holds_to test (suc bound) = if test bound then holds_to test bound else false

at_each :
    (test : ℕ → Bool) (bound value : ℕ)
    → value < bound
    → holds_to test bound ≡ true
    → test value ≡ true
unfolding holds_to
at_each test zero value below all = ground (arith, below)
at_each test (suc bound) value below all =
    ground (arith, all, at_each test bound value, Bool-cases (test bound))

abbrev is_value : Option ℕ → ℕ → Bool
is_value none d = false
is_value (some v) d = v == d

is_value_eq : (o : Option ℕ) (d : ℕ) → is_value o d ≡ true → o ≡ some d
is_value_eq none d h = ground (arith, h)
is_value_eq (some v) d h = ap some (ground (arith, h))

values_table : holds_to (λ d. is_value (hex_value (code (digit_char d))) d) 16 ≡ true
unfolding holds_to
values_table = refl

blanks_table : holds_to (λ d. not (is_blank (code (digit_char d)))) 16 ≡ true
unfolding holds_to
blanks_table = refl

digit_value : (d : ℕ) → d < 16 → hex_value (code (digit_char d)) ≡ some d
digit_value d h = is_value_eq _ d (at_each _ 16 d h values_table)

digit_not_blank : (d : ℕ) → d < 16 → is_blank (code (digit_char d)) ≡ false
digit_not_blank d h = of_not _ (at_each _ 16 d h blanks_table)

from_hex-pair :
    (c d : Char) (s : String)
    → is_blank (code c) ≡ false
    → from_hex (String.◌∷◌ c (String.◌∷◌ d s))
      ≡ byte_before (hex_value (code c)) (hex_value (code d)) (from_hex s)
unfolding from_hex
from_hex-pair c d s h = if_false (is_blank (code c)) _ _ h

-- What `hex` writes `fromhex` reads back, for all bytes.
pub from_hex-to_hex :
    (bytes : List ℕ) → All (λ byte. byte < 256) bytes → from_hex (to_hex bytes) ≡ some bytes
unfolding to_hex
from_hex-to_hex [] small = from_nothing
from_hex-to_hex (byte ∷ bytes) small =
    let high : byte / 16 < 16 = omega arith in
    let low : byte % 16 < 16 = omega arith in
    let h = digit_value (byte / 16) high in
    let l = digit_value (byte % 16) low in
    let rest = from_hex-to_hex bytes small.1 in
    from_hex-pair (digit_char (byte / 16)) (digit_char (byte % 16)) (to_hex bytes)
      (digit_not_blank (byte / 16) high)
    ∙ (λ i. byte_before (h i) (l i) (rest i))
    ∙ ap (λ b. some (b ∷ bytes)) (omega arith)

-- `_bytes`: the input's bytes, none where it is refused. The encoding of texts is a parameter.
unfoldable pub input_bytes : (String → List ℕ) → Bool → String → Option (List ℕ)
unfolding from_hex
input_bytes utf8 is_hex value = if is_hex then from_hex value else some (utf8 value)
