-- ===== src/Transforms/Integers.antt =====
-- The integer operations of `transform_data` of backend/reversing_lab/analyzer/transforms.py, on integers
-- that are already read.
pub mod Encoded
pub mod Signed
use mathlib.Core.List.{reverse}
use reversing_lab.Prelude.{
  ℕ, zero, suc, ◌+◌, ◌-◌, ◌*◌, ◌/◌, ◌%◌, ◌^◌, String, Bool, true, false, ◌&&◌, ◌||◌, not, Option,
  none, some, List, [], ◌∷◌, ◌++◌, if◌then◌else◌, ltb, leb, ◌==◌, str_eq,
}
use reversing_lab.Prelude.Int.{ℤ, pos, negsuc, sub_ℕ}
use reversing_lab.Transforms.{mod_by}
use reversing_lab.Transforms.Xor.{Outcome, output, invalid}

-- The bytes of a number, lowest first.
unfoldable pub little : ℕ → ℕ → List ℕ
little zero n = []
little (suc width) n = n % 256 ∷ little width (n / 256)

-- integer.to_bytes(width, endian, signed=...), none where it overflows
unfoldable pub to_bytes : ℕ → Bool → Bool → ℤ → Option (List ℕ)
unfolding little
to_bytes width is_little signed (pos n) =
    if ltb n (if signed then 2 ^ (8 * width - 1) else 2 ^ (8 * width))
    then some (if is_little then little width n else reverse (little width n))
    else none
to_bytes width is_little signed (negsuc n) =
    if signed && ltb n (2 ^ (8 * width - 1))
    then (let bytes = little width (2 ^ (8 * width) - suc n) in
        some (if is_little then bytes else reverse bytes))
    else none

abbrev pub allowed_width : ℕ → Bool
allowed_width width = (width == 1) || (width == 2) || (width == 4) || (width == 8)

abbrev pub allowed_endian : String → Bool
allowed_endian endian = str_eq endian "little" || str_eq endian "big"

abbrev pub is_negative : ℤ → Bool
is_negative (pos n) = false
is_negative (negsuc n) = true

abbrev pub encoded : Option (List ℕ) → Outcome
encoded none = invalid "Integer does not fit the selected width."
encoded (some bytes) = output bytes

-- "integer_endian"
unfoldable pub integer_endian : ℕ → String → ℤ → Outcome
unfolding to_bytes
integer_endian width endian integer =
    if not (allowed_width width) || not (allowed_endian endian)
    then invalid "Integer width/endian is invalid."
    else encoded (to_bytes width (str_eq endian "little") (is_negative integer) integer)

abbrev joined_before : Option (List ℕ) → Option (List ℕ) → Option (List ℕ)
joined_before (some bytes) (some rest) = some (bytes ++ rest)
joined_before _ _ = none

unfoldable pub join_values : ℕ → Bool → List ℤ → Option (List ℕ)
unfolding to_bytes
join_values width is_little [] = some []
join_values width is_little (item ∷ integers) =
    joined_before (to_bytes width is_little false item) (join_values width is_little integers)

abbrev put_unless_zero : ℕ → List ℕ → List ℕ
put_unless_zero zero [] = []
put_unless_zero byte bytes = byte ∷ bytes

-- output.rstrip(b"\x00")
unfoldable pub strip_zeros : List ℕ → List ℕ
strip_zeros [] = []
strip_zeros (byte ∷ bytes) = put_unless_zero byte (strip_zeros bytes)

abbrev stripped : Option (List ℕ) → Outcome
stripped none = invalid "A stack value does not fit the selected width."
stripped (some bytes) = output (strip_zeros bytes)

-- "stack_string"
unfoldable pub stack_string : ℕ → String → List ℤ → Outcome
unfolding join_values strip_zeros
stack_string width endian integers =
    if not (allowed_width width) || not (allowed_endian endian)
    then invalid "Stack string width/endian is invalid."
    else stripped (join_values width (str_eq endian "little") integers)

abbrev pub allowed_bits : ℕ → Bool
allowed_bits bits = (bits == 8) || (bits == 16) || (bits == 32) || (bits == 64)

-- The two readings of "signed_convert", unsigned and signed; the test of the highest bit is one of
-- order, since the number has no higher bits. None where the width is refused.
unfoldable pub signed_convert : ℕ → ℤ → Option (ℕ × ℤ)
signed_convert bits integer =
    let unsigned = mod_by (2 ^ bits) integer in
    if allowed_bits bits
    then some (
      unsigned,
      (if leb (2 ^ (bits - 1)) unsigned then sub_ℕ unsigned (2 ^ bits) else pos unsigned),
    )
    else none
