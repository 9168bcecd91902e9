-- ===== src/Transforms/Tests.antt =====
-- Runs of the model, and the theorem at an input.
use reversing_lab.Prelude.{
  ℕ, ◌+◌, ◌-◌, ◌*◌, ◌^◌, ◌<◌, ◌≤◌, ◌≡◌, ◌≢◌, ◌↔◌, ◌⊎◌, refl, String, true, false, some, List, [],
  ◌∷◌, length, str_eq, arith,
}
use reversing_lab.Prelude.Int.{ℤ, pos, negsuc, pos_part, neg_part, ◌+ℤ◌, ◌-ℤ◌}
use reversing_lab.Transforms.{
  rotate_bytes, rotate, rotate_by, shift_bytes, shift_byte, caesar, caesar_letter,
}
use reversing_lab.Transforms.Inverses.{rotate_bytes_back}
use reversing_lab.Transforms.Hex.{from_hex, to_hex, from_hex-to_hex}
use reversing_lab.Transforms.Xor.{
  output, invalid, divided_by_zero, xor_from, xor_bytes, key_bytes, xor_operation,
  xor_operation-fails, xor_bytes_twice, bitwise_byte, bitwise_operation,
}
use reversing_lab.Transforms.Integers.{
  little, to_bytes, integer_endian, join_values, strip_zeros, stack_string, signed_convert,
}
use reversing_lab.Transforms.Integers.Encoded.{Fits, Stands, of_bytes, integer_endian_exact}
use reversing_lab.Transforms.Integers.Signed.{signed_convert_ranges}

rotated_left : rotate_bytes (pos 3) true (129 ∷ []) ≡ 12 ∷ []
unfolding rotate_bytes rotate rotate_by
rotated_left = refl

subtracted : shift_bytes (pos 3) false (1 ∷ []) ≡ 254 ∷ []
unfolding shift_bytes shift_byte ◌+ℤ◌ ◌-ℤ◌
subtracted = refl

turned : caesar (pos 13) (b'n' ∷ b'A' ∷ b'!' ∷ []) ≡ b'a' ∷ b'N' ∷ b'!' ∷ []
unfolding caesar caesar_letter ◌+ℤ◌
turned = refl

rotate_bytes_back_example :
    rotate_bytes (negsuc 2) false (rotate_bytes (negsuc 2) true (127 ∷ 255 ∷ [])) ≡ 127 ∷ 255 ∷ []
rotate_bytes_back_example =
    rotate_bytes_back (negsuc 2) true (127 ∷ 255 ∷ []) (omega arith, (omega arith, tt))

hex_read : from_hex "0a FF" ≡ some (10 ∷ 255 ∷ [])
unfolding from_hex
hex_read = refl

from_hex-to_hex_example : from_hex (to_hex (10 ∷ 255 ∷ [])) ≡ some (10 ∷ 255 ∷ [])
from_hex-to_hex_example = from_hex-to_hex (10 ∷ 255 ∷ []) (omega arith, (omega arith, tt))

xored : xor_bytes (1 ∷ 2 ∷ []) (7 ∷ 7 ∷ 7 ∷ []) ≡ output (6 ∷ 5 ∷ 6 ∷ [])
unfolding xor_bytes xor_from
xored = refl

xor_bytes_twice_example :
    (out : List ℕ) × (xor_bytes (1 ∷ 2 ∷ []) (7 ∷ 7 ∷ 7 ∷ []) ≡ output out)
    × (xor_bytes (1 ∷ 2 ∷ []) out ≡ output (7 ∷ 7 ∷ 7 ∷ []))
xor_bytes_twice_example = xor_bytes_twice 1 (2 ∷ []) (7 ∷ 7 ∷ 7 ∷ [])

-- An encoding for the tests.
abbrev utf8 : String → List ℕ
utf8 text = 107 ∷ []

abbrev seven : List ℕ
seven = 7 ∷ []

xor_operation-fails_example : (xor_operation utf8 false true "0x" seven ≡ divided_by_zero) ↔ (
    (str_eq "0x" "" ≡ false)
    × (key_bytes utf8 true "0x" ≡ some [])
    × (false ≡ false)
    × (seven ≢ []))
xor_operation-fails_example = xor_operation-fails utf8 false true "0x" seven

fails_at_once : xor_operation utf8 false true "0x" seven ≡ divided_by_zero
unfolding xor_operation key_bytes xor_bytes from_hex
fails_at_once = refl

integer_endian_exact_example :
    ((bytes : List ℕ) × (integer_endian 2 "big" (negsuc 1) ≡ output bytes)
      × (length bytes ≡ 2)
      × Stands 2 (negsuc 1) (of_bytes (str_eq "big" "little") bytes))
    ⊎ ((¬ (Fits 2 (negsuc 1)))
        × (integer_endian 2 "big" (negsuc 1) ≡ invalid "Integer does not fit the selected width."))
integer_endian_exact_example = integer_endian_exact 2 "big" (negsuc 1) refl refl

encoded_big : integer_endian 2 "big" (negsuc 1) ≡ output (255 ∷ 254 ∷ [])
unfolding integer_endian to_bytes little
encoded_big = refl

built :
    stack_string 4 "little" (pos 1819043144 ∷ pos 111 ∷ [])
    ≡ output (72 ∷ 101 ∷ 108 ∷ 108 ∷ 111 ∷ [])
unfolding stack_string join_values strip_zeros to_bytes little
built = refl

signed_convert_ranges_example :
    (unsigned : ℕ) × (signed : ℤ) × (signed_convert 8 (negsuc 299) ≡ some (unsigned, signed))
    × (unsigned < 2 ^ 8)
    × (pos_part signed < 2 ^ (8 - 1))
    × (neg_part signed ≤ 2 ^ (8 - 1))
    × ((signed ≡ pos unsigned) ⊎ (unsigned + neg_part signed ≡ 2 ^ 8))
    × ((j k : ℕ) × (pos_part (negsuc 299) + 2 ^ 8 * j
          ≡ unsigned + neg_part (negsuc 299) + 2 ^ 8 * k))
signed_convert_ranges_example = signed_convert_ranges 8 (negsuc 299) refl

bits_cleared : bitwise_operation "and" (pos 271) (255 ∷ 16 ∷ []) ≡ output (15 ∷ 0 ∷ [])
unfolding bitwise_operation bitwise_byte
bits_cleared = refl
