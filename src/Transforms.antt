-- ===== src/Transforms.antt =====
-- The byte operations of `transform_data` of backend/reversing_lab/analyzer/transforms.py that are
-- arithmetic. Bytes are numbers, texts are lists of code points.
pub mod Inverses
pub mod Bits
pub mod Hex
pub mod Xor
pub mod Integers
mod Tests
use reversing_lab.Prelude.{
  ℕ, suc, ◌+◌, ◌-◌, ◌*◌, ◌/◌, ◌%◌, ◌^◌, Bool, true, false, ◌&&◌, List, map, if◌then◌else◌, leb,
}
use reversing_lab.Prelude.Int.{ℤ, pos, negsuc, ◌+ℤ◌, ◌-ℤ◌}

-- Python's `%` with a positive right side, and `& 0xFF` with 256.
abbrev pub mod_by : ℕ → ℤ → ℕ
mod_by m (pos n) = n % m
mod_by m (negsuc n) = m - 1 - n % m

-- The two shifts of a byte have no bit in common, so that `|` is `+`.
unfoldable pub rotate_by : ℕ → ℕ → Bool → ℕ
rotate_by value count left =
    if left
    then (value * 2 ^ count + value / 2 ^ (8 - count)) % 256
    else (value / 2 ^ count + value * 2 ^ (8 - count)) % 256

-- `_rotate`
unfoldable pub rotate : ℕ → ℤ → Bool → ℕ
unfolding rotate_by
rotate value count left = rotate_by value (mod_by 8 count) left

-- "rol" and "ror"
unfoldable pub rotate_bytes : ℤ → Bool → List ℕ → List ℕ
unfolding rotate
rotate_bytes count left = map (λ byte. rotate byte count left)

-- (byte + direction * amount) & 0xFF
unfoldable pub shift_byte : ℤ → Bool → ℕ → ℕ
unfolding ◌+ℤ◌ ◌-ℤ◌
shift_byte amount is_add byte =
    mod_by 256 (if is_add then pos byte +ℤ amount else pos byte -ℤ amount)

-- "add" and "sub"
unfoldable pub shift_bytes : ℤ → Bool → List ℕ → List ℕ
unfolding shift_byte
shift_bytes amount is_add = map (shift_byte amount is_add)

-- The letter `shift` places on, from the first letter of its case.
abbrev pub turn_letter : ℕ → ℤ → ℕ → ℕ
turn_letter first shift c = mod_by 26 (pos (c - first) +ℤ shift) + first

unfoldable pub caesar_letter : ℤ → ℕ → ℕ
unfolding ◌+ℤ◌
caesar_letter shift c =
    if leb b'a' c && leb c b'z'
    then turn_letter 97 shift c
    else (if leb b'A' c && leb c b'Z' then turn_letter 65 shift c else c)

-- "rot" and "caesar"
unfoldable pub caesar : ℤ → List ℕ → List ℕ
unfolding caesar_letter
caesar shift = map (caesar_letter shift)
