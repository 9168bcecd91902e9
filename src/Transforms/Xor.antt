-- ===== src/Transforms/Xor.antt =====
-- The XOR operations of `transform_data` of backend/reversing_lab/analyzer/transforms.py, with the key as
-- the request writes it.
use Prim.Native.Nat.{bit_xor, bit_and, bit_or}
use reversing_lab.Prelude.{
  ℕ, zero, suc, ◌-◌, ◌%◌, ◌≢◌, ◌↔◌, Bool-cases, ◌≡◌, refl, ap, String, Bool, true, false, ◌&&◌, not,
  Option, none, some, List, [], ◌∷◌, map, length, if◌then◌else◌, ◌==◌, str_eq, arith,
}
use reversing_lab.Prelude.Int.{ℤ}
use reversing_lab.Transforms.{mod_by}
use reversing_lab.Transforms.Bits.{bit_xor_twice}
use reversing_lab.Transforms.Hex.{from_hex}

-- What an operation ends in: its output, a `ValueError` with its text, or a `ZeroDivisionError`.
pub data Outcome : Type 0 where
  output : List ℕ → Outcome
  invalid : String → Outcome
  divided_by_zero : Outcome

abbrev pub byte_at : ℕ → List ℕ → ℕ
byte_at n [] = 0
byte_at zero (byte ∷ bytes) = byte
byte_at (suc n) (byte ∷ bytes) = byte_at n bytes

-- byte ^ key[index % len(key)], from an index on
unfoldable pub xor_from : List ℕ → ℕ → List ℕ → List ℕ
xor_from key index [] = []
xor_from key index (byte ∷ bytes) =
    bit_xor byte (byte_at (index % length key) key) ∷ xor_from key (suc index) bytes

-- The generator expression; `%` fails for an empty key where there is a byte.
unfoldable pub xor_bytes : List ℕ → List ℕ → Outcome
unfolding xor_from
xor_bytes [] [] = output []
xor_bytes [] (byte ∷ bytes) = divided_by_zero
xor_bytes (k ∷ key) bytes = output (xor_from (k ∷ key) 0 bytes)

-- raw_key.removeprefix("0x")
abbrev pub without_prefix : String → String
without_prefix String.[] = ""
without_prefix (String.◌∷◌ c String.[]) = String.◌∷◌ c ""
without_prefix (String.◌∷◌ c (String.◌∷◌ d s)) =
    if str_eq (String.◌∷◌ c (String.◌∷◌ d "")) "0x" then s else String.◌∷◌ c (String.◌∷◌ d s)

module _ (utf8 : String → List ℕ) where
  -- The key's bytes; none where it is refused.
  unfoldable pub key_bytes : Bool → String → Option (List ℕ)
  unfolding from_hex
  key_bytes key_is_hex raw_key =
      if key_is_hex then from_hex (without_prefix raw_key) else some (utf8 raw_key)

  abbrev with_key : Bool → List ℕ → Option (List ℕ) → Outcome
  with_key single source none = invalid "XOR key is not valid hexadecimal bytes."
  with_key single source (some key) =
      if single && not (length key == 1)
      then invalid "Single-byte XOR requires exactly one key byte."
      else xor_bytes key source

  -- "xor_single" and "xor_repeating"
  unfoldable pub xor_operation : Bool → Bool → String → List ℕ → Outcome
  unfolding key_bytes xor_bytes
  xor_operation single key_is_hex raw_key source =
      if str_eq raw_key ""
      then invalid "XOR requires a non-empty key."
      else with_key single source (key_bytes key_is_hex raw_key)

  with_key-fails :
      (single : Bool) (source : List ℕ) (key : Option (List ℕ))
      → (with_key single source key ≡ divided_by_zero)
        ↔ ((key ≡ some []) × (single ≡ false) × (source ≢ []))
  unfolding xor_bytes
  with_key-fails single source none = ground arith
  with_key-fails true [] (some []) = ground arith
  with_key-fails true (byte ∷ bytes) (some []) = ground arith
  with_key-fails false [] (some []) = ground arith
  with_key-fails false (byte ∷ bytes) (some []) = ground arith
  with_key-fails true source (some (k ∷ [])) = ground arith
  with_key-fails true source (some (k ∷ l ∷ key)) = ground arith
  with_key-fails false source (some (k ∷ key)) = ground arith

  -- An operation divides by zero exactly when its key is written with some text, such as "0x", that
  -- stands for no bytes, the operation is the repeating one, and there is a byte to be changed.
  pub xor_operation-fails :
      (single key_is_hex : Bool) (raw_key : String) (source : List ℕ)
      → (xor_operation single key_is_hex raw_key source ≡ divided_by_zero) ↔ (
          (str_eq raw_key "" ≡ false)
          × (key_bytes key_is_hex raw_key ≡ some [])
          × (single ≡ false)
          × (source ≢ []))
  unfolding xor_operation
  xor_operation-fails single key_is_hex raw_key source = ground (
    arith,
    Bool-cases (str_eq raw_key ""),
    with_key-fails single source (key_bytes key_is_hex raw_key),
  )

xor_from_twice :
    (key : List ℕ) (index : ℕ) (bytes : List ℕ)
    → xor_from key index (xor_from key index bytes) ≡ bytes
unfolding xor_from
xor_from_twice key index [] = refl
xor_from_twice key index (byte ∷ bytes) = λ i.
    bit_xor_twice byte (byte_at (index % length key) key) i ∷ xor_from_twice key (suc index) bytes i

-- With a key that has bytes, the operation applied to its own output gives the input back, for a key of
-- any length.
pub xor_bytes_twice :
    (k : ℕ) (key bytes : List ℕ)
    → (out : List ℕ) × (xor_bytes (k ∷ key) bytes ≡ output out)
      × (xor_bytes (k ∷ key) out ≡ output bytes)
unfolding xor_bytes
xor_bytes_twice k key bytes =
    (xor_from (k ∷ key) 0 bytes, refl, ap output (xor_from_twice (k ∷ key) 0 bytes))

-- "bitwise", with the operand's lowest byte
unfoldable pub bitwise_byte : String → ℕ → Option (ℕ → ℕ)
bitwise_byte operator operand =
    if str_eq operator "xor"
    then some (λ byte. bit_xor byte operand)
    else (if str_eq operator "and"
        then some (λ byte. bit_and byte operand)
        else (if str_eq operator "or"
            then some (λ byte. bit_or byte operand)
            else (if str_eq operator "not" then some (λ byte. 255 - byte) else none)))

abbrev apply_to : List ℕ → Option (ℕ → ℕ) → Outcome
apply_to source none = invalid "Bitwise operator must be xor, and, or, or not."
apply_to source (some operation) = output (map operation source)

unfoldable pub bitwise_operation : String → ℤ → List ℕ → Outcome
unfolding bitwise_byte
bitwise_operation operator operand source =
    apply_to source (bitwise_byte operator (mod_by 256 operand))
