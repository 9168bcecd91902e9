-- ===== src/Transforms/Bits.antt =====
-- The exclusive or of backend/reversing_lab/analyzer/transforms.py, digit by digit.
use Prim.Native.Nat.{bit_xor, bit_xor-bitwise, digits, differ}
use reversing_lab.Prelude.{
  ℕ, zero, suc, ◌+◌, ◌-◌, ◌*◌, ◌/◌, ◌%◌, ◌≤◌, ◌<◌, ◌≡◌, refl, ap, sym, ◌∙◌, arith,
}

-- The exclusive or of at most `count` digits.
abbrev of_digits : ℕ → ℕ → ℕ → ℕ
of_digits a b count = digits (λ rest. rest) differ count a b

-- A number has no more digits than its value.
one_digit_more : (a b count : ℕ) → a ≤ count → of_digits a b (suc count) ≡ of_digits a b count
one_digit_more zero b zero h = refl
one_digit_more zero b (suc count) h = refl
one_digit_more (suc a) b zero h = absurd (omega arith)
one_digit_more (suc a) b (suc count) h =
    omega (arith, one_digit_more (suc a / 2) (b / 2) count (omega arith))

digits_more : (k a b : ℕ) → of_digits a b (k + a) ≡ of_digits a b a
digits_more zero a b = ap (of_digits a b) (omega arith)
digits_more (suc k) a b =
    let next : suc k + a ≡ suc (k + a) = omega arith in
    ap (of_digits a b) next ∙ one_digit_more a b (k + a) (omega arith) ∙ digits_more k a b

differ_bits : (x y : ℕ) → x < 2 → y < 2 → (differ x y < 2) × (differ (differ x y) y ≡ x)
differ_bits zero zero h k = (omega arith, refl)
differ_bits zero (suc zero) h k = (omega arith, refl)
differ_bits (suc zero) zero h k = (omega arith, refl)
differ_bits (suc zero) (suc zero) h k = (omega arith, refl)
differ_bits (suc (suc x)) y h k = absurd (omega arith)
differ_bits zero (suc (suc y)) h k = absurd (omega arith)
differ_bits (suc zero) (suc (suc y)) h k = absurd (omega arith)

zero-differ : (y : ℕ) → differ zero y ≡ y
zero-differ y = refl

zero-bit_xor : (b : ℕ) → bit_xor 0 b ≡ b
zero-bit_xor b = bit_xor-bitwise 0 b

bit_xor_step : (a b : ℕ) → bit_xor a b ≡ bit_xor (a / 2) (b / 2) * 2 + differ (a % 2) (b % 2)
bit_xor_step zero b = omega (arith, zero-bit_xor b, zero-bit_xor (b / 2), zero-differ (b % 2))
bit_xor_step (suc a) b =
    let half = suc a / 2 in
    let filled : a - half + half ≡ a = omega arith in
    let enough = ap (of_digits half (b / 2)) (sym filled) ∙ digits_more (a - half) half (b / 2) in
    let lower = bit_xor-bitwise half (b / 2) in
    bit_xor-bitwise (suc a) b ∙ omega (arith, enough, lower)

bit_xor_parts :
    (a b : ℕ)
    → (bit_xor a b / 2 ≡ bit_xor (a / 2) (b / 2)) × (bit_xor a b % 2 ≡ differ (a % 2) (b % 2))
bit_xor_parts a b =
    let bits = differ_bits (a % 2) (b % 2) (omega arith) (omega arith) in
    (omega (arith, bit_xor_step a b, bits.0), omega (arith, bit_xor_step a b, bits.0))

bit_xor_twice_fuel : (n a k : ℕ) → a ≤ n → k ≤ n → bit_xor (bit_xor a k) k ≡ a
bit_xor_twice_fuel zero zero zero h g = refl
bit_xor_twice_fuel zero zero (suc k) h g = absurd (omega arith)
bit_xor_twice_fuel zero (suc a) k h g = absurd (omega arith)
bit_xor_twice_fuel (suc n) a k h g =
    let parts = bit_xor_parts a k in
    let bits = differ_bits (a % 2) (k % 2) (omega arith) (omega arith) in
    let rest = bit_xor_twice_fuel n (a / 2) (k / 2) (omega arith) (omega arith) in
    bit_xor_step (bit_xor a k) k
    ∙ (λ i. bit_xor (parts.0 i) (k / 2) * 2 + differ (parts.1 i) (k % 2))
    ∙ omega (arith, rest, bits.1)

pub bit_xor_twice : (a k : ℕ) → bit_xor (bit_xor a k) k ≡ a
bit_xor_twice a k = bit_xor_twice_fuel (a + k) a k (omega arith) (omega arith)
