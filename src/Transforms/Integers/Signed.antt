-- ===== src/Transforms/Integers/Signed.antt =====
-- The two readings of an integer at a bit width, "signed_convert" of
-- backend/reversing_lab/analyzer/transforms.py.
use native.Mathlib.Nat.{mod-lt, mod-eq_of_lt, mod-add-div}
use reversing_lab.Prelude.{
  ℕ, zero, suc, ◌+◌, ◌-◌, ◌*◌, ◌%◌, ◌/◌, ◌^◌, ◌≤◌, ◌<◌, ◌≡◌, true, some, if◌then◌else◌, leb, arith,
  Bool-cases, if_true, if_false, ap, ◌∙◌, ◌⊎◌, inl, inr,
}
use reversing_lab.Prelude.Int.{ℤ, pos, negsuc, sub_ℕ, pos_part, neg_part}
use reversing_lab.Transforms.{mod_by}
use reversing_lab.Transforms.Integers.{allowed_bits, signed_convert}

-- The signed reading of a number below twice `half`.
abbrev reading : ℕ → ℕ → ℤ
reading half unsigned = if leb half unsigned then sub_ℕ unsigned (2 * half) else pos unsigned

reading_fits :
    (half unsigned : ℕ)
    → unsigned < 2 * half
    → (pos_part (reading half unsigned) < half) × (neg_part (reading half unsigned) ≤ half)
reading_fits half unsigned h = ground arith

reading_offset :
    (half unsigned whole : ℕ)
    → unsigned < whole
    → whole ≡ 2 * half
    → (reading half unsigned ≡ pos unsigned) ⊎ (unsigned + neg_part (reading half unsigned) ≡ whole)
reading_offset half unsigned whole h w = elim (Bool-cases (leb half unsigned)) [
  | inl high ↦ inr (ground (arith, high, w, h))
  | inr low ↦ inl (if_false (leb half unsigned) _ _ low)
]

reading_pos : (half n : ℕ) → n < half → reading half (mod_by (2 * half) (pos n)) ≡ pos n
reading_pos half n h =
    let small : n % (2 * half) ≡ n = mod-eq_of_lt (omega arith) in
    ap (reading half) small ∙ if_false (leb half n) _ _ (ground arith)

reading_neg : (half n : ℕ) → n < half → reading half (mod_by (2 * half) (negsuc n)) ≡ negsuc n
reading_neg half n h =
    let small : n % (2 * half) ≡ n = mod-eq_of_lt (omega arith) in
    ap (λ k. reading half (2 * half - 1 - k)) small
    ∙ if_true (leb half (2 * half - 1 - n)) _ _ (ground arith)
    ∙ if_false (leb (2 * half) (2 * half - 1 - n)) _ _ (ground arith)
    ∙ ap negsuc (omega arith)

-- An integer of the signed range is its own reading.
reading_same :
    (half : ℕ) (z : ℤ)
    → pos_part z < half
    → neg_part z ≤ half
    → reading half (mod_by (2 * half) z) ≡ z
reading_same half (pos n) h g = reading_pos half n h
reading_same half (negsuc n) h g = reading_neg half n (omega arith)

mod_by-below : (m : ℕ) (z : ℤ) → 0 < m → mod_by m z < m
mod_by-below m (pos n) h = mod-lt n h
mod_by-below m (negsuc n) h = omega arith

power_twice : (bits : ℕ) → allowed_bits bits ≡ true → 2 ^ bits ≡ 2 * 2 ^ (bits - 1)
power_twice zero h = ground (arith, h)
power_twice (suc bits) h =
    let same : suc bits - 1 ≡ bits = omega arith in omega (arith, ap (λ k. 2 ^ k) same)

power_pos : (bits : ℕ) → 0 < 2 ^ bits
power_pos zero = omega arith
power_pos (suc bits) = omega (arith, power_pos bits)

convert_reading :
    (bits : ℕ) (z : ℤ)
    → allowed_bits bits ≡ true
    → signed_convert bits z
      ≡ some (mod_by (2 ^ bits) z, reading (2 ^ (bits - 1)) (mod_by (2 ^ bits) z))
unfolding signed_convert
convert_reading bits z h =
    if_true (allowed_bits bits) _ _ h
    ∙ ap
        (λ m. some (
          mod_by (2 ^ bits) z,
          if leb (2 ^ (bits - 1)) (mod_by (2 ^ bits) z)
              then sub_ℕ (mod_by (2 ^ bits) z) m
              else pos (mod_by (2 ^ bits) z),
        ))
        (power_twice bits h)

-- The remainder differs from the integer by a multiple of the modulus.
mod_by-multiple :
    (m : ℕ) (z : ℤ) → 0 < m → (j k : ℕ) × (pos_part z + m * j ≡ mod_by m z + neg_part z + m * k)
mod_by-multiple m (pos n) h = (0, n / m, omega (arith, mod-add-div n m))
mod_by-multiple m (negsuc n) h = (n / m + 1, 0, omega (arith, mod-add-div n m, mod-lt n h))

-- At each of the four widths the unsigned reading is below 2 to the width, the signed one is in the
-- range of two's complement, the two are equal or differ by 2 to the width, and the unsigned one differs
-- from the integer by a multiple of 2 to the width.
pub signed_convert_ranges :
    (bits : ℕ) (z : ℤ)
    → allowed_bits bits ≡ true
    → (unsigned : ℕ) × (signed : ℤ) × (signed_convert bits z ≡ some (unsigned, signed))
      × (unsigned < 2 ^ bits)
      × (pos_part signed < 2 ^ (bits - 1))
      × (neg_part signed ≤ 2 ^ (bits - 1))
      × ((signed ≡ pos unsigned) ⊎ (unsigned + neg_part signed ≡ 2 ^ bits))
      × ((j k : ℕ) × (pos_part z + 2 ^ bits * j ≡ unsigned + neg_part z + 2 ^ bits * k))
signed_convert_ranges bits z h =
    let u = mod_by (2 ^ bits) z in
    let below = mod_by-below (2 ^ bits) z (power_pos bits) in
    let fits = reading_fits (2 ^ (bits - 1)) u (omega (arith, below, power_twice bits h)) in
    (
      u,
      reading (2 ^ (bits - 1)) u,
      convert_reading bits z h,
      below,
      fits.0,
      fits.1,
      reading_offset (2 ^ (bits - 1)) u (2 ^ bits) below (power_twice bits h),
      mod_by-multiple (2 ^ bits) z (power_pos bits),
    )

-- An integer that fits the signed range of an allowed width is its own signed reading.
pub signed_convert_same :
    (bits : ℕ) (z : ℤ)
    → allowed_bits bits ≡ true
    → pos_part z < 2 ^ (bits - 1)
    → neg_part z ≤ 2 ^ (bits - 1)
    → signed_convert bits z ≡ some (mod_by (2 ^ bits) z, z)
signed_convert_same bits z h p n =
    convert_reading bits z h
    ∙ ap (λ m. some (mod_by (2 ^ bits) z, reading (2 ^ (bits - 1)) (mod_by m z)))
        (power_twice bits h)
    ∙ ap (λ s. some (mod_by (2 ^ bits) z, s)) (reading_same (2 ^ (bits - 1)) z p n)
