-- ===== src/Transforms/Integers/Encoded.antt =====
-- The bytes of an integer, "integer_endian" of backend/reversing_lab/analyzer/transforms.py, and what they
-- stand for.
use mathlib.Core.List.{reverse, reverse-reverse, reverse-cons}
use native.Mathlib.Nat.{pow-suc}
use reversing_lab.Prelude.{
  ℕ, zero, suc, ◌+◌, ◌-◌, ◌*◌, ◌/◌, ◌^◌, ◌≤◌, ◌<◌, ◌≡◌, refl, ap, ◌∙◌, String, Bool, true, false,
  ◌||◌, not, some, none, List, [], ◌∷◌, length, length-append, ◌⊎◌, inl, inr, str_eq, if◌then◌else◌,
  ltb, arith, Bool-cases, if_true, if_false, ltb→lt, lt→ltb,
}
use reversing_lab.Prelude.Int.{ℤ, pos, negsuc}
use reversing_lab.Transforms.Xor.{output, invalid}
use reversing_lab.Transforms.Integers.{
  little, to_bytes, allowed_width, allowed_endian, is_negative, encoded, integer_endian,
}

-- The number that bytes stand for, lowest first.
abbrev pub of_little : List ℕ → ℕ
of_little [] = 0
of_little (byte ∷ bytes) = byte + 256 * of_little bytes

of_little-little : (width n : ℕ) → n < 256 ^ width → of_little (little width n) ≡ n
unfolding little
of_little-little zero n h = omega arith
of_little-little (suc width) n h =
    omega (arith, of_little-little width (n / 256) (ground (arith, h)))

length-little : (width n : ℕ) → length (little width n) ≡ width
unfolding little
length-little zero n = refl
length-little (suc width) n = omega (arith, length-little width (n / 256))

eight_bits : (n : ℕ) → 2 ^ suc (suc (suc (suc (suc (suc (suc (suc n))))))) ≡ 256 * 2 ^ n
eight_bits n = omega arith

power_bytes : (width : ℕ) → 2 ^ (8 * width) ≡ 256 ^ width
power_bytes zero = refl
power_bytes (suc width) =
    let more : 8 * suc width ≡ suc (suc (suc (suc (suc (suc (suc (suc (8 * width)))))))) =
      omega arith in
    ap (λ k. 2 ^ k) more
    ∙ eight_bits (8 * width)
    ∙ omega (arith, power_bytes width, pow-suc 256 width)

-- The number that bytes stand for in either order.
abbrev pub of_bytes : Bool → List ℕ → ℕ
of_bytes is_little bytes = of_little (if is_little then bytes else reverse bytes)

abbrev in_order : Bool → List ℕ → List ℕ
in_order is_little bytes = if is_little then bytes else reverse bytes

of_bytes-in_order :
    (is_little : Bool) (bytes : List ℕ)
    → of_bytes is_little (in_order is_little bytes) ≡ of_little bytes
of_bytes-in_order true bytes = refl
of_bytes-in_order false bytes = ap of_little (reverse-reverse bytes)

-- What the width holds: two's complement for a negative integer.
abbrev pub Fits : ℕ → ℤ → Type 0
Fits width (pos n) = n < 2 ^ (8 * width)
Fits width (negsuc n) = n < 2 ^ (8 * width - 1)

-- The bytes of an integer stand for it, for a negative one for it and 2 to the bits of the width.
abbrev pub Stands : ℕ → ℤ → ℕ → Type 0
Stands width (pos n) value = value ≡ n
Stands width (negsuc n) value = value + suc n ≡ 2 ^ (8 * width)

negative_below : (width n : ℕ) → 0 < width → n < 2 ^ (8 * width - 1) → suc n ≤ 2 ^ (8 * width)
negative_below zero n h g = absurd (omega arith)
negative_below (suc width) n h g =
    let top : 8 * suc width ≡ suc (8 * suc width - 1) = omega arith in
    omega (arith, ap (λ k. 2 ^ k) top)

to_bytes_back :
    (width : ℕ) (is_little : Bool) (z : ℤ)
    → 0 < width
    → Fits width z
    → (bytes : List ℕ) × (to_bytes width is_little (is_negative z) z
        ≡ some (in_order is_little bytes))
      × (length bytes ≡ width)
      × Stands width z (of_bytes is_little (in_order is_little bytes))
unfolding to_bytes
to_bytes_back width is_little (pos n) h fits = (
  little width n,
  if_true (ltb n (2 ^ (8 * width))) _ _ (lt→ltb n (2 ^ (8 * width)) fits),
  length-little width n,
  of_bytes-in_order is_little (little width n)
      ∙ of_little-little width n (omega (arith, power_bytes width)),
)
to_bytes_back width is_little (negsuc n) h fits =
    let m = 2 ^ (8 * width) - suc n in
    let small = negative_below width n h fits in
    (
      little width m,
      if_true (ltb n (2 ^ (8 * width - 1))) _ _ (lt→ltb n (2 ^ (8 * width - 1)) fits),
      length-little width m,
      omega (
        arith,
        of_bytes-in_order is_little (little width m),
        of_little-little width m (omega (arith, power_bytes width)),
        small,
      ),
    )

abbrev fits : ℕ → ℤ → Bool
fits width (pos n) = ltb n (2 ^ (8 * width))
fits width (negsuc n) = ltb n (2 ^ (8 * width - 1))

fits-Fits : (width : ℕ) (z : ℤ) → fits width z ≡ true → Fits width z
fits-Fits width (pos n) h = ltb→lt n (2 ^ (8 * width)) h
fits-Fits width (negsuc n) h = ltb→lt n (2 ^ (8 * width - 1)) h

fits-not : (width : ℕ) (z : ℤ) → fits width z ≡ false → ¬ (Fits width z)
fits-not width (pos n) h = λ f. ground (arith, h, lt→ltb n (2 ^ (8 * width)) f)
fits-not width (negsuc n) h = λ f. ground (arith, h, lt→ltb n (2 ^ (8 * width - 1)) f)

to_bytes_refused :
    (width : ℕ) (is_little : Bool) (z : ℤ)
    → fits width z ≡ false
    → to_bytes width is_little (is_negative z) z ≡ none
unfolding to_bytes
to_bytes_refused width is_little (pos n) h = if_false (ltb n (2 ^ (8 * width))) _ _ h
to_bytes_refused width is_little (negsuc n) h = if_false (ltb n (2 ^ (8 * width - 1))) _ _ h

length-reverse : (bytes : List ℕ) → length (reverse bytes) ≡ length bytes
length-reverse [] = refl
length-reverse (byte ∷ bytes) = omega (
  arith,
  ap length (reverse-cons byte bytes),
  length-append (reverse bytes) (byte ∷ []),
  length-reverse bytes,
)

length-in_order :
    (is_little : Bool) (bytes : List ℕ) → length (in_order is_little bytes) ≡ length bytes
length-in_order true bytes = refl
length-in_order false bytes = length-reverse bytes

allowed_pos : (width : ℕ) → allowed_width width ≡ true → 0 < width
allowed_pos zero h = ground (arith, h)
allowed_pos (suc width) h = omega arith

integer_endian-encoded :
    (width : ℕ) (endian : String) (z : ℤ)
    → allowed_width width ≡ true
    → allowed_endian endian ≡ true
    → integer_endian width endian z
      ≡ encoded (to_bytes width (str_eq endian "little") (is_negative z) z)
unfolding integer_endian
integer_endian-encoded width endian z w e =
    if_false (not (allowed_width width) || not (allowed_endian endian)) _ _
      (λ i. not (w i) || not (e i))

-- At an allowed width and order, the output is as many bytes as the width, which stand for the integer
-- in that order, or the integer does not fit the width and is refused.
pub integer_endian_exact :
    (width : ℕ) (endian : String) (z : ℤ)
    → allowed_width width ≡ true
    → allowed_endian endian ≡ true
    → ((bytes : List ℕ) × (integer_endian width endian z ≡ output bytes)
        × (length bytes ≡ width)
        × Stands width z (of_bytes (str_eq endian "little") bytes))
      ⊎ ((¬ (Fits width z))
          × (integer_endian width endian z ≡ invalid "Integer does not fit the selected width."))
integer_endian_exact width endian z w e =
    let is_little = str_eq endian "little" in
    let start = integer_endian-encoded width endian z w e in
    elim (Bool-cases (fits width z)) [
      | inl yes_ ↦
          let made =
            to_bytes_back width is_little z (allowed_pos width w) (fits-Fits width z yes_) in
          inl (
            in_order is_little made.0,
            start ∙ ap encoded made.1,
            length-in_order is_little made.0 ∙ made.2,
            made.3,
          )
      | inr no_ ↦
          inr (fits-not width z no_, start ∙ ap encoded (to_bytes_refused width is_little z no_))
    ]
