-- ===== src/Hexdump/Tiles.antt =====
-- The rows of a page of backend/reversing_lab/analyzer/hexdump.py are its window, cut every sixteen bytes.
use reversing_lab.Prelude.{
  ℕ, zero, suc, ◌+◌, ◌-◌, ◌≤◌, ◌≡◌, ◌⊎◌, inl, inr, refl, sym, ap, ◌∙◌, min, String, List, [], ◌∷◌,
  ◌++◌, map, take, drop, length, leb, Bool-cases, length-take, length-drop, take-append-drop, arith,
}
use reversing_lab.Prelude.Int.{pos}
use reversing_lab.Hexdump.{HexRow, HexPage, page, hex_byte, row_of, rows_from, page_of, hex_page}

-- The bytes of all rows, in their order.
abbrev pub shown : List HexRow → List String
shown [] = []
shown (r ∷ rows) = r.hex_bytes ++ shown rows

-- Rows from an offset on, each sixteen bytes behind the last, of which only the last can be short.
abbrev pub Tiled : ℕ → List HexRow → Type 0
Tiled offset [] = Unit
Tiled offset (r ∷ rows) =
    (r.offset ≡ offset)
    × (1 ≤ length r.hex_bytes)
    × (length r.hex_bytes ≤ 16)
    × ((length r.hex_bytes ≡ 16) ⊎ (rows ≡ []))
    × Tiled (offset + 16) rows

map-append : (xs ys : List ℕ) → map hex_byte (xs ++ ys) ≡ map hex_byte xs ++ map hex_byte ys
map-append [] ys = refl
map-append (x ∷ xs) ys = λ i. hex_byte x ∷ map-append xs ys i

length-hex : (xs : List ℕ) → length (map hex_byte xs) ≡ length xs
length-hex [] = refl
length-hex (x ∷ xs) = omega (arith, length-hex xs)

shown-rows_from :
    (fuel offset : ℕ) (window : List ℕ)
    → length window ≤ fuel
    → shown (rows_from fuel offset window) ≡ map hex_byte window
unfolding rows_from row_of
shown-rows_from zero offset [] h = refl
shown-rows_from zero offset (b ∷ window) h = absurd (omega (arith, h))
shown-rows_from (suc fuel) offset [] h = refl
shown-rows_from (suc fuel) offset (b ∷ window) h =
    let rest = drop 16 (b ∷ window) in
    ap (λ t. map hex_byte (take 16 (b ∷ window)) ++ t)
      (shown-rows_from fuel (offset + 16) rest (omega (arith, length-drop 16 (b ∷ window), h)))
    ∙ sym (map-append (take 16 (b ∷ window)) rest)
    ∙ ap (map hex_byte) (take-append-drop 16 (b ∷ window))

rows_from-short :
    (fuel offset : ℕ) (window : List ℕ) → length window ≡ 0 → rows_from fuel offset window ≡ []
unfolding rows_from
rows_from-short zero offset window h = refl
rows_from-short (suc fuel) offset [] h = refl
rows_from-short (suc fuel) offset (b ∷ window) h = absurd (omega (arith, h))

full_or_last :
    (fuel offset : ℕ) (window : List ℕ)
    → length (map hex_byte (take 16 window)) ≡ min 16 (length window)
    → (length (map hex_byte (take 16 window)) ≡ 16) ⊎ (rows_from fuel offset (drop 16 window) ≡ [])
full_or_last fuel offset window size = elim (Bool-cases (leb 16 (length window))) [
  | inl full ↦ inl (ground (arith, size, full))
  | inr short ↦
      inr (
        rows_from-short fuel offset (drop 16 window) (ground (arith, length-drop 16 window, short)))
]

Tiled-rows_from : (fuel offset : ℕ) (window : List ℕ) → Tiled offset (rows_from fuel offset window)
unfolding rows_from row_of
Tiled-rows_from zero offset window = tt
Tiled-rows_from (suc fuel) offset [] = tt
Tiled-rows_from (suc fuel) offset (b ∷ window) =
    let all = b ∷ window in
    let size = length-hex (take 16 all) ∙ length-take 16 all in
    (
      refl,
      omega (arith, size),
      omega (arith, size),
      full_or_last fuel (offset + 16) all size,
      Tiled-rows_from fuel (offset + 16) (drop 16 all),
    )

take_clamped : (n : ℕ) (xs : List ℕ) → take (min n (length xs)) xs ≡ take n xs
take_clamped zero xs = let none_ : min 0 (length xs) ≡ 0 = omega arith in ap (λ k. take k xs) none_
take_clamped (suc n) [] = let none_ : min (suc n) 0 ≡ 0 = omega arith in ap (λ k. take k []) none_
take_clamped (suc n) (x ∷ xs) =
    let inner : min (suc n) (suc (length xs)) ≡ suc (min n (length xs)) = omega arith in
    ap (λ k. take k (x ∷ xs)) inner ∙ ap (λ t. x ∷ t) (take_clamped n xs)

drop_clamped : (n : ℕ) (xs : List ℕ) → drop (min n (length xs)) xs ≡ drop n xs
drop_clamped zero xs = let none_ : min 0 (length xs) ≡ 0 = omega arith in ap (λ k. drop k xs) none_
drop_clamped (suc n) [] = let none_ : min (suc n) 0 ≡ 0 = omega arith in ap (λ k. drop k []) none_
drop_clamped (suc n) (x ∷ xs) =
    let inner : min (suc n) (suc (length xs)) ≡ suc (min n (length xs)) = omega arith in
    ap (λ k. drop k (x ∷ xs)) inner ∙ drop_clamped n xs

window_clamped :
    (offset n : ℕ) (xs : List ℕ)
    → take
        (min (min offset (length xs) + n) (length xs) - min offset (length xs))
        (drop (min offset (length xs)) xs)
      ≡ take n (drop offset xs)
window_clamped offset n xs =
    let size : min (min offset (length xs) + n) (length xs) - min offset (length xs)
        ≡ min n (length (drop offset xs)) =
      omega (arith, length-drop offset xs) in
    (λ i. take (size i) (drop_clamped offset xs i)) ∙ take_clamped n (drop offset xs)

-- The page of an accepted request shows exactly the bytes of its window, all of them and in their order,
-- in rows that lie sixteen bytes apart from the page's offset on.
pub hex_page-shown :
    (data_ : List ℕ) (offset n : ℕ)
    → (p : HexPage) × (hex_page data_ (pos offset) (pos (suc n)) ≡ page p)
      × (shown p.rows ≡ map hex_byte (take (suc n) (drop offset data_)))
      × Tiled p.offset p.rows
      × (p.length ≡ length (shown p.rows))
unfolding hex_page page_of
hex_page-shown data_ offset n =
    let start = min offset (length data_) in
    let window = take (min (start + suc n) (length data_) - start) (drop start data_) in
    let seen = shown-rows_from (length window) start window (omega arith) in
    (
      page_of data_ offset (suc n),
      refl,
      seen ∙ ap (map hex_byte) (window_clamped offset (suc n) data_),
      Tiled-rows_from (length window) start window,
      sym (ap length seen ∙ length-hex window),
    )
