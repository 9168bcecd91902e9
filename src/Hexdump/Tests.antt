-- ===== src/Hexdump/Tests.antt =====
-- A page of the hex dump, and the theorem at an input.
use reversing_lab.Prelude.{ℕ, ◌≡◌, refl, List, [], ◌∷◌, map, take, drop, length}
use reversing_lab.Prelude.Int.{pos, negsuc}
use reversing_lab.Hexdump.{
  HexPage, page, refused, hex_page, page_of, rows_from, row_of, hex_byte, ascii_render,
}
use reversing_lab.Hexdump.Tiles.{shown, Tiled, hex_page-shown}

abbrev image : List ℕ
image = 127 ∷ 69 ∷ 76 ∷ 70 ∷ 2 ∷ []

second_half :
    hex_page image (pos 3) (pos 16)
    ≡ page record {
      offset = 3;
      length = 2;
      total_size = 5;
      rows = record { offset = 3; hex_bytes = "46" ∷ "02" ∷ []; ascii = "F." } ∷ [];
    }
unfolding hex_page page_of rows_from row_of hex_byte ascii_render
second_half = refl

negative : hex_page image (negsuc 0) (pos 16) ≡ refused "offset must be non-negative."
unfolding hex_page
negative = refl

hex_page-shown_example :
    (p : HexPage) × (hex_page image (pos 1) (pos 2) ≡ page p)
    × (shown p.rows ≡ map hex_byte (take 2 (drop 1 image)))
    × Tiled p.offset p.rows
    × (p.length ≡ length (shown p.rows))
hex_page-shown_example = hex_page-shown image 1 1
