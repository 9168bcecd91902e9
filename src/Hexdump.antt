-- ===== src/Hexdump.antt =====
-- Pages of a hex dump: backend/reversing_lab/analyzer/hexdump.py.
pub mod Tiles
mod Tests
use Prim.Native.String.{◌++◌ as ◌<>◌}
use reversing_lab.Prelude.{
  ℕ, zero, suc, ◌+◌, ◌-◌, ◌/◌, ◌%◌, min, String, Bool, true, false, ◌&&◌, List, [], ◌∷◌, map, take,
  drop, length, if◌then◌else◌, leb,
}
use reversing_lab.Prelude.Int.{ℤ, pos, negsuc}
use reversing_lab.Prelude.Text.{digit, text_take, text_drop}

pub record HexRow : Type 0 where
  pub offset : ℕ
  pub hex_bytes : List String
  pub ascii : String

pub record HexPage : Type 0 where
  pub offset : ℕ
  pub length : ℕ
  pub total_size : ℕ
  pub rows : List HexRow

-- A page, or a `ValueError` with its text.
pub data Paged : Type 0 where
  page : HexPage → Paged
  refused : String → Paged

-- f"{b:02x}" of a byte
unfoldable pub hex_byte : ℕ → String
hex_byte b = digit (b / 16) <> digit (b % 16)

-- chr(b) of a printable byte, else a dot.
abbrev rendered : ℕ → String
rendered b =
    if leb 32 b && leb b 126
    then text_take 1 (
        text_drop (b - 32)
          " !\"#$%&'()*+,-./0123456789:;<=>?@ABCDEFGHIJKLMNOPQRSTUVWXYZ[\\]^_`abcdefghijklmnopqrstuvwxyz{|}~")
    else "."

unfoldable pub ascii_render : List ℕ → String
ascii_render [] = ""
ascii_render (b ∷ chunk) = rendered b <> ascii_render chunk

unfoldable pub row_of : ℕ → List ℕ → HexRow
unfolding hex_byte ascii_render
row_of offset chunk = record {
  offset = offset;
  hex_bytes = map hex_byte chunk;
  ascii = ascii_render chunk;
}

-- The rows of a window, sixteen bytes to a row; a row to each byte is more than are needed.
unfoldable pub rows_from : ℕ → ℕ → List ℕ → List HexRow
unfolding row_of
rows_from zero offset window = []
rows_from (suc fuel) offset [] = []
rows_from (suc fuel) offset (b ∷ window) =
    row_of offset (take 16 (b ∷ window)) ∷ rows_from fuel (offset + 16) (drop 16 (b ∷ window))

unfoldable pub page_of : List ℕ → ℕ → ℕ → HexPage
unfolding rows_from
page_of data_ offset length_ =
    let total = length data_ in
    let start = min offset total in
    let end = min (start + length_) total in
    let window = take (end - start) (drop start data_) in
    record {
      offset = start;
      length = length window;
      total_size = total;
      rows = rows_from (length window) start window;
    }

unfoldable pub hex_page : List ℕ → ℤ → ℤ → Paged
unfolding page_of
hex_page data_ (negsuc n) length_ = refused "offset must be non-negative."
hex_page data_ (pos offset) (negsuc n) = refused "length must be a positive integer."
hex_page data_ (pos offset) (pos zero) = refused "length must be a positive integer."
hex_page data_ (pos offset) (pos (suc n)) = page (page_of data_ offset (suc n))
