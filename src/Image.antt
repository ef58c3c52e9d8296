-- ===== src/Image.antt =====
-- The image viewer of Linux (hw_bringup/userspace/image_viewer/zx32_image_viewer.c): pictures between
-- files and the framebuffer. A file is the list of its bytes from the place where it is read, and the
-- framebuffer a function from word indices. What a file system may refuse (opening, closing, a short
-- write) and the messages are left out, and so is the mapping of /dev/mem.
pub mod Number
pub mod Header
pub mod Pixels
pub mod Size
pub mod Viewer
pub mod Show
pub mod Closing
mod Tests
use zynq_cpu.Base.{
  ℕ, zero, suc, ◌+◌, ◌-◌, ◌*◌, ◌/◌, ◌%◌, ◌^◌, sub32, Store, update, u8, for_range, bit_or, ltb, leb,
  ◌==◌, not, ◌&&◌, ◌||◌, if◌then◌else◌, Bool, true, false, List, [], ◌∷◌, ◌++◌, codes, length,
  Option, none, some,
}
use zynq_cpu.Console.Writer.{char_at}
use zynq_cpu.Console.Writer.Digits.{dec_digits}

abbrev pub vram_bytes : ℕ
vram_bytes = 64 * 1024 * 1024

-- The bytes of a picture, where it fits; the stride and the product have 64 bits.
unfoldable pub checked_fb_bytes : ℕ → ℕ → Option ℕ
checked_fb_bytes width height =
    let stride = width * 4 % 2 ^ 64 in
    let bytes = stride * height % 2 ^ 64 in
    if width == 0 || height == 0
    then none
    else if ltb (0xFFFF_FFFF / 4) width
    then none
    else if ltb vram_bytes bytes
    then none
    else some bytes

-- fread: `n` bytes and what follows them, or none where there are fewer.
unfoldable pub read_bytes : ℕ → List ℕ → Option (List ℕ × List ℕ)
read_bytes zero file = some ([], file)
read_bytes (suc n) [] = none
read_bytes (suc n) (c ∷ cs) = elim (read_bytes n cs) [
  | none ↦ none
  | some (row, rest) ↦ some (c ∷ row, rest)
]

-- Rows of a picture from row `y` on, with `n` left, of `size` bytes for each of the `width` pixels:
-- whether all could be read, and the framebuffer.
module _ (size : ℕ) (pixel : List ℕ → ℕ → ℕ) (width : ℕ) where
  unfoldable pub put_row : ℕ → List ℕ → Store → Store
  put_row y row = for_range width 0 (λ x. update (y * width + x) (pixel row x))

  unfoldable pub load_rows : ℕ → ℕ → List ℕ → Store → Bool × Store
  load_rows zero y file fb = (true, fb)
  load_rows (suc n) y file fb = elim (read_bytes (width * size) file) [
    | none ↦ (false, fb)
    | some (row, rest) ↦ load_rows n (y + 1) rest (put_row y row fb)
  ]

-- Three bytes of a row as 0x00RRGGBB.
unfoldable pub rgb_pixel : List ℕ → ℕ → ℕ
rgb_pixel row x =
    bit_or (bit_or (char_at row (x * 3) * 2 ^ 16) (char_at row (x * 3 + 1) * 2 ^ 8))
      (char_at row (x * 3 + 2))

-- Four bytes of a row as a word, the lowest first.
unfoldable pub raw_pixel : List ℕ → ℕ → ℕ
raw_pixel row x =
    char_at row (x * 4)
    + char_at row (x * 4 + 1) * 2 ^ 8
    + char_at row (x * 4 + 2) * 2 ^ 16
    + char_at row (x * 4 + 3) * 2 ^ 24

unfoldable pub load_ppm : ℕ → ℕ → List ℕ → Store → Bool × Store
load_ppm width height = load_rows 3 rgb_pixel width height 0

-- A raw file has exactly the bytes of the picture.
unfoldable pub load_raw_xrgb : ℕ → ℕ → List ℕ → Store → Bool × Store
load_raw_xrgb width height file fb =
    let loaded = load_rows 4 raw_pixel width height 0 file fb in
    elim (checked_fb_bytes width height) [
      | none ↦ (false, fb)
      | some bytes ↦ if length file == bytes then loaded else (false, fb)
    ]

-- The header before `file`; `%u` prints decimal digits.
unfoldable pub ppm_header : ℕ → ℕ → List ℕ → List ℕ
ppm_header width height file =
    codes "P6"
    ++ (10 ∷ dec_digits width ++ (32 ∷ dec_digits height ++ (10 ∷ codes "255" ++ (10 ∷ file))))

abbrev pub rgb_bytes : ℕ → List ℕ → List ℕ
rgb_bytes px file = u8 (px / 2 ^ 16) ∷ u8 (px / 2 ^ 8) ∷ u8 px ∷ file

-- `n` pixels of a row from pixel `x` on, each by the index `at` gives it, before `file`.
unfoldable pub row_bytes : (ℕ → ℕ) → Store → ℕ → ℕ → List ℕ → List ℕ
row_bytes at fb zero x file = file
row_bytes at fb (suc n) x file = rgb_bytes (fb (at x)) (row_bytes at fb n (x + 1) file)

-- `n` rows from row `y` on.
unfoldable pub rows_bytes : (ℕ → ℕ → ℕ) → Store → ℕ → ℕ → ℕ → List ℕ
rows_bytes at fb width zero y = []
rows_bytes at fb width (suc n) y = row_bytes (at y) fb width 0 (rows_bytes at fb width n (y + 1))

unfoldable pub write_ppm : Store → ℕ → ℕ → List ℕ
write_ppm fb width height =
    ppm_header width height (rows_bytes (λ y x. y * width + x) fb width height 0)

-- The place of a source pixel for an output pixel; the product has 64 bits.
unfoldable pub source_index : ℕ → ℕ → ℕ → ℕ
source_index k size out_size =
    let src = k * size % 2 ^ 64 / out_size % 2 ^ 32 in if leb size src then sub32 size 1 else src

unfoldable pub write_ppm_scaled : Store → ℕ → ℕ → ℕ → ℕ → List ℕ
write_ppm_scaled fb width height out_width out_height =
    let at =
      λ (y x : ℕ). source_index y height out_height * width + source_index x width out_width in
    ppm_header out_width out_height (rows_bytes at fb out_width out_height 0)
