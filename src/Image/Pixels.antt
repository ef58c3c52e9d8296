-- ===== src/Image/Pixels.antt =====
-- The pixels of a picture that is written and read back
-- (hw_bringup/userspace/image_viewer/zx32_image_viewer.c, `write_ppm`, `load_ppm`).
use zynq_cpu.Base.{
  ℕ, zero, suc, ◌+◌, ◌-◌, ◌*◌, ◌/◌, ◌%◌, ◌^◌, ◌≤◌, ◌<◌, ◌≡◌, refl, ap, ◌∙◌, sym, Store, update,
  update_lem, u8, for_range, bit_or, ltb, leb, ◌&&◌, if◌then◌else◌, Bool, true, false, List, [],
  some, arith,
}
use zynq_cpu.Base.Bits.{bit_or-field}
use zynq_cpu.Console.Writer.{char_at}
use native.Mathlib.Decide.{ℕ_discrete}
use zynq_cpu.Image.{read_bytes, put_row, load_rows, rgb_pixel, rgb_bytes, row_bytes, rows_bytes}

-- The words a row changes.
put_row_words :
    (base : ℕ) (f : ℕ → ℕ) (a n i : ℕ) (m : Store)
    → for_range n i (λ x. update (base + x) (f x)) m a
      ≡ (if leb (base + i) a && ltb a (base + i + n) then f (a - base) else m a)
unfolding for_range
put_row_words base f a zero i m = ground arith
put_row_words base f a (suc n) i m =
    put_row_words base f a n (i + 1) (update (base + i) (f i) m) ∙ elim (ℕ_discrete a (base + i)) [
      | yes e ↦
          let here : a - base ≡ i = omega arith in
          ground (arith, update_lem (base + i) (f i) a m, ap f here)
      | no ne ↦ ground (arith, update_lem (base + i) (f i) a m)
    ]

pub three_more : (n : ℕ) → suc n * 3 ≡ suc (suc (suc (n * 3)))
three_more n = omega arith

-- Reading as many bytes as a row has ends behind the row.
pub read_bytes-row_bytes :
    (at : ℕ → ℕ) (fb : Store) (n x : ℕ) (file : List ℕ)
    → read_bytes (n * 3) (row_bytes at fb n x file) ≡ some (row_bytes at fb n x [], file)
unfolding read_bytes row_bytes
read_bytes-row_bytes at fb zero x file = refl
read_bytes-row_bytes at fb (suc n) x file =
    ap (λ k. read_bytes k (row_bytes at fb (suc n) x file)) (three_more n)
    ∙ rw (read_bytes, read_bytes-row_bytes at fb n (x + 1) file) refl

rgb_pixel-rgb_bytes : (px : ℕ) (row : List ℕ) → rgb_pixel (rgb_bytes px row) 0 ≡ px % 2 ^ 24
unfolding rgb_pixel
rgb_pixel-rgb_bytes px row =
    ap (λ high. bit_or high (u8 px))
      (bit_or-field 16 (u8 (px / 2 ^ 16)) (u8 (px / 2 ^ 8) * 2 ^ 8) (omega arith))
    ∙ ap (λ high. bit_or high (u8 px)) (omega arith)
    ∙ bit_or-field 8 (u8 (px / 2 ^ 16) * 256 + u8 (px / 2 ^ 8)) (u8 px) (omega arith)
    ∙ omega arith

byte_further :
    (px : ℕ) (row : List ℕ) (k i : ℕ)
    → k ≡ suc (suc (suc i))
    → char_at (rgb_bytes px row) k ≡ char_at row i
byte_further px row k i e = ap (λ k. char_at (rgb_bytes px row) k) e

-- A pixel further on.
rgb_pixel-suc :
    (px : ℕ) (row : List ℕ) (i : ℕ) → rgb_pixel (rgb_bytes px row) (suc i) ≡ rgb_pixel row i
unfolding rgb_pixel
rgb_pixel-suc px row i =
    let at = λ (j : ℕ). byte_further px row (suc i * 3 + j) (i * 3 + j) (omega arith) in
    rw (byte_further px row (suc i * 3) (i * 3) (omega arith), at 1, at 2) refl

pub rgb_pixel-row_bytes :
    (at : ℕ → ℕ) (fb : Store) (n x i : ℕ)
    → i < n
    → rgb_pixel (row_bytes at fb n x []) i ≡ fb (at (x + i)) % 2 ^ 24
unfolding row_bytes
rgb_pixel-row_bytes at fb zero x i under = absurd (omega arith)
rgb_pixel-row_bytes at fb (suc n) x zero under =
    rgb_pixel-rgb_bytes (fb (at x)) (row_bytes at fb n (x + 1) [])
    ∙ ap (λ k. fb (at k) % 2 ^ 24) (omega arith)
rgb_pixel-row_bytes at fb (suc n) x (suc i) under =
    rgb_pixel-suc (fb (at x)) (row_bytes at fb n (x + 1) []) i
    ∙ rgb_pixel-row_bytes at fb n (x + 1) i (omega arith)
    ∙ ap (λ k. fb (at k) % 2 ^ 24) (omega arith)

-- Reading the rows that were written, from row `y` on.
module _ (at : ℕ → ℕ → ℕ) (src : Store) (width : ℕ) where
  abbrev pub reread : ℕ → ℕ → Store → Bool × Store
  reread n y fb = load_rows 3 rgb_pixel width n y (rows_bytes at src width n y) fb

  abbrev put : ℕ → Store → Store
  put y = put_row 3 rgb_pixel width y (row_bytes (at y) src width 0 [])

  reread_step : (n y : ℕ) (fb : Store) → reread (suc n) y fb ≡ reread n (y + 1) (put y fb)
  unfolding load_rows rows_bytes
  reread_step n y fb =
      let got = read_bytes-row_bytes (at y) src width 0 (rows_bytes at src width n (y + 1)) in
      rw (load_rows, got) refl

  put-outside :
      (y a : ℕ) (fb : Store)
      → leb (y * width) a && ltb a (y * width + width) ≡ false
      → put y fb a ≡ fb a
  unfolding put_row
  put-outside y a fb out =
      ground (
        arith,
        put_row_words (y * width) (rgb_pixel (row_bytes (at y) src width 0 [])) a width 0 fb,
      )

  put-inside : (y x : ℕ) (fb : Store) → x < width → put y fb (y * width + x) ≡ src (at y x) % 2 ^ 24
  unfolding put_row
  put-inside y x fb under =
      let place : y * width + x - y * width ≡ x = omega arith in
      let word =
        put_row_words (y * width) (rgb_pixel (row_bytes (at y) src width 0 [])) (y * width + x)
          width 0 fb in
      ground (
        arith,
        word,
        ap (rgb_pixel (row_bytes (at y) src width 0 [])) place,
        rgb_pixel-row_bytes (at y) src width 0 x under,
      )

  pub reread-shows : (n y : ℕ) (fb : Store) → (reread n y fb).0 ≡ true
  unfolding load_rows
  reread-shows zero y fb = refl
  reread-shows (suc n) y fb = ap (λ r. r.0) (reread_step n y fb) ∙ reread-shows n (y + 1) (put y fb)

  -- Words before the first row stay, and words behind the last.
  pub reread-before : (n y a : ℕ) (fb : Store) → a < y * width → (reread n y fb).1 a ≡ fb a
  unfolding load_rows
  reread-before zero y a fb before = refl
  reread-before (suc n) y a fb before =
      ap (λ r. r.1 a) (reread_step n y fb)
      ∙ reread-before n (y + 1) a (put y fb) (omega arith)
      ∙ put-outside y a fb (ground arith)

  pub reread-behind : (n y a : ℕ) (fb : Store) → (y + n) * width ≤ a → (reread n y fb).1 a ≡ fb a
  unfolding load_rows
  reread-behind zero y a fb behind = refl
  reread-behind (suc n) y a fb behind =
      ap (λ r. r.1 a) (reread_step n y fb)
      ∙ reread-behind n (y + 1) a (put y fb) (omega arith)
      ∙ put-outside y a fb (ground arith)

  pub reread-pixel :
      (n y r x : ℕ) (fb : Store)
      → y ≤ r
      → r < y + n
      → x < width
      → (reread n y fb).1 (r * width + x) ≡ src (at r x) % 2 ^ 24
  unfolding load_rows
  reread-pixel zero y r x fb above below under = absurd (omega arith)
  reread-pixel (suc n) y r x fb above below under =
      ap (λ t. t.1 (r * width + x)) (reread_step n y fb) ∙ elim (ℕ_discrete y r) [
        | yes e ↦
            ap (λ r. (reread n (y + 1) (put y fb)).1 (r * width + x)) (sym e)
            ∙ reread-before n (y + 1) (y * width + x) (put y fb) (omega arith)
            ∙ put-inside y x fb under
            ∙ ap (λ r. src (at r x) % 2 ^ 24) e
        | no ne ↦ reread-pixel n (y + 1) r x (put y fb) (omega arith) (omega arith) under
      ]
