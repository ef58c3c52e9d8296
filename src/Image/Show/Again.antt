-- ===== src/Image/Show/Again.antt =====
-- A dump of the image viewer that is shown again
-- (hw_bringup/userspace/image_viewer/zx32_image_viewer.c, `main`, `write_ppm`, `write_ppm_scaled`).
use zynq_cpu.Base.{
  ℕ, ◌+◌, ◌*◌, ◌/◌, ◌%◌, ◌^◌, ◌<◌, ◌≡◌, refl, ap, ◌∙◌, Store, ltb, ◌==◌, not, ◌||◌, if◌then◌else◌,
  Bool-cases, inl, inr, true, false, List, [], ◌∷◌, codes, Option, some, arith,
}
use native.Mathlib.Nat.{div-lt_iff_lt-mul, div-add-mod', mod-lt, mul-div_cancel}
use zynq_cpu.Console.Writer.Digits.{dec_digits}
use zynq_cpu.Image.{rows_bytes, ppm_header, write_ppm, write_ppm_scaled, source_index}
use zynq_cpu.Image.Size.{source_index_lem}
use zynq_cpu.Image.Show.{Fits, IsReady, after, with_file, Fits-word, same_text_refl, main-ppm-rows}
use zynq_cpu.Image.Show.Dump.{CanDump, setup-dump, setup-dump_sized, display-dump}
use zynq_cpu.Image.Viewer.{
  Host, Text, ended, fb_base_default, main, follow, job_with, Job, no_file, dump_picture,
}

file_written :
    (host : Host) (path : Text) (content : List ℕ) (src : Store)
    → (with_file (ended 0 src (some (path, content))) host).files path ≡ some content
file_written host path content src = rw (same_text_refl path) refl

-- The arguments of a dump, and of a dump at another size.
abbrev pub dump_args : Text → ℕ → ℕ → List Text
dump_args path width height = codes "dump" ∷ dec_digits width ∷ dec_digits height ∷ path ∷ []

abbrev pub sized_args : Text → ℕ → ℕ → ℕ → ℕ → List Text
sized_args path width height out_width out_height =
    codes "dump"
    ∷ dec_digits width
    ∷ dec_digits height
    ∷ path
    ∷ dec_digits out_width
    ∷ dec_digits out_height
    ∷ []

module _ (host : Host) (path : Text) (width height : ℕ) (src : Store)
    (can : CanDump host path width height) where
  main-dump :
      main host (dump_args path width height) src
      ≡ ended 0 src (some (path, write_ppm src width height))
  unfolding main dump_picture
  main-dump =
      let some_w : (width == 0) ≡ false = ground arith in
      let some_h : (height == 0) ≡ false = ground arith in
      let same_w : (width == width) ≡ true = ground arith in
      let same_h : (height == height) ≡ true = ground arith in
      ap (λ t. follow host t src) (setup-dump host path width height src can.0)
      ∙ display-dump host path width height src width height can
      ∙ ap (λ file. ended 0 src (some (path, file)))
          (rw (dump_picture, some_w, some_h, same_w, same_h) refl)

  -- A picture that mode dump writes is shown by mode ppm: both end with status 0, every word of the
  -- picture is the word that was dumped but for its top byte, and the words behind stay.
  pub main-dump-ppm :
      (fb : Store) (a : ℕ)
      → after a (
          main
            (with_file (main host (dump_args path width height) src) host)
            (codes "ppm" ∷ path ∷ [])
            fb)
        ≡ some (0, if ltb a (height * width) then src a % 2 ^ 24 else fb a)
  unfolding write_ppm
  main-dump-ppm fb a =
      let file = write_ppm src width height in
      let back = file_written host path file src in
      let later = with_file (ended 0 src (some (path, file))) host in
      let place : a / width * width + a % width ≡ a = div-add-mod' a width in
      ap (λ o. after a (main (with_file o host) (codes "ppm" ∷ path ∷ []) fb)) main-dump
      ∙ main-ppm-rows later path width height (λ y x. y * width + x) src fb a can.0 can.1 back
      ∙ ap (λ k. some (0, if ltb a (height * width) then src k % 2 ^ 24 else fb a)) place

-- The place in the source of a pixel of a dump at another size: the quotients, without a remainder.
abbrev pub source_place : ℕ → ℕ → ℕ → ℕ → ℕ → ℕ
source_place width height out_width out_height a =
    a / out_width * height / out_height * width + a % out_width * width / out_width

module _ (host : Host) (path : Text) (width height out_width out_height : ℕ) (src fb : Store)
    (a : ℕ) (can : CanDump host path width height) (out : Fits out_width out_height)
    (ready : IsReady host out_width out_height) where
  abbrev pub shown_again : Option (ℕ × ℕ)
  shown_again = after a (
      main (with_file (main host (sized_args path width height out_width out_height) src) host)
        (codes "ppm" ∷ path ∷ []) fb)

  abbrev job : Job
  job = job_with no_file width height (some path) fb_base_default out_width out_height

  from_rows :
      (at : ℕ → ℕ → ℕ)
      → dump_picture job src
        ≡ ppm_header out_width out_height (rows_bytes at src out_width out_height 0)
      → shown_again
        ≡ some (
          0,
          if ltb a (out_height * out_width)
              then src (at (a / out_width) (a % out_width)) % 2 ^ 24
              else fb a,
        )
  unfolding main
  from_rows at rows =
      let file = ppm_header out_width out_height (rows_bytes at src out_width out_height 0) in
      let later = with_file (ended 0 src (some (path, file))) host in
      let dumped =
        ap (λ t. follow host t src)
          (setup-dump_sized host path width height src out_width out_height can.0 out)
        ∙ display-dump host path width height src out_width out_height can
        ∙ ap (λ f. ended 0 src (some (path, f))) rows in
      ap (λ o. after a (main (with_file o host) (codes "ppm" ∷ path ∷ []) fb)) dumped
      ∙ main-ppm-rows later path out_width out_height at src fb a out ready
          (file_written host path file src)

  same_size :
      out_width ≡ width
      → out_height ≡ height
      → dump_picture job src
        ≡ ppm_header out_width out_height
            (rows_bytes (λ y x. y * width + x) src out_width out_height 0)
  unfolding dump_picture write_ppm
  same_size w h =
      let some_w : (out_width == 0) ≡ false = ground arith in
      let some_h : (out_height == 0) ≡ false = ground arith in
      let same_w : (out_width == width) ≡ true = ground arith in
      let same_h : (out_height == height) ≡ true = ground arith in
      rw (dump_picture, some_w, some_h, same_w, same_h, w, h) refl

  other_size :
      not (out_width == width) || not (out_height == height) ≡ true
      → dump_picture job src
        ≡ ppm_header out_width out_height (
            rows_bytes
              (λ y x. source_index y height out_height * width + source_index x width out_width)
              src
              out_width
              out_height
              0)
  unfolding dump_picture write_ppm_scaled
  other_size differs =
      let some_w : (out_width == 0) ≡ false = ground arith in
      let some_h : (out_height == 0) ≡ false = ground arith in
      rw (dump_picture, some_w, some_h, differs) refl

  abbrev pixel_of : ℕ → Option (ℕ × ℕ)
  pixel_of p = some (0, if ltb a (out_height * out_width) then src p % 2 ^ 24 else fb a)

  at_place : (p q : ℕ) → (a < out_height * out_width → p ≡ q) → pixel_of p ≡ pixel_of q
  at_place p q same = elim (Bool-cases (ltb a (out_height * out_width))) [
    | inl inside ↦ ap pixel_of (same (ground arith))
    | inr outside ↦ rw outside refl
  ]

  -- Where the sizes differ, the places of `write_ppm_scaled` are the quotients.
  scaled_place :
      a < out_height * out_width
      → source_index (a / out_width) height out_height * width
          + source_index (a % out_width) width out_width
        ≡ source_place width height out_width out_height a
  scaled_place under =
      let (w, h) = Fits-word width height can.0 in
      let (ow, oh) = Fits-word out_width out_height out in
      let row : a / out_width < out_height = (div-lt_iff_lt-mul out.0).1 under in
      let column : a % out_width < out_width = mod-lt a out.0 in
      let y = source_index_lem (a / out_width) height out_height row oh can.0.1 h in
      let x = source_index_lem (a % out_width) width out_width column ow can.0.0 w in
      rw (y.0, x.0) refl

  same_place :
      out_width ≡ width
      → out_height ≡ height
      → a / out_width * width + a % out_width ≡ source_place width height out_width out_height a
  same_place w h =
      rw (w, h, mul-div_cancel (a / width) can.0.1, mul-div_cancel (a % width) can.0.0) refl

  -- A picture that mode dump writes at another size is shown by mode ppm: each pixel is the pixel of the
  -- source at the quotients of its row and its column, for every size that fits, the same one included.
  pub main-dump_sized-ppm :
      shown_again
      ≡ some (
        0,
        if ltb a (out_height * out_width)
            then src (source_place width height out_width out_height a) % 2 ^ 24
            else fb a,
      )
  main-dump_sized-ppm = elim (Bool-cases (not (out_width == width) || not (out_height == height))) [
    | inl differs ↦
        from_rows (λ y x. source_index y height out_height * width + source_index x width out_width)
          (other_size differs)
        ∙ at_place
            (source_index (a / out_width) height out_height * width
              + source_index (a % out_width) width out_width)
            (source_place width height out_width out_height a) scaled_place
    | inr same ↦
        let w : out_width ≡ width = ground arith in
        let h : out_height ≡ height = ground arith in
        from_rows (λ y x. y * width + x) (same_size w h)
        ∙ at_place (a / out_width * width + a % out_width)
            (source_place width height out_width out_height a) (λ under. same_place w h)
  ]
