-- ===== src/Image/Show/Dump.antt =====
-- Mode dump of the image viewer, and a dump that is shown again
-- (hw_bringup/userspace/image_viewer/zx32_image_viewer.c, `main`, `write_ppm`, `write_ppm_scaled`).
use zynq_cpu.Base.{
  ℕ, ◌%◌, ◌^◌, ◌<◌, ◌≡◌, refl, ap, ◌∙◌, Store, word, true, [], ◌∷◌, codes, some, arith,
}
use zynq_cpu.Console.Writer.Digits.{dec_digits, dec_digits_lem}
use zynq_cpu.Image.Number.{parse_ulong, parse_ulong-dec}
use zynq_cpu.Image.Header.{same_text}
use zynq_cpu.Image.Show.{Fits, IsReady, Fits-word, display-Fits}
use zynq_cpu.Image.Viewer.{
  Host, Text, ended, fb_base_default, ask, follow, job_with, no_file, names_file, setup, setup_dump,
  dump_options, dump_picture, show_and_dump, dump_to, load_input,
}

parse_ulong-dec_digits :
    (value : ℕ) → 0 < value → value < word → parse_ulong (dec_digits value) ≡ some value
parse_ulong-dec_digits value pos small =
    let (reads, digits, leading) = dec_digits_lem value small in
    parse_ulong-dec (dec_digits value) digits (leading (omega arith)) (omega (arith, reads))
    ∙ ap some reads

-- The modes' conditions for a dump: the picture fits and is mapped, and the file can be written.
abbrev pub CanDump : Host → Text → ℕ → ℕ → Type 0
CanDump host path width height =
    Fits width height
    × IsReady host width height
    × (names_file path ≡ true)
    × (host.writes path ≡ true)

module _ (host : Host) (path : Text) (width height : ℕ) (src : Store) where
  pub setup-dump :
      Fits width height
      → setup host (codes "dump" ∷ dec_digits width ∷ dec_digits height ∷ path ∷ [])
        ≡ ask (job_with no_file width height (some path) fb_base_default width height)
  unfolding setup setup_dump same_text dump_options
  setup-dump fits =
      let (w, h) = Fits-word width height fits in
      let w' = parse_ulong-dec_digits width fits.0 w in
      let h' = parse_ulong-dec_digits height fits.1 h in
      let whole_w : width % 2 ^ 32 ≡ width = omega arith in
      let whole_h : height % 2 ^ 32 ≡ height = omega arith in rw (w', h', whole_w, whole_h) refl

  pub setup-dump_sized :
      (out_width out_height : ℕ)
      → Fits width height
      → Fits out_width out_height
      → setup host (
          codes "dump"
          ∷ dec_digits width
          ∷ dec_digits height
          ∷ path
          ∷ dec_digits out_width
          ∷ dec_digits out_height
          ∷ [])
        ≡ ask (job_with no_file width height (some path) fb_base_default out_width out_height)
  unfolding setup setup_dump same_text dump_options
  setup-dump_sized out_width out_height fits out =
      let (w, h) = Fits-word width height fits in
      let (ow, oh) = Fits-word out_width out_height out in
      let w' = parse_ulong-dec_digits width fits.0 w in
      let h' = parse_ulong-dec_digits height fits.1 h in
      let ow' = parse_ulong-dec_digits out_width out.0 ow in
      let oh' = parse_ulong-dec_digits out_height out.1 oh in
      let whole_w : width % 2 ^ 32 ≡ width = omega arith in
      let whole_h : height % 2 ^ 32 ≡ height = omega arith in
      let whole_ow : out_width % 2 ^ 32 ≡ out_width = omega arith in
      let whole_oh : out_height % 2 ^ 32 ≡ out_height = omega arith in
      rw (w', h', ow', oh', whole_w, whole_h, whole_ow, whole_oh) refl

  -- What is displayed at a dump is the file alone.
  pub display-dump :
      (out_width out_height : ℕ)
      → CanDump host path width height
      → follow host
          (ask (job_with no_file width height (some path) fb_base_default out_width out_height))
          src
        ≡ ended 0 src (
            some (
              path,
              dump_picture
                  (job_with no_file width height (some path) fb_base_default out_width out_height)
                  src,
            ))
  unfolding show_and_dump load_input dump_to
  display-dump out_width out_height can =
      let job = job_with no_file width height (some path) fb_base_default out_width out_height in
      let (fits, ready, named, writes) = can in
      display-Fits host job src fits ready.0 ready.1 ∙ rw (named, writes) refl
