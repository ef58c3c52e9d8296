-- ===== src/Gpu/Verify.antt =====
-- What the smoke test accepts (hw_bringup/userspace/gpu_smoke/zx32_gpu_smoke.c, `verify_pixels`).
use zynq_cpu.Base.{
  ℕ, zero, suc, ◌+◌, ◌*◌, ◌/◌, ◌%◌, ◌^◌, ◌<◌, ◌≡◌, refl, ap, sym, ◌∙◌, Store, leb, ◌==◌, ◌&&◌,
  if◌then◌else◌, Bool, Bool-cases, inl, inr, true, false, Option, none, some, arith,
}
use mathlib.Core.Bool.{and_assoc}
use zynq_cpu.Base.Bits.{all_below, all_below_sound}
use zynq_cpu.Console.Writer.{char_at}
use zynq_cpu.Gpu.Blend.{nearest_blend, blend_xrgb8888_lem}
use zynq_cpu.Gpu.{
  fb_width, fb_height, clear_color, rect_color, line_color, is_line_pixel, expected_pixel,
  verify_row, unless_ended, verify_rows, without_errors, verify_pixels, each, blit_src, alpha_src,
  scaled_rows, row_at, verify_scale_pixels, verify_alpha_pixels, alpha_dst_color, alpha_value,
}

-- The line from the left end of the last row to the right end of the first, one row up for every two
-- columns.
abbrev pub on_line : ℕ → ℕ → Bool
on_line x y = y + x / 2 == 3

-- The line over the rectangle of 3 by 2 pixels at (2, 1), on a cleared picture.
abbrev pub picture : ℕ → ℕ → ℕ
picture x y =
    if on_line x y
    then line_color
    else if (leb 2 x && leb x 4) && (leb 1 y && leb y 2)
    then rect_color
    else clear_color

expected_pixel_lem : (x y : ℕ) → x < 8 → y < 4 → expected_pixel x y ≡ picture x y
unfolding expected_pixel is_line_pixel
expected_pixel_lem x y x' y' = ground arith

each-ext : (n x : ℕ) (p q : ℕ → Bool) → ((k : ℕ) → k < x + n → p k ≡ q k) → each n x p ≡ each n x q
unfolding each
each-ext zero x p q same = refl
each-ext (suc n) x p q same =
    rw (same x (omega arith), each-ext n (x + 1) p q (λ k h. same k (omega arith))) refl

nothing_and : (b : Bool) → b && false ≡ false
nothing_and true = refl
nothing_and false = refl

and_true : (b : Bool) → b ≡ (b && true)
and_true true = refl
and_true false = refl

-- A row passes where there were no errors before and it has none.
verify_row_lem :
    (fb : Store) (y n x errors : ℕ)
    → without_errors (verify_row fb y n x errors)
      ≡ (errors == 0 && each n x (λ k. fb (y * fb_width + k) == expected_pixel k y))
unfolding verify_row each
verify_row_lem fb y zero x errors = and_true (errors == 0)
verify_row_lem fb y (suc n) x errors =
    elim (Bool-cases (fb (y * fb_width + x) == expected_pixel x y)) [
      | inl same ↦ rw same (verify_row_lem fb y n (x + 1) errors)
      | inr other ↦ elim (Bool-cases (leb 8 (errors + 1))) [
        | inl eighth ↦ rw (other, eighth) (sym (nothing_and (errors == 0)))
        | inr fewer ↦
            let more : (errors + 1 == 0) ≡ false = ground arith in
            rw (other, fewer)
              (verify_row_lem fb y n (x + 1) (errors + 1)
                ∙ rw more (sym (nothing_and (errors == 0))))
      ]
    ]

without_errors-unless_ended :
    (r : Option ℕ) (next : ℕ → Option ℕ) (later : Bool)
    → ((e : ℕ) → without_errors (next e) ≡ (e == 0 && later))
    → without_errors (unless_ended r next) ≡ (without_errors r && later)
without_errors-unless_ended none next later h = refl
without_errors-unless_ended (some e) next later h = h e

verify_rows_lem :
    (fb : Store) (n y errors : ℕ)
    → without_errors (verify_rows fb n y errors) ≡ (
        errors == 0
        && each n y (λ j. each fb_width 0 (λ k. fb (j * fb_width + k) == expected_pixel k j)))
unfolding verify_rows each
verify_rows_lem fb zero y errors = and_true (errors == 0)
verify_rows_lem fb (suc n) y errors =
    let row = each fb_width 0 (λ k. fb (y * fb_width + k) == expected_pixel k y) in
    let later =
      each n (y + 1) (λ j. each fb_width 0 (λ k. fb (j * fb_width + k) == expected_pixel k j)) in
    without_errors-unless_ended (verify_row fb y fb_width 0 errors)
      (λ e. verify_rows fb n (y + 1) e) later (λ e. verify_rows_lem fb n (y + 1) e)
    ∙ ap (λ b. b && later) (verify_row_lem fb y fb_width 0 errors)
    ∙ and_assoc (errors == 0) row later

verify_picture :
    (fb : Store)
    → verify_pixels fb
      ≡ each fb_height 0 (λ y. each fb_width 0 (λ x. fb (y * fb_width + x) == picture x y))
unfolding verify_pixels
verify_picture fb =
    verify_rows_lem fb fb_height 0 0
    ∙ each-ext fb_height 0 _ _ (λ y y'.
      each-ext fb_width 0 _ _
        (λ x x'. ap (λ p. fb (y * fb_width + x) == p) (expected_pixel_lem x y x' y')))

scaled_lem :
    (x y : ℕ)
    → x < 4
    → y < 4
    → char_at (row_at scaled_rows y) x ≡ char_at blit_src (y / 2 * 2 + x / 2)
unfolding all_below
scaled_lem x y x' y' =
    let same =
      λ (y x : ℕ). char_at (row_at scaled_rows y) x == char_at blit_src (y / 2 * 2 + x / 2) in
    let row = all_below_sound 4 (λ j. all_below 4 (same j)) y refl y' in
    let cell = all_below_sound 4 (same y) x row x' in ground (arith, cell)

-- The colour of the alpha blit at (x, y) of the 2 by 2 source.
abbrev pub blended : ℕ → ℕ → ℕ
blended x y =
    let src = char_at alpha_src (y * 2 + x) in
    255 * 2 ^ 24
    + nearest_blend (src / 2 ^ 16 % 256) 0x20 128 * 2 ^ 16
    + nearest_blend (src / 2 ^ 8 % 256) 0x40 128 * 2 ^ 8
    + nearest_blend (src % 256) 0x60 128

-- Each check passes exactly where the pixels have the colours that the operation should leave:
-- `verify_pixels`, whatever it counts and wherever it stops, where all 32 are those of the line over the
-- rectangle; `verify_scale_pixels` where each of the 4 by 4 is the pixel of the source at half its
-- place; `verify_alpha_pixels` where each of the 2 by 2 is the nearest blend.
pub verify_pixels_lem :
    (fb : Store)
    → (verify_pixels fb
        ≡ each fb_height 0 (λ y. each fb_width 0 (λ x. fb (y * fb_width + x) == picture x y)))
      × (verify_scale_pixels fb
          ≡ each 4 0
              (λ y. each 4 0 (λ x. fb (y * fb_width + x) == char_at blit_src (y / 2 * 2 + x / 2))))
      × (verify_alpha_pixels fb
          ≡ each 2 0 (λ y. each 2 0 (λ x. fb (3 + x + (1 + y) * fb_width) == blended x y)))
unfolding verify_scale_pixels verify_alpha_pixels
verify_pixels_lem fb = (
  verify_picture fb,
  each-ext 4 0 _ _ (λ y y'.
      each-ext 4 0 _ _ (λ x x'. ap (λ p. fb (y * fb_width + x) == p) (scaled_lem x y x' y'))),
  each-ext 2 0 _ _ (λ y y'. each-ext 2 0 _ _ (λ x x'.
      ap (λ p. fb (3 + x + (1 + y) * fb_width) == p)
        (blend_xrgb8888_lem (char_at alpha_src (y * 2 + x)) alpha_dst_color alpha_value
          (omega arith)))),
)
