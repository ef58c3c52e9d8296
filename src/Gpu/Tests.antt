-- ===== src/Gpu/Tests.antt =====
-- Runs of the smoke test's checks (hw_bringup/userspace/gpu_smoke/zx32_gpu_smoke.c).
use zynq_cpu.Base.{◌+◌, ◌*◌, ◌/◌, ◌%◌, ◌^◌, ◌≡◌, refl, Store, update, true, false, none, arith}
use zynq_cpu.Gpu.{
  is_line_pixel, expected_pixel, verify_row, verify_rows, verify_pixels, blend_xrgb8888,
  verify_blit_pixels, verify_color_key_pixels,
}
use zynq_cpu.Gpu.Blend.{nearest_blend, blend_xrgb8888_lem}
use zynq_cpu.Gpu.Verify.{picture}

abbrev drawn : Store
drawn i = picture (i % 8) (i / 8)

drawn_passes : verify_pixels drawn ≡ true
unfolding verify_pixels verify_rows verify_row expected_pixel is_line_pixel
drawn_passes = refl

wrong_corner_fails : verify_pixels (update 31 0 drawn) ≡ false
unfolding verify_pixels verify_rows verify_row expected_pixel is_line_pixel update
wrong_corner_fails = refl

-- An empty framebuffer ends the check at the eighth pixel, in the first row.
empty_row : verify_row (λ i. 0) 0 8 0 0 ≡ none
unfolding verify_row expected_pixel is_line_pixel
empty_row = refl

blit_passes :
    verify_blit_pixels (
      update 17 0x21222324
        (update 18 0x31323334 (update 9 0x01020304 (update 10 0x11121314 drawn))))
    ≡ true
unfolding verify_blit_pixels update
blit_passes = refl

keyed_pixel_fails :
    verify_color_key_pixels (
      update 20 0x21222324
        (update 21 0x31323334 (update 12 0x01020304 (update 13 0x11121314 drawn))))
    ≡ false
unfolding verify_color_key_pixels update
keyed_pixel_fails = refl

blend_xrgb8888_lem_example :
    blend_xrgb8888 0xFFE02010 0xFF204060 128
    ≡ 255 * 2 ^ 24
      + nearest_blend (0xFFE02010 / 2 ^ 16 % 256) (0xFF204060 / 2 ^ 16 % 256) 128 * 2 ^ 16
      + nearest_blend (0xFFE02010 / 2 ^ 8 % 256) (0xFF204060 / 2 ^ 8 % 256) 128 * 2 ^ 8
      + nearest_blend (0xFFE02010 % 256) (0xFF204060 % 256) 128
blend_xrgb8888_lem_example = blend_xrgb8888_lem 0xFFE02010 0xFF204060 128 (omega arith)
