-- ===== src/Gpu.antt =====
-- The checks of the GPU's smoke test (hw_bringup/userspace/gpu_smoke/zx32_gpu_smoke.c): what its
-- operations should leave in the framebuffer. The framebuffer is a function from word indices; the
-- messages are left out.
pub mod Blend
pub mod Verify
pub mod Registers
pub mod Smoke
pub mod Pictures
pub mod Passes
pub mod Scene
pub mod Demo
pub mod Counted
mod Tests
mod SmokeTests
mod DemoTests
use zynq_cpu.Base.{
  ℕ, zero, suc, ◌+◌, ◌-◌, ◌*◌, ◌/◌, ◌%◌, ◌^◌, Store, u8, bit_or, bit_and, ltb, leb, ◌==◌, not, ◌&&◌,
  ◌||◌, if◌then◌else◌, Bool, true, false, List, [], ◌∷◌, Option, none, some,
}
use zynq_cpu.Console.Writer.{char_at}

abbrev pub fb_width : ℕ
fb_width = 8

abbrev pub fb_height : ℕ
fb_height = 4

abbrev pub clear_color : ℕ
clear_color = 0xAABBCCDD

abbrev pub rect_color : ℕ
rect_color = 0x11223344

abbrev pub line_color : ℕ
line_color = 0xFF00FF00

abbrev pub alpha_dst_color : ℕ
alpha_dst_color = 0xFF204060

abbrev pub alpha_value : ℕ
alpha_value = 128

abbrev pub blit_src : List ℕ
blit_src = 0x01020304 ∷ 0x11121314 ∷ 0x21222324 ∷ 0x31323334 ∷ []

abbrev pub alpha_src : List ℕ
alpha_src = 0xFFE02010 ∷ 0xFF1020E0 ∷ 0xFF20E010 ∷ 0xFFE0E020 ∷ []

-- The pixels of the line, one by one.
unfoldable pub is_line_pixel : ℕ → ℕ → Bool
is_line_pixel x y =
    (x == 0 && y == 3)
    || ((x == 1 && y == 3)
        || ((x == 2 && y == 2)
            || ((x == 3 && y == 2)
                || ((x == 4 && y == 1)
                    || ((x == 5 && y == 1) || ((x == 6 && y == 0) || (x == 7 && y == 0)))))))

unfoldable pub expected_pixel : ℕ → ℕ → ℕ
expected_pixel x y =
    if is_line_pixel x y
    then line_color
    else if (leb 2 x && ltb x 5) && (leb 1 y && ltb y 3)
    then rect_color
    else clear_color

-- The errors after `n` pixels of a row from column `x` on; none where the eighth error ends the check.
unfoldable pub verify_row : Store → ℕ → ℕ → ℕ → ℕ → Option ℕ
verify_row fb y zero x errors = some errors
verify_row fb y (suc n) x errors =
    let same = fb (y * fb_width + x) == expected_pixel x y in
    let errors' = if same then errors else errors + 1 in
    let rest = verify_row fb y n (x + 1) errors' in if not same && leb 8 errors' then none else rest

abbrev pub unless_ended : Option ℕ → (ℕ → Option ℕ) → Option ℕ
unless_ended none next = none
unless_ended (some errors) next = next errors

unfoldable pub verify_rows : Store → ℕ → ℕ → ℕ → Option ℕ
verify_rows fb zero y errors = some errors
verify_rows fb (suc n) y errors =
    unless_ended (verify_row fb y fb_width 0 errors) (λ e. verify_rows fb n (y + 1) e)

abbrev pub without_errors : Option ℕ → Bool
without_errors none = false
without_errors (some errors) = errors == 0

-- Whether the check passes, that is, returns 0.
unfoldable pub verify_pixels : Store → Bool
verify_pixels fb = without_errors (verify_rows fb fb_height 0 0)

-- `n` places from place `x` on: whether a test holds at each, up to the first where it does not.
unfoldable pub each : ℕ → ℕ → (ℕ → Bool) → Bool
each zero x test = true
each (suc n) x test = test x && each n (x + 1) test

abbrev pub key_dst_sentinel : ℕ
key_dst_sentinel = 0x55667788

unfoldable pub verify_blit_pixels : Store → Bool
verify_blit_pixels fb =
    (fb (1 + 1 * fb_width) == char_at blit_src 0 && fb (2 + 1 * fb_width) == char_at blit_src 1)
    && (fb (1 + 2 * fb_width) == char_at blit_src 2 && fb (2 + 2 * fb_width) == char_at blit_src 3)

-- The second source pixel has the key's colour, and the destination keeps what it had.
unfoldable pub verify_color_key_pixels : Store → Bool
verify_color_key_pixels fb =
    (fb (4 + 1 * fb_width) == char_at blit_src 0 && fb (5 + 1 * fb_width) == key_dst_sentinel)
    && (fb (4 + 2 * fb_width) == char_at blit_src 2 && fb (5 + 2 * fb_width) == char_at blit_src 3)

-- The rows of a table, one after the other.
abbrev pub scaled_rows : List (List ℕ)
scaled_rows =
    (0x01020304 ∷ 0x01020304 ∷ 0x11121314 ∷ 0x11121314 ∷ [])
    ∷ (0x01020304 ∷ 0x01020304 ∷ 0x11121314 ∷ 0x11121314 ∷ [])
    ∷ (0x21222324 ∷ 0x21222324 ∷ 0x31323334 ∷ 0x31323334 ∷ [])
    ∷ (0x21222324 ∷ 0x21222324 ∷ 0x31323334 ∷ 0x31323334 ∷ [])
    ∷ []

abbrev pub row_at : List (List ℕ) → ℕ → List ℕ
row_at [] y = []
row_at (row ∷ rows) zero = row
row_at (row ∷ rows) (suc y) = row_at rows y

unfoldable pub verify_scale_pixels : Store → Bool
verify_scale_pixels fb =
    each 4 0 (λ y. each 4 0 (λ x. fb (y * fb_width + x) == char_at (row_at scaled_rows y) x))

-- What a channel of two colours is together.
unfoldable pub blend_channel : ℕ → ℕ → ℕ → ℕ
blend_channel src dst alpha =
    let weighted = src * alpha + dst * (255 - alpha) in
    let biased = weighted + 128 in let div255 = biased + biased / 2 ^ 8 in u8 (div255 / 2 ^ 8)

unfoldable pub blend_xrgb8888 : ℕ → ℕ → ℕ → ℕ
blend_xrgb8888 src dst alpha =
    let r = blend_channel (u8 (src / 2 ^ 16)) (u8 (dst / 2 ^ 16)) alpha in
    let g = blend_channel (u8 (src / 2 ^ 8)) (u8 (dst / 2 ^ 8)) alpha in
    let b = blend_channel (u8 src) (u8 dst) alpha in
    bit_or (bit_or (bit_or 0xFF000000 (r * 2 ^ 16)) (g * 2 ^ 8)) b

unfoldable pub verify_alpha_pixels : Store → Bool
verify_alpha_pixels fb = each 2 0 (λ y. each 2 0 (λ x.
    fb (3 + x + (1 + y) * fb_width)
    == blend_xrgb8888 (char_at alpha_src (y * 2 + x)) alpha_dst_color alpha_value))
