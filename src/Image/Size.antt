-- ===== src/Image/Size.antt =====
-- The sizes of pictures (hw_bringup/userspace/image_viewer/zx32_image_viewer.c, `checked_fb_bytes`).
use zynq_cpu.Base.{
  ℕ, zero, suc, ◌*◌, ◌/◌, ◌^◌, ◌≤◌, ◌<◌, ◌≡◌, refl, word, ltb, leb, if◌then◌else◌, Bool-cases, inl,
  inr, ◌&&◌, none, some, arith,
}
use native.Mathlib.Nat.{div-lt_iff_lt-mul}
use zynq_cpu.Image.{vram_bytes, checked_fb_bytes, source_index}

no_wrap : (width height : ℕ) → width ≤ 0x3FFF_FFFF → height < word → width * 4 * height < 2 ^ 64
no_wrap width height w h =
    let a : width * 4 * height ≤ 0xFFFF_FFFC * height = grind arith in omega arith

too_wide : (width height : ℕ) → 0x3FFF_FFFF < width → 0 < height → vram_bytes < width * 4 * height
too_wide width height w h = let a : width * 4 * 1 ≤ width * 4 * height = grind arith in omega arith

-- At dimensions of 32 bits `checked_fb_bytes` accepts exactly the pictures that have pixels and whose
-- bytes have room in the 64 MiB of the display, and gives the number of the bytes: neither the stride
-- nor the product of 64 bits wraps.
pub checked_fb_bytes_lem :
    (width height : ℕ)
    → width < word
    → height < word
    → checked_fb_bytes width height ≡ (
        if (ltb 0 width && ltb 0 height) && leb (width * 4 * height) vram_bytes
        then some (width * 4 * height)
        else none)
unfolding checked_fb_bytes
checked_fb_bytes_lem zero height w h = refl
checked_fb_bytes_lem (suc width) zero w h = ground arith
checked_fb_bytes_lem (suc width) (suc height) w h =
    elim (Bool-cases (ltb 0x3FFF_FFFF (suc width))) [
      | inl wide ↦ ground (arith, too_wide (suc width) (suc height))
      | inr narrow ↦ ground (arith, no_wrap (suc width) (suc height))
    ]

-- The place of a pixel in the source is inside, and is the quotient: neither the wrap nor the clamp of
-- `source_index` is reached.
pub source_index_lem :
    (k size out_size : ℕ)
    → k < out_size
    → out_size < word
    → 0 < size
    → size < word
    → (source_index k size out_size ≡ k * size / out_size) × source_index k size out_size < size
unfolding source_index
source_index_lem k size out_size under o pos small =
    let below : k * size < size * out_size = grind arith in
    let no_wrap : k * size < 2 ^ 64 = grind arith in
    let some_out : 0 < out_size = omega arith in
    let inside : k * size / out_size < size = (div-lt_iff_lt-mul some_out).1 below in ground arith
