-- ===== src/Gpu/Blend.antt =====
-- The blend of two colours is rounded to the nearest
-- (hw_bringup/userspace/gpu_smoke/zx32_gpu_smoke.c, `blend_channel`, `blend_xrgb8888`).
use zynq_cpu.Base.{ℕ, ◌+◌, ◌-◌, ◌*◌, ◌/◌, ◌%◌, ◌^◌, ◌≤◌, ◌<◌, ◌≡◌, refl, ap, ◌∙◌, u8, bit_or, arith}
use zynq_cpu.Base.Bits.{bit_or-field}
use zynq_cpu.Gpu.{blend_channel, blend_xrgb8888}

-- The nearest number to (src * alpha + dst * (255 - alpha)) / 255; it is never halfway between two.
abbrev pub nearest_blend : ℕ → ℕ → ℕ → ℕ
nearest_blend src dst alpha = (2 * (src * alpha + dst * (255 - alpha)) + 255) / 510

div255 : (w : ℕ) → w ≤ 65025 → (w + 128 + (w + 128) / 256) / 256 ≡ (2 * w + 255) / 510
div255 w h = omega arith

weighted_small :
    (src dst alpha : ℕ)
    → src < 256
    → dst < 256
    → alpha < 256
    → src * alpha + dst * (255 - alpha) ≤ 65025
weighted_small src dst alpha s d a =
    let x : src * alpha ≤ 255 * alpha = grind arith in
    let y : dst * (255 - alpha) ≤ 255 * (255 - alpha) = grind arith in omega arith

pub blend_channel_lem :
    (src dst alpha : ℕ)
    → src < 256
    → dst < 256
    → alpha < 256
    → blend_channel src dst alpha ≡ nearest_blend src dst alpha
unfolding blend_channel
blend_channel_lem src dst alpha s d a =
    let w = src * alpha + dst * (255 - alpha) in
    let small : w ≤ 65025 = weighted_small src dst alpha s d a in
    let exact = div255 w small in omega arith

packed :
    (r g b : ℕ)
    → r < 256
    → g < 256
    → b < 256
    → bit_or (bit_or (bit_or 0xFF000000 (r * 2 ^ 16)) (g * 2 ^ 8)) b
      ≡ 255 * 2 ^ 24 + r * 2 ^ 16 + g * 2 ^ 8 + b
packed r g b r' g' b' =
    let red : bit_or (255 * 2 ^ 24) (r * 2 ^ 16) ≡ (255 * 256 + r) * 2 ^ 16 =
      bit_or-field 24 255 (r * 2 ^ 16) (omega arith) ∙ omega arith in
    let green : bit_or ((255 * 256 + r) * 2 ^ 16) (g * 2 ^ 8)
        ≡ ((255 * 256 + r) * 256 + g) * 2 ^ 8 =
      bit_or-field 16 (255 * 256 + r) (g * 2 ^ 8) (omega arith) ∙ omega arith in
    ap (λ t. bit_or (bit_or t (g * 2 ^ 8)) b) red
    ∙ ap (λ t. bit_or t b) green
    ∙ bit_or-field 8 ((255 * 256 + r) * 256 + g) b b'
    ∙ omega arith

channel_small : (src dst alpha : ℕ) → blend_channel src dst alpha < 256
unfolding blend_channel
channel_small src dst alpha = omega arith

-- A blended colour has 255 in its top byte, and in each channel the number nearest to the weighted mean
-- of the two colours' channels, at any weight of eight bits.
pub blend_xrgb8888_lem :
    (src dst alpha : ℕ)
    → alpha < 256
    → blend_xrgb8888 src dst alpha
      ≡ 255 * 2 ^ 24
        + nearest_blend (src / 2 ^ 16 % 256) (dst / 2 ^ 16 % 256) alpha * 2 ^ 16
        + nearest_blend (src / 2 ^ 8 % 256) (dst / 2 ^ 8 % 256) alpha * 2 ^ 8
        + nearest_blend (src % 256) (dst % 256) alpha
unfolding blend_xrgb8888
blend_xrgb8888_lem src dst alpha a =
    let channel = λ (s d : ℕ) (s' : s < 256) (d' : d < 256). blend_channel_lem s d alpha s' d' a in
    packed (blend_channel (u8 (src / 2 ^ 16)) (u8 (dst / 2 ^ 16)) alpha)
      (blend_channel (u8 (src / 2 ^ 8)) (u8 (dst / 2 ^ 8)) alpha)
      (blend_channel (u8 src) (u8 dst) alpha)
      (channel_small (u8 (src / 2 ^ 16)) (u8 (dst / 2 ^ 16)) alpha)
      (channel_small (u8 (src / 2 ^ 8)) (u8 (dst / 2 ^ 8)) alpha)
      (channel_small (u8 src) (u8 dst) alpha)
    ∙ rw
        (
          channel (u8 (src / 2 ^ 16)) (u8 (dst / 2 ^ 16)) (omega arith) (omega arith),
          channel (u8 (src / 2 ^ 8)) (u8 (dst / 2 ^ 8)) (omega arith) (omega arith),
          channel (u8 src) (u8 dst) (omega arith) (omega arith),
        )
        refl
