-- ===== src/Gpu/Pictures.antt =====
-- What the operations of the GPU's smoke test should draw, and that its checks find it
-- (hw_bringup/userspace/gpu_smoke/zx32_gpu_smoke.c).
use zynq_cpu.Base.{
  both, ℕ, zero, suc, ◌+◌, ◌*◌, ◌/◌, ◌≤◌, ◌<◌, ◌≡◌, ◌↔◌, refl, sym, ◌∙◌, Store, ◌==◌, ◌&&◌,
  if◌then◌else◌, Bool, true, false, List, [], ◌∷◌, arith,
}
use native.Mathlib.Decide.{ℕ_discrete}
use zynq_cpu.Console.Writer.{char_at}
use zynq_cpu.Gpu.{
  clear_color, key_dst_sentinel, blit_src, each, verify_pixels, verify_blit_pixels,
  verify_color_key_pixels, verify_scale_pixels, verify_alpha_pixels,
}
use zynq_cpu.Gpu.Registers.{color_key}
use zynq_cpu.Gpu.Smoke.{Operation, all_clear, key_src, operations}
use zynq_cpu.Gpu.Verify.{picture, blended, verify_pixels_lem}

-- What an operation should leave in the framebuffer.
pub data Picture : Type 0 where
  cleared : Picture
  unseen : Picture
  line_over_rect : Picture
  copied : Picture
  keyed : Picture
  scaled : Picture
  mixed : Picture

abbrev pub Shows : Picture → Store → Type 0
Shows cleared fb = (i : ℕ) → i < 32 → fb i ≡ clear_color
Shows unseen fb = Unit {0}
Shows line_over_rect fb = (y x : ℕ) → y < 4 → x < 8 → fb (y * 8 + x) ≡ picture x y
Shows copied fb =
    (y x : ℕ) → y < 2 → x < 2 → fb (1 + x + (1 + y) * 8) ≡ char_at blit_src (y * 2 + x)
Shows keyed fb =
    (y x : ℕ)
    → y < 2
    → x < 2
    → fb (4 + x + (1 + y) * 8) ≡ (
        if char_at key_src (y * 2 + x) == color_key
        then key_dst_sentinel
        else char_at key_src (y * 2 + x))
Shows scaled fb = (y x : ℕ) → y < 4 → x < 4 → fb (y * 8 + x) ≡ char_at blit_src (y / 2 * 2 + x / 2)
Shows mixed fb = (y x : ℕ) → y < 2 → x < 2 → fb (3 + x + (1 + y) * 8) ≡ blended x y

-- A test at each place of a range.
each_lem :
    (n x : ℕ) (test : ℕ → Bool)
    → (each n x test ≡ true) ↔ ((k : ℕ) → x ≤ k → k < x + n → test k ≡ true)
unfolding each
each_lem zero x test = (λ e k le lt. absurd (omega arith), λ h. refl)
each_lem (suc n) x test =
    let b = both (test x) (each n (x + 1) test) in
    let later = each_lem n (x + 1) test in
    (
      λ e k le lt. elim (ℕ_discrete k x) [
        | yes here ↦ rw here (b.0 e).0
        | no other ↦ later.0 (b.0 e).1 k (omega arith) (omega arith)
      ],
      λ h.
          b.1
            (h x (omega arith) (omega arith), later.1 (λ k le lt. h k (omega arith) (omega arith))),
    )

-- A grid of places.
grid_lem :
    (rows columns : ℕ) (at : ℕ → ℕ → ℕ) (wanted : ℕ → ℕ → ℕ) (fb : Store)
    → (each rows 0 (λ y. each columns 0 (λ x. fb (at y x) == wanted y x)) ≡ true)
      ↔ ((y x : ℕ) → y < rows → x < columns → fb (at y x) ≡ wanted y x)
grid_lem rows columns at wanted fb =
    let row = λ (y : ℕ). each_lem columns 0 (λ x. fb (at y x) == wanted y x) in
    let all = each_lem rows 0 (λ y. each columns 0 (λ x. fb (at y x) == wanted y x)) in
    (
      λ e y x y' x'.
          let cell =
            (row y).0 (all.0 e y (omega arith) (omega arith)) x (omega arith) (omega arith) in
          ground (arith, cell),
      λ h. all.1 (λ y le lt.
          (row y).1
            (λ x le' lt'. let cell = h y x (omega arith) (omega arith) in ground (arith, cell))),
    )

-- Four tests in two pairs, and in a grid of two rows and two columns.
two_by_two :
    (a b c d : Bool) → ((a && b) && (c && d)) ≡ ((a && (b && true)) && ((c && (d && true)) && true))
two_by_two false b c d = refl
two_by_two true false c d = refl
two_by_two true true false d = refl
two_by_two true true true false = refl
two_by_two true true true true = refl

-- An answer that is the same as another's.
same_answer {ℓ} : {A : Type ℓ} → (x y : Bool) → x ≡ y → (y ≡ true) ↔ A → (x ≡ true) ↔ A
same_answer x y e iff = (λ t. iff.0 (sym e ∙ t), λ a. e ∙ iff.1 a)

-- The check of an operation finds its picture.
abbrev pub Finds : Operation → Picture → Type 0
Finds o p = (fb : Store) → (o.accepts fb ≡ true) ↔ Shows p fb

all_clear-cleared : (fb : Store) → (all_clear fb ≡ true) ↔ Shows cleared fb
all_clear-cleared fb =
    let all = each_lem 32 0 (λ i. fb i == clear_color) in
    (
      λ e i lt. let cell = all.0 e i (omega arith) (omega arith) in ground (arith, cell),
      λ h. all.1 (λ i le lt. let cell = h i (omega arith) in ground (arith, cell)),
    )

verify_pixels-line : (fb : Store) → (verify_pixels fb ≡ true) ↔ Shows line_over_rect fb
verify_pixels-line fb =
    same_answer (verify_pixels fb) (each 4 0 (λ y. each 8 0 (λ x. fb (y * 8 + x) == picture x y)))
      (verify_pixels_lem fb).0 (grid_lem 4 8 (λ y x. y * 8 + x) (λ y x. picture x y) fb)

verify_blit_pixels-copied : (fb : Store) → (verify_blit_pixels fb ≡ true) ↔ Shows copied fb
unfolding verify_blit_pixels each
verify_blit_pixels-copied fb =
    same_answer (verify_blit_pixels fb)
      (each 2 0 (λ y. each 2 0 (λ x. fb (1 + x + (1 + y) * 8) == char_at blit_src (y * 2 + x))))
      (two_by_two (fb 9 == char_at blit_src 0) (fb 10 == char_at blit_src 1)
        (fb 17 == char_at blit_src 2) (fb 18 == char_at blit_src 3))
      (grid_lem 2 2 (λ y x. 1 + x + (1 + y) * 8) (λ y x. char_at blit_src (y * 2 + x)) fb)

-- The pixel of the colour-key blit at a place of the source.
abbrev key_pixel : ℕ → ℕ → ℕ
key_pixel y x =
    if char_at key_src (y * 2 + x) == color_key
    then key_dst_sentinel
    else char_at key_src (y * 2 + x)

verify_color_key_pixels-keyed : (fb : Store) → (verify_color_key_pixels fb ≡ true) ↔ Shows keyed fb
unfolding verify_color_key_pixels each
verify_color_key_pixels-keyed fb =
    same_answer (verify_color_key_pixels fb)
      (each 2 0 (λ y. each 2 0 (λ x. fb (4 + x + (1 + y) * 8) == key_pixel y x)))
      (two_by_two (fb 12 == char_at blit_src 0) (fb 13 == key_dst_sentinel)
        (fb 20 == char_at blit_src 2) (fb 21 == char_at blit_src 3))
      (grid_lem 2 2 (λ y x. 4 + x + (1 + y) * 8) key_pixel fb)

verify_scale_pixels-scaled : (fb : Store) → (verify_scale_pixels fb ≡ true) ↔ Shows scaled fb
verify_scale_pixels-scaled fb =
    same_answer (verify_scale_pixels fb)
      (each 4 0 (λ y. each 4 0 (λ x. fb (y * 8 + x) == char_at blit_src (y / 2 * 2 + x / 2))))
      (verify_pixels_lem fb).1
      (grid_lem 4 4 (λ y x. y * 8 + x) (λ y x. char_at blit_src (y / 2 * 2 + x / 2)) fb)

verify_alpha_pixels-mixed : (fb : Store) → (verify_alpha_pixels fb ≡ true) ↔ Shows mixed fb
verify_alpha_pixels-mixed fb =
    same_answer (verify_alpha_pixels fb)
      (each 2 0 (λ y. each 2 0 (λ x. fb (3 + x + (1 + y) * 8) == blended x y)))
      (verify_pixels_lem fb).2 (grid_lem 2 2 (λ y x. 3 + x + (1 + y) * 8) (λ y x. blended x y) fb)

abbrev pub AllFind : List Operation → List Picture → Type 0
AllFind [] [] = Unit {0}
AllFind (o ∷ os) (p ∷ ps) = Finds o p × AllFind os ps
AllFind _ _ = ⊥

-- The pictures of the program's operations, in order.
abbrev pub pictures : List Picture
pictures = cleared ∷ unseen ∷ line_over_rect ∷ line_over_rect ∷ copied ∷ keyed ∷ scaled ∷ mixed ∷ []

pub operations-AllFind : (fb_base : ℕ) → AllFind (operations fb_base) pictures
operations-AllFind fb_base = (
  all_clear-cleared,
  (
    λ fb. (λ e. tt, λ h. refl),
    (
      verify_pixels-line,
      (
        verify_pixels-line,
        (
          verify_blit_pixels-copied,
          (
            verify_color_key_pixels-keyed,
            (verify_scale_pixels-scaled, (verify_alpha_pixels-mixed, tt)),
          ),
        ),
      ),
    ),
  ),
)
