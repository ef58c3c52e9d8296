-- ===== src/Gpu/Smoke.antt =====
-- The program of the GPU's smoke test (hw_bringup/userspace/gpu_smoke/zx32_gpu_smoke.c, `main`): what it
-- draws, how it waits, and the checks in between. The registers and the framebuffer are those of any
-- machine; the clock is, for the machine as a wait begins, the number of polls that fit in the time. What
-- is read for messages is left out.
use zynq_cpu.Base.{
  ℕ, zero, suc, ◌+◌, ◌*◌, ◌^◌, Store, add32, bit_and, ◌==◌, not, ◌&&◌, if◌then◌else◌, Bool, true,
  false, List, [], ◌∷◌, ◌++◌, Option, none, some,
}
use zynq_cpu.Console.Writer.{char_at}
use zynq_cpu.Mailbox.{poll_loop}
use zynq_cpu.Gpu.Registers.{
  gpu_control, gpu_status, gpu_fb_addr, gpu_fb_stride, gpu_fb_size, gpu_color, gpu_rect_origin,
  gpu_rect_size, gpu_cmd_submit, gpu_cmd_done, gpu_src_addr, gpu_src_stride, gpu_src_size,
  gpu_alpha_ctrl, gpu_op_clear, gpu_op_fill_rect, gpu_op_draw_line, gpu_op_blit,
  gpu_op_color_key_blit, gpu_op_scale_blit, gpu_op_alpha_blit, color_key,
}
use zynq_cpu.Gpu.{
  fb_width, fb_height, clear_color, rect_color, line_color, key_dst_sentinel, alpha_dst_color,
  alpha_value, blit_src, alpha_src, each, verify_pixels, verify_blit_pixels,
  verify_color_key_pixels, verify_scale_pixels, verify_alpha_pixels,
}

pub record Gpu (D : Type 0) : Type 0 where
  pub mmio_read : ℕ → D → ℕ × D
  pub mmio_write : ℕ → ℕ → D → D
  pub pixels : D → Store
  pub put : ℕ → ℕ → D → D

-- Nothing more to come, an error, or the end of the operation.
unfoldable pub judge_gpu : ℕ → Option ℕ
judge_gpu status =
    if not (bit_and status 4 == 0)
    then some 1
    else if not (bit_and status 2 == 0) && bit_and status 1 == 0
    then some 0
    else none

-- The word that starts an operation.
abbrev pub command : ℕ → ℕ
command op = op * 2 ^ 4 + 1

-- The framebuffer cleared, and the four words of a source of 2 by 2 pixels behind it.
abbrev pub cleared_words : ℕ → ℕ → List (ℕ × ℕ)
cleared_words i zero = []
cleared_words i (suc n) = (i, 0) ∷ cleared_words (i + 1) n

abbrev pub source_words : List ℕ → List (ℕ × ℕ)
source_words src =
    (32, char_at src 0)
    ∷ (33, char_at src 1)
    ∷ (32 + fb_width, char_at src 2)
    ∷ (33 + fb_width, char_at src 3)
    ∷ []

-- A word to each of the four pixels from column `x` in the second row and the third.
abbrev pub square_words : ℕ → ℕ → List (ℕ × ℕ)
square_words x w =
    (x + fb_width, w)
    ∷ (x + 1 + fb_width, w)
    ∷ (x + 2 * fb_width, w)
    ∷ (x + 1 + 2 * fb_width, w)
    ∷ []

-- The reset of the GPU, and the framebuffer that it draws in.
abbrev pub set_framebuffer : ℕ → List (ℕ × ℕ)
set_framebuffer fb_base =
    (gpu_control, 2 ^ 31)
    ∷ (gpu_fb_addr, fb_base)
    ∷ (gpu_fb_stride, fb_width * 4)
    ∷ (gpu_fb_size, fb_height * 2 ^ 16 + fb_width)
    ∷ []

abbrev pub set_rect : ℕ → ℕ → ℕ → ℕ → List (ℕ × ℕ)
set_rect x y w h = (gpu_rect_origin, y * 2 ^ 16 + x) ∷ (gpu_rect_size, h * 2 ^ 16 + w) ∷ []

abbrev pub set_source : ℕ → List (ℕ × ℕ)
set_source fb_base = (gpu_src_addr, add32 fb_base 128) ∷ (gpu_src_stride, fb_width * 4) ∷ []

-- An operation of the test: the words that are put in the framebuffer, the registers that are written,
-- the writes that start it, and the check of the framebuffer after it.
pub record Operation : Type 0 where
  pub paint : List (ℕ × ℕ)
  pub registers : List (ℕ × ℕ)
  pub begin : List (ℕ × ℕ)
  pub done_count : Option ℕ
  pub accepts : Store → Bool

-- The status is cleared, and the operation started.
abbrev pub start_gpu : ℕ → List (ℕ × ℕ)
start_gpu op = (gpu_status, 6) ∷ (gpu_control, command op) ∷ []

abbrev pub draw_operation : List (ℕ × ℕ) → List (ℕ × ℕ) → ℕ → (Store → Bool) → Operation
draw_operation paint registers op accepts = record {
  paint = paint;
  registers = registers;
  begin = start_gpu op;
  done_count = none;
  accepts = accepts;
}

abbrev pub anything : Store → Bool
anything fb = true

abbrev pub all_clear : Store → Bool
all_clear fb = each (fb_width * fb_height) 0 (λ i. fb i == clear_color)

abbrev pub clear_step : ℕ → Operation
clear_step fb_base =
    draw_operation (cleared_words 0 32) (set_framebuffer fb_base ++ ((gpu_color, clear_color) ∷ []))
      gpu_op_clear all_clear

abbrev pub rect_step : Operation
rect_step = draw_operation [] ((gpu_color, rect_color) ∷ set_rect 2 1 3 2) gpu_op_fill_rect anything

abbrev pub line_step : Operation
line_step =
    draw_operation [] ((gpu_color, line_color) ∷ set_rect 0 3 7 0) gpu_op_draw_line verify_pixels

-- The three operations again, one after the other in the command queue.
abbrev pub batch_step : ℕ → Operation
batch_step fb_base = record {
  paint = cleared_words 0 32;
  registers = set_framebuffer fb_base;
  begin =
      ((gpu_color, clear_color)
        ∷ (gpu_cmd_submit, command gpu_op_clear)
        ∷ (gpu_color, rect_color)
        ∷ [])
      ++ (set_rect 2 1 3 2
          ++ ((gpu_cmd_submit, command gpu_op_fill_rect)
              ∷ (gpu_color, line_color)
              ∷ (set_rect 0 3 7 0 ++ ((gpu_cmd_submit, command gpu_op_draw_line) ∷ []))));
  done_count = some 3;
  accepts = verify_pixels;
}

abbrev pub blit_step : ℕ → Operation
blit_step fb_base =
    draw_operation (cleared_words 0 32 ++ source_words blit_src)
      (set_framebuffer fb_base ++ (set_rect 1 1 2 2 ++ set_source fb_base)) gpu_op_blit
      verify_blit_pixels

abbrev pub key_src : List ℕ
key_src = char_at blit_src 0 ∷ color_key ∷ char_at blit_src 2 ∷ char_at blit_src 3 ∷ []

abbrev pub color_key_step : ℕ → Operation
color_key_step fb_base =
    draw_operation (cleared_words 0 32 ++ (square_words 4 key_dst_sentinel ++ source_words key_src))
      (set_framebuffer fb_base
        ++ ((gpu_color, color_key) ∷ (set_rect 4 1 2 2 ++ set_source fb_base)))
      gpu_op_color_key_blit verify_color_key_pixels

abbrev pub scale_step : ℕ → Operation
scale_step fb_base =
    draw_operation (cleared_words 0 32 ++ source_words blit_src)
      (set_framebuffer fb_base
        ++ (set_rect 0 0 4 4 ++ (set_source fb_base ++ ((gpu_src_size, 2 * 2 ^ 16 + 2) ∷ []))))
      gpu_op_scale_blit verify_scale_pixels

abbrev pub alpha_step : ℕ → Operation
alpha_step fb_base =
    draw_operation
      (cleared_words 0 32 ++ (square_words 3 alpha_dst_color ++ source_words alpha_src))
      (set_framebuffer fb_base
        ++ (set_rect 3 1 2 2 ++ (set_source fb_base ++ ((gpu_alpha_ctrl, alpha_value) ∷ []))))
      gpu_op_alpha_blit verify_alpha_pixels

abbrev pub operations : ℕ → List Operation
operations fb_base =
    clear_step fb_base
    ∷ rect_step
    ∷ line_step
    ∷ batch_step fb_base
    ∷ blit_step fb_base
    ∷ color_key_step fb_base
    ∷ scale_step fb_base
    ∷ alpha_step fb_base
    ∷ []

module _ {D : Type 0} (gpu : Gpu D) where
  unfoldable pub put_all : List (ℕ × ℕ) → D → D
  put_all [] d = d
  put_all ((i, w) ∷ words) d = put_all words (gpu.put i w d)

  unfoldable pub write_registers : List (ℕ × ℕ) → D → D
  write_registers [] d = d
  write_registers ((off, v) ∷ writes) d = write_registers writes (gpu.mmio_write off v d)

module _ {D : Type 0} (gpu : Gpu D) (polls : D → ℕ) where
  -- The negated result code, the last status, and the machine. There is one poll at least.
  unfoldable pub wait_done : D → ℕ × ℕ × D
  wait_done d = poll_loop gpu.mmio_read gpu_status judge_gpu (suc (polls d)) 0 d

  -- What is left to see once the operations are done.
  abbrev pub counted : Option ℕ → D → Bool × D
  counted none d = (true, d)
  counted (some count) d = let r = gpu.mmio_read gpu_cmd_done d in (r.0 == count, r.1)

  abbrev pub after_wait : Operation → ℕ × ℕ × D → Bool × D
  after_wait o (code, status, d) =
      let c = counted o.done_count d in
      if code == 0 then (c.0 && o.accepts (gpu.pixels c.1), c.1) else (false, d)

  unfoldable pub run_operation : Operation → D → Bool × D
  run_operation o d = after_wait o (
      wait_done
        (write_registers gpu o.begin (write_registers gpu o.registers (put_all gpu o.paint d))))

  -- The first operation that fails ends the test.
  unfoldable pub run_operations : List Operation → D → Bool
  run_operations [] d = true
  run_operations (o ∷ later) d =
      let r = run_operation o d in let rest = run_operations later r.1 in r.0 && rest

  -- Whether the program returns 0: /dev/mem opens, both maps succeed, and every operation passes.
  unfoldable pub smoke_main : Bool → Bool → ℕ → D → Bool
  smoke_main opened mapped fb_base d = opened && (mapped && run_operations (operations fb_base) d)
