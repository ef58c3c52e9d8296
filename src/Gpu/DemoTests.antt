-- ===== src/Gpu/DemoTests.antt =====
-- The GPU's demo on a GPU that draws nothing and counts (hw_bringup/userspace/gpu_demo/zx32_gpu_demo.c).
use zynq_cpu.Base.{ℕ, ◌+◌, ◌≡◌, ◌≢◌, ◌↔◌, refl, sub32, ◌==◌, if◌then◌else◌, some, arith}
use zynq_cpu.Mailbox.{poll_loop}
use zynq_cpu.Gpu.Registers.{gpu_control, gpu_status, gpu_cmd_submit, gpu_cmd_done}
use zynq_cpu.Gpu.Smoke.{Gpu, judge_gpu, write_registers}
use zynq_cpu.Gpu.Scene.{color_bg, color_edge, color_grid}
use zynq_cpu.Gpu.Demo.{
  render_scene, submit_all, submit_cmd, wait_fifo_space, look_at_fifo, pixel_char, pixel_priority,
  choose,
}
use zynq_cpu.Gpu.Counted.{Counts, render_scene_lem}

-- The state is the count, the status is always done, and the queue is never full.
abbrev read_count : ℕ → ℕ → ℕ × ℕ
read_count off d = (if off == gpu_cmd_done then d else if off == gpu_status then 2 else 0, d)

abbrev write_count : ℕ → ℕ → ℕ → ℕ
write_count off v d = if off == gpu_control then 0 else if off == gpu_cmd_submit then d + 1 else d

abbrev counter : Gpu ℕ
counter = record {
  mmio_read = read_count;
  mmio_write = write_count;
  pixels = λ d i. 0;
  put = λ i w d. d;
}

write_other : (off v d : ℕ) → off ≢ gpu_control → off ≢ gpu_cmd_submit → write_count off v d ≡ d
write_other off v d no_control no_submit = ground arith

counter-Counts : Counts counter 10 (λ d. d)
unfolding poll_loop judge_gpu
counter-Counts = record {
  reset = λ d. refl;
  submit = λ v d. refl;
  set = write_other;
  read = λ off d. refl;
  done = λ d e. refl;
}

-- The first scene since power-up, and the second: it prints 0.
first_scene : (render_scene counter 10 10 0).0 ≡ some 34
unfolding render_scene submit_all submit_cmd wait_fifo_space look_at_fifo write_registers poll_loop
    judge_gpu
first_scene = refl

second_scene : (render_scene counter 10 10 34).0 ≡ some 0
unfolding render_scene submit_all submit_cmd wait_fifo_space look_at_fifo write_registers poll_loop
    judge_gpu
second_scene = refl

render_scene_lem_example : (0 ≡ sub32 34 34) × ((◌≡◌ {A = ℕ} 0 34) ↔ (◌≡◌ {A = ℕ} 34 0))
render_scene_lem_example =
    render_scene_lem counter 10 10 (λ d. d) counter-Counts 34 0 second_scene (omega arith)

-- An edge is shown before the grid, and the background where there is nothing else.
edge_shown : pixel_char (choose (choose color_bg color_edge) color_grid) ≡ b'#'
unfolding pixel_char choose pixel_priority
edge_shown = refl
