-- ===== src/Gpu/SmokeTests.antt =====
-- The program of the GPU's smoke test on a small GPU in software
-- (hw_bringup/userspace/gpu_smoke/zx32_gpu_smoke.c, `main`).
use zynq_cpu.Base.{
  ℕ, ◌+◌, ◌-◌, ◌*◌, ◌/◌, ◌%◌, ◌^◌, ◌≡◌, ◌↔◌, refl, Store, update, leb, ltb, ◌==◌, not, ◌&&◌,
  if◌then◌else◌, true,
}
use zynq_cpu.Mailbox.{poll_loop}
use zynq_cpu.Gpu.{
  each, is_line_pixel, expected_pixel, verify_row, verify_rows, verify_pixels, verify_blit_pixels,
  verify_color_key_pixels, verify_scale_pixels, verify_alpha_pixels, blend_channel, blend_xrgb8888,
}
use zynq_cpu.Gpu.Registers.{
  gpu_control, gpu_status, gpu_color, gpu_rect_origin, gpu_rect_size, gpu_cmd_submit, gpu_cmd_done,
  gpu_src_size, gpu_alpha_ctrl,
}
use zynq_cpu.Gpu.Smoke.{
  Gpu, judge_gpu, operations, put_all, write_registers, wait_done, run_operation, run_operations,
  smoke_main,
}
use zynq_cpu.Gpu.Pictures.{pictures}
use zynq_cpu.Gpu.Passes.{AllDrawn, queue_counts, smoke_main_lem}

abbrev low : ℕ → ℕ
low r = r % 2 ^ 16

abbrev high : ℕ → ℕ
high r = r / 2 ^ 16

-- A pixel after an operation with the registers `r` on the framebuffer `fb`, at (x, y).
abbrev drawn_pixel : ℕ → Store → Store → ℕ → ℕ → ℕ
drawn_pixel op r fb x y =
    let ox = low (r gpu_rect_origin) in
    let oy = high (r gpu_rect_origin) in
    let w = low (r gpu_rect_size) in
    let h = high (r gpu_rect_size) in
    let old = fb (y * 8 + x) in
    let inside = (leb ox x && ltb x (ox + w)) && (leb oy y && ltb y (oy + h)) in
    let source = fb (32 + (y - oy) * 8 + (x - ox)) in
    if op == 1
    then r gpu_color
    else if op == 3
    then if y + x / 2 == oy then r gpu_color else old
    else if not inside
    then old
    else if op == 2
    then r gpu_color
    else if op == 4
    then source
    else if op == 5
    then if source == r gpu_color then old else source
    else if op == 6
    then fb (32 + y * high (r gpu_src_size) / h * 8 + x * low (r gpu_src_size) / w)
    else blend_xrgb8888 source old (r gpu_alpha_ctrl)

abbrev draw_all : ℕ → Store → Store → Store
draw_all op r fb i = if ltb i 32 then drawn_pixel op r fb (i % 8) (i / 8) else fb i

abbrev write_register : ℕ → ℕ → Store × Store → Store × Store
write_register off v (r, fb) =
    if off == gpu_control && ltb v (2 ^ 31)
    then (update gpu_status 2 r, draw_all (v / 16) r fb)
    else if off == gpu_control
    then (update gpu_cmd_done 0 r, fb)
    else if off == gpu_cmd_submit
    then (update gpu_status 2 (update gpu_cmd_done (r gpu_cmd_done + 1) r), draw_all (v / 16) r fb)
    else (update off v r, fb)

abbrev software : Gpu (Store × Store)
software = record {
  mmio_read = λ off d. (d.0 off, d);
  mmio_write = write_register;
  pixels = λ d. d.1;
  put = λ i w d. (d.0, update i w d.1);
}

abbrev idle : Store × Store
idle = (λ off. 0, λ i. 0)

-- Each wait has its own number of polls.
abbrev clock : Store × Store → ℕ
clock d = 1000 + d.0 gpu_cmd_done

smoke_main_lem_example :
    (smoke_main software clock true true 0xBC000000 idle ≡ true)
    ↔ (true ≡ true)
      × (true ≡ true)
      × AllDrawn software clock (operations 0xBC000000) queue_counts pictures idle
smoke_main_lem_example = smoke_main_lem software clock true true 0xBC000000 idle

-- All eight operations pass on it.
software_passes : smoke_main software clock true true 0xBC000000 idle ≡ true
unfolding smoke_main run_operations run_operation put_all write_registers wait_done poll_loop
    judge_gpu each is_line_pixel expected_pixel verify_row verify_rows verify_pixels
    verify_blit_pixels verify_color_key_pixels verify_scale_pixels verify_alpha_pixels blend_channel
    blend_xrgb8888 update
software_passes = refl
