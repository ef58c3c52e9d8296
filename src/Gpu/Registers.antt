-- ===== src/Gpu/Registers.antt =====
-- The registers, the operations and the key colour of the GPU
-- (hw_bringup/userspace/gpu_smoke/zx32_gpu_smoke.c).
use zynq_cpu.Base.{ℕ}

abbrev pub gpu_control : ℕ
gpu_control = 0x00

abbrev pub gpu_status : ℕ
gpu_status = 0x04

abbrev pub gpu_fb_addr : ℕ
gpu_fb_addr = 0x08

abbrev pub gpu_fb_stride : ℕ
gpu_fb_stride = 0x0C

abbrev pub gpu_fb_size : ℕ
gpu_fb_size = 0x10

abbrev pub gpu_color : ℕ
gpu_color = 0x14

abbrev pub gpu_rect_origin : ℕ
gpu_rect_origin = 0x18

abbrev pub gpu_rect_size : ℕ
gpu_rect_size = 0x1C

abbrev pub gpu_cmd_submit : ℕ
gpu_cmd_submit = 0x34

abbrev pub gpu_cmd_done : ℕ
gpu_cmd_done = 0x38

abbrev pub gpu_src_addr : ℕ
gpu_src_addr = 0x4C

abbrev pub gpu_src_stride : ℕ
gpu_src_stride = 0x50

abbrev pub gpu_src_size : ℕ
gpu_src_size = 0x54

abbrev pub gpu_alpha_ctrl : ℕ
gpu_alpha_ctrl = 0x58

abbrev pub gpu_op_clear : ℕ
gpu_op_clear = 1

abbrev pub gpu_op_fill_rect : ℕ
gpu_op_fill_rect = 2

abbrev pub gpu_op_draw_line : ℕ
gpu_op_draw_line = 3

abbrev pub gpu_op_blit : ℕ
gpu_op_blit = 4

abbrev pub gpu_op_color_key_blit : ℕ
gpu_op_color_key_blit = 5

abbrev pub gpu_op_scale_blit : ℕ
gpu_op_scale_blit = 6

abbrev pub gpu_op_alpha_blit : ℕ
gpu_op_alpha_blit = 7

abbrev pub color_key : ℕ
color_key = 0x00FF00FF
