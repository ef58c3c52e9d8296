-- ===== src/Gpu/Scene.antt =====
-- The scene of the GPU's demo (hw_bringup/userspace/gpu_demo/zx32_gpu_demo.c, `render_scene`).
use zynq_cpu.Base.{ℕ, zero, suc, ◌+◌, ◌-◌, ◌/◌, List, [], ◌∷◌, ◌++◌}
use zynq_cpu.Gpu.Registers.{gpu_op_clear, gpu_op_fill_rect, gpu_op_draw_line}

abbrev pub demo_width : ℕ
demo_width = 128

abbrev pub demo_height : ℕ
demo_height = 64

abbrev pub color_bg : ℕ
color_bg = 0x00101820

abbrev pub color_grid : ℕ
color_grid = 0x00304850

abbrev pub color_axis : ℕ
color_axis = 0x0080A0B0

abbrev pub color_face : ℕ
color_face = 0x00203080

abbrev pub color_edge : ℕ
color_edge = 0x00F0D070

abbrev pub color_hilite : ℕ
color_hilite = 0x00FF6060

pub record Command : Type 0 where
  pub op : ℕ
  pub color : ℕ
  pub x0 : ℕ
  pub y0 : ℕ
  pub x1 : ℕ
  pub y1 : ℕ

abbrev pub draw_line : ℕ → ℕ → ℕ → ℕ → ℕ → Command
draw_line color x0 y0 x1 y1 = record {
  op = gpu_op_draw_line;
  color = color;
  x0 = x0;
  y0 = y0;
  x1 = x1;
  y1 = y1;
}

abbrev pub fill_rect : ℕ → ℕ → ℕ → ℕ → ℕ → Command
fill_rect color x y w h = record {
  op = gpu_op_fill_rect;
  color = color;
  x0 = x;
  y0 = y;
  x1 = w;
  y1 = h;
}

-- The lines of the grid, from the one at `x` or `y` on, `n` of them.
abbrev pub grid_columns : ℕ → ℕ → List Command
grid_columns x zero = []
grid_columns x (suc n) = draw_line color_grid x 0 x (demo_height - 1) ∷ grid_columns (x + 16) n

abbrev pub grid_rows : ℕ → ℕ → List Command
grid_rows y zero = []
grid_rows y (suc n) = draw_line color_grid 0 y (demo_width - 1) y ∷ grid_rows (y + 8) n

abbrev pub edges : List Command
edges =
    draw_line color_edge 34 16 78 10
    ∷ draw_line color_edge 78 10 100 29
    ∷ draw_line color_edge 100 29 56 35
    ∷ draw_line color_edge 56 35 34 16
    ∷ draw_line color_edge 46 40 90 34
    ∷ draw_line color_edge 90 34 108 50
    ∷ draw_line color_edge 108 50 64 57
    ∷ draw_line color_edge 64 57 46 40
    ∷ draw_line color_edge 34 16 46 40
    ∷ draw_line color_edge 78 10 90 34
    ∷ draw_line color_edge 100 29 108 50
    ∷ draw_line color_edge 56 35 64 57
    ∷ []

abbrev pub scene : List Command
scene =
    record { op = gpu_op_clear; color = color_bg; x0 = 0; y0 = 0; x1 = 0; y1 = 0 }
    ∷ (grid_columns 0 8
        ++ (grid_rows 0 8
            ++ (draw_line color_axis 0 (demo_height / 2) (demo_width - 1) (demo_height / 2)
                ∷ draw_line color_axis (demo_width / 2) 0 (demo_width / 2) (demo_height - 1)
                ∷ fill_rect color_face 45 22 36 20
                ∷ (edges
                    ++ (draw_line color_hilite 16 56 116 8
                        ∷ draw_line color_hilite 14 8 112 58
                        ∷ [])))))
