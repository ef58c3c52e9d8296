-- ===== src/Console/Panel.antt =====
-- The two text panels and their register windows (hw_bringup/ps_uart_probe.h).
use zynq_cpu.Base.{ℕ, ◌+◌, ◌*◌, ◌/◌, ◌%◌, ◌≤◌, ◌<◌, ◌≡◌, arith}

-- The constants of one panel: cells across and down, and the PS addresses of its windows.
pub record Panel : Type 0 where
  pub cols : ℕ
  pub rows : ℕ
  pub base : ℕ
  pub text_base : ℕ
  pub attr_base : ℕ
  pub font_base : ℕ

abbrev pub cells : Panel → ℕ
cells p = p.cols * p.rows

abbrev pub dma_base : ℕ
dma_base = 0x43C20000

-- ZYNQ_CPU_DISPLAY_*
abbrev pub hdmi : Panel
hdmi = record {
  cols = 240;
  rows = 67;
  base = dma_base + 0x9000;
  text_base = dma_base + 0x9000 + 0x400;
  attr_base = dma_base + 0x9000 + 0x4400;
  font_base = dma_base + 0x9000 + 0x6400;
}

-- ZYNQ_CPU_DISPLAY2_*
abbrev pub lcd : Panel
lcd = record {
  cols = 60;
  rows = 17;
  base = dma_base + 0x10000;
  text_base = dma_base + 0x10000 + 0x400;
  attr_base = dma_base + 0x10000 + 0x800;
  font_base = dma_base + 0x10000 + 0xA00;
}

-- What the console code relies on: whole text words, windows that do not meet, and no index or
-- address that wraps.
pub record IsPanel (p : Panel) : Type 0 where
  pub has_cols : 0 < p.cols
  pub has_rows : 0 < p.rows
  pub narrow : p.cols < 65536
  pub low : p.rows < 65536
  pub whole_words : (p.cols * p.rows) % 4 ≡ 0
  pub few_cells : p.cols * p.rows < 0x1000000
  pub text_low : p.text_base < 0x80000000
  pub text_before_attr : p.text_base + p.cols * p.rows ≤ p.attr_base
  pub attr_before_font : p.attr_base + (p.cols * p.rows + 7) / 8 * 4 ≤ p.font_base
  pub font_fits : p.font_base < 0x80000000

pub hdmi-IsPanel : IsPanel hdmi
hdmi-IsPanel = omega arith

pub lcd-IsPanel : IsPanel lcd
lcd-IsPanel = omega arith
