-- ===== src/Console/Terminal/Refine.antt =====
-- Cells and new lines (hw_bringup/ps_linux_boot.c) as the abstract terminal has them.
use zynq_cpu.Base.{
  ℕ, ◌+◌, ◌-◌, ◌*◌, ◌≤◌, ◌<◌, ◌≡◌, ltb, leb, lt→leb, le→leb, ◌==◌, if◌then◌else◌, ◌&&◌, arith,
  add32,
}
use native.Mathlib.Decide.{dec_le}
use zynq_cpu.Console.Panel.{Panel, cells, IsPanel}
use zynq_cpu.Console.Grid.{cell}
use zynq_cpu.Console.Grid.Edits.{look, look-put, look-blank, look-scroll_grid, cell_exact, row_end}
use zynq_cpu.Console.Screen.{Console, repaint, scroll, newline, put_cell, clear_cell_range}
use zynq_cpu.Console.Terminal.{view, Same, next_row}

-- Rows do not overlap: an earlier row ends before a later one starts.
pub rows_apart : (cols r q : ℕ) → r < q → r * cols + cols ≤ q * cols
rows_apart cols r q h = grind arith

module _ {p : Panel} (ok : IsPanel p) where
  newline_scroll :
      (s : Console)
      → s.row < p.rows
      → p.rows ≤ s.row + 1
      → Same p (view p (newline p s)) (next_row p (view p s))
  unfolding newline scroll repaint
  newline_scroll s h last = rw (le→leb p.rows (add32 s.row 1) (omega (arith, ok.low))) (record {
    row = ground arith;
    col = ground arith;
    pen = ground arith;
    glyphs = λ r c hr hc. ground (
      arith,
      look-scroll_grid ok s.text_attr s.grid (r * p.cols + c) (omega (arith, row_end ok r hr)),
      rows_apart p.cols r (p.rows - 1),
      row_end ok r hr,
      ok.has_rows,
    );
  })

  -- A new line is the terminal's: one row down, or everything one row up.
  pub newline_refines :
      (s : Console) → s.row < p.rows → Same p (view p (newline p s)) (next_row p (view p s))
  newline_refines s h = elim (dec_le p.rows (s.row + 1)) [
    | yes last ↦ newline_scroll s h last
    | no more ↦
        unfold newline in
        rw (lt→leb p.rows (add32 s.row 1) (omega (arith, ok.low))) (record {
          row = ground (arith, ok.low);
          col = ground arith;
          pen = ground arith;
          glyphs = λ r c hr hc. ground arith;
        })
  ]

  pub put_cell_glyphs :
      (s : Console) (ch : ℕ)
      → s.row < p.rows
      → s.col < p.cols
      → (r c : ℕ) → r < p.rows
      → c < p.cols
      → look (put_cell p s.row s.col ch s).grid (r * p.cols + c)
        ≡ (if (r == s.row) && (c == s.col) then (ch, s.text_attr) else look s.grid (r * p.cols + c))
  unfolding put_cell
  put_cell_glyphs s ch h k r c hr hc = ground (
    arith,
    cell_exact ok s.row s.col h (omega arith),
    look-put (cell p s.row s.col) ch s.text_attr s.grid (r * p.cols + c),
    rows_apart p.cols r s.row,
    rows_apart p.cols s.row r,
  )

  pub clear_range_glyphs :
      (s : Console) (start end c : ℕ)
      → c < cells p
      → look (clear_cell_range p start end s).grid c
        ≡ (if leb start c && ltb c end then (32, s.text_attr) else look s.grid c)
  unfolding clear_cell_range
  clear_range_glyphs s start end c h = ground (
    arith,
    look-blank ((if ltb (cells p) end then cells p else end) - start) start s.text_attr s.grid c,
  )
