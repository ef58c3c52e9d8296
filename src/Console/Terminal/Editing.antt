-- ===== src/Console/Terminal/Editing.antt =====
-- Inserting, deleting and erasing cells (hw_bringup/ps_linux_boot.c), and the abstract terminal.
use zynq_cpu.Base.{
  ℕ, ◌+◌, ◌-◌, ◌*◌, ◌≤◌, ◌<◌, ◌≡◌, ltb, leb, lt→leb, if◌then◌else◌, arith, ap, ◌∙◌, ◌≢◌,
}
use Prim.Native.Nat.{min}
use zynq_cpu.Console.Panel.{Panel, IsPanel}
use zynq_cpu.Console.Grid.{Grid, blank_row, open_gap, close_gap}
use zynq_cpu.Console.Grid.Edits.{look, look-blank_row, look-open_gap, look-close_gap, row_end}
use zynq_cpu.Console.Screen.{
  Console, clear_cell_range, rewrite_row_words, clamp_count, insert_cells, delete_cells,
}
use zynq_cpu.Console.Screen.Sync.{clamp_count_bounds}
use zynq_cpu.Console.Screen.Valid.{
  position-insert_cells, position-delete_cells, position-clear_cell_range,
}
use zynq_cpu.Console.Terminal.{view, Same, insert, delete, erase, at_least_one}
use zynq_cpu.Console.Terminal.Refine.{rows_apart, clear_range_glyphs}

grid-rewrite_row_words :
    (p : Panel) (s : Console) (row a b c : ℕ)
    → look (rewrite_row_words p row a b s).grid c ≡ look s.grid c
unfolding rewrite_row_words
grid-rewrite_row_words p s row a b c = ground arith

clamp_count-min :
    (p : Panel) (col n : ℕ) → clamp_count p col n ≡ min (at_least_one n) (p.cols - col)
unfolding clamp_count
clamp_count-min p col n = ground arith

module _ {p : Panel} (ok : IsPanel p) (row col m at : ℕ) (g : Grid) (h : row < p.rows) (pos : 0 < m)
    (fits : col + m ≤ p.cols) where
  abbrev inserted : Grid
  inserted = blank_row p row col m at (open_gap p row col m g)

  abbrev deleted : Grid
  deleted = blank_row p row (p.cols - m) m at (close_gap p row col m g)

  inserted_here :
      (c : ℕ)
      → c < p.cols
      → look inserted (row * p.cols + c) ≡ (
          if leb col c
          then (if ltb c (col + m) then (32, at) else look g (row * p.cols + (c - m)))
          else look g (row * p.cols + c))
  inserted_here c hc = ground (
    arith,
    look-blank_row ok row col m at (open_gap p row col m g) (row * p.cols + c) h fits,
    look-open_gap ok row col m g (row * p.cols + c) h fits pos,
  )

  inserted_elsewhere :
      (r c : ℕ) → r ≢ row → c < p.cols → look inserted (r * p.cols + c) ≡ look g (r * p.cols + c)
  inserted_elsewhere r c ne hc = ground (
    arith,
    look-blank_row ok row col m at (open_gap p row col m g) (r * p.cols + c) h fits,
    look-open_gap ok row col m g (r * p.cols + c) h fits pos,
    rows_apart p.cols r row,
    rows_apart p.cols row r,
  )

  deleted_here :
      (c : ℕ)
      → c < p.cols
      → look deleted (row * p.cols + c) ≡ (
          if leb col c
          then (if ltb (c + m) p.cols then look g (row * p.cols + (c + m)) else (32, at))
          else look g (row * p.cols + c))
  deleted_here c hc = ground (
    arith,
    look-blank_row ok row (p.cols - m) m at (close_gap p row col m g) (row * p.cols + c) h
        (omega arith),
    look-close_gap ok row col m g (row * p.cols + c) h fits pos,
  )

  deleted_elsewhere :
      (r c : ℕ) → r ≢ row → c < p.cols → look deleted (r * p.cols + c) ≡ look g (r * p.cols + c)
  deleted_elsewhere r c ne hc = ground (
    arith,
    look-blank_row ok row (p.cols - m) m at (close_gap p row col m g) (r * p.cols + c) h
        (omega arith),
    look-close_gap ok row col m g (r * p.cols + c) h fits pos,
    rows_apart p.cols r row,
    rows_apart p.cols row r,
  )

module _ {p : Panel} (ok : IsPanel p) (s : Console) (n : ℕ) (h : s.row < p.rows)
    (k : s.col < p.cols) where
  abbrev clamped : ℕ
  clamped = clamp_count p s.col n

  insert_glyphs :
      (r c : ℕ)
      → r < p.rows
      → c < p.cols
      → (view p (insert_cells p n s)).glyph r c ≡ (insert p n (view p s)).glyph r c
  unfolding insert_cells
  insert_glyphs r c hr hc =
      let (pos, fits) = clamp_count_bounds ok s.col n k in
      rw (lt→leb p.rows s.row h, lt→leb p.cols s.col k)
        (grid-rewrite_row_words p _ s.row s.col p.cols (r * p.cols + c)
          ∙ ground (
            arith,
            clamp_count-min p s.col n,
            inserted_here ok s.row s.col clamped s.text_attr s.grid h pos fits c hc,
            inserted_elsewhere ok s.row s.col clamped s.text_attr s.grid h pos fits r c,
          ))

  -- Inserting is the terminal's, for every count.
  pub insert_cells_refines : Same p (view p (insert_cells p n s)) (insert p n (view p s))
  insert_cells_refines = record {
    row = ap (λ t. t.0) (position-insert_cells p s n);
    col = ap (λ t. t.1) (position-insert_cells p s n);
    pen = ap (λ t. t.2) (position-insert_cells p s n);
    glyphs = insert_glyphs;
  }

  delete_glyphs :
      (r c : ℕ)
      → r < p.rows
      → c < p.cols
      → (view p (delete_cells p n s)).glyph r c ≡ (delete p n (view p s)).glyph r c
  unfolding delete_cells
  delete_glyphs r c hr hc =
      let (pos, fits) = clamp_count_bounds ok s.col n k in
      rw (lt→leb p.rows s.row h, lt→leb p.cols s.col k)
        (grid-rewrite_row_words p _ s.row s.col p.cols (r * p.cols + c)
          ∙ ground (
            arith,
            clamp_count-min p s.col n,
            deleted_here ok s.row s.col clamped s.text_attr s.grid h pos fits c hc,
            deleted_elsewhere ok s.row s.col clamped s.text_attr s.grid h pos fits r c,
          ))

  -- Deleting is the terminal's, for every count.
  pub delete_cells_refines : Same p (view p (delete_cells p n s)) (delete p n (view p s))
  delete_cells_refines = record {
    row = ap (λ t. t.0) (position-delete_cells p s n);
    col = ap (λ t. t.1) (position-delete_cells p s n);
    pen = ap (λ t. t.2) (position-delete_cells p s n);
    glyphs = delete_glyphs;
  }

module _ {p : Panel} (ok : IsPanel p) (s : Console) (h : s.row < p.rows) where
  -- A cleared range of cells, in reading order, is erased.
  pub clear_refines :
      (start end row col end_row end_col : ℕ)
      → start ≡ row * p.cols + col
      → end ≡ end_row * p.cols + end_col
      → col ≤ p.cols
      → end_col ≤ p.cols
      → Same p (view p (clear_cell_range p start end s)) (erase row col end_row end_col (view p s))
  clear_refines start end row col end_row end_col a b k l = record {
    row = ap (λ t. t.0) (position-clear_cell_range p s start end);
    col = ap (λ t. t.1) (position-clear_cell_range p s start end);
    pen = ap (λ t. t.2) (position-clear_cell_range p s start end);
    glyphs = λ r c hr hc. ground (
      arith,
      clear_range_glyphs ok s start end (r * p.cols + c) (omega (arith, row_end ok r hr)),
      rows_apart p.cols r row,
      rows_apart p.cols row r,
      rows_apart p.cols r end_row,
      rows_apart p.cols end_row r,
    );
  }
