-- ===== src/Console/Screen.antt =====
-- The part of a console that draws (hw_bringup/ps_linux_boot.c, `hdmi_console_write_attr_word`
-- to `hdmi_console_set_cursor`, and their `lcd_` copies): the shadow arrays, the cursor and the
-- display's registers. The registers are the last word that `Xil_Out32` wrote to each address.
pub mod Packing
pub mod Shown
pub mod Valid
pub mod Sync
pub mod Edges
use zynq_cpu.Base.{
  ℕ, ◌+◌, ◌-◌, ◌*◌, ◌/◌, Store, update, u8, add32, mul32, shl32, for_range, bit_and, bit_or, ltb,
  leb, ◌==◌, if◌then◌else◌, Bool, ◌||◌,
}
use zynq_cpu.Console.Panel.{Panel, cells}
use zynq_cpu.Console.Grid.{Grid, put, blank, cell, scroll_grid, open_gap, close_gap, blank_row}

-- hdmi_esc_state_t
pub data EscState : Type 0 where
  esc_none esc_esc esc_csi : EscState

-- The static variables of one console.
pub record Console : Type 0 where
  pub grid : Grid
  pub row : ℕ
  pub col : ℕ
  pub text_attr : ℕ
  pub esc_state : EscState
  pub params : Store
  pub param_count : ℕ
  pub value : ℕ
  pub have_value : Bool
  pub regs : Store

-- The attribute word whose first cell is `c`.
unfoldable pub attr_word : Store → ℕ → ℕ
attr_word attr c =
    for_range 8 0 (λ i w. bit_or w (shl32 (bit_and (u8 (attr (c + i))) 0x0f) (i * 4))) 0

-- The text word whose first cell is `c`.
unfoldable pub text_word : Store → ℕ → ℕ
text_word text c = for_range 4 0 (λ i w. bit_or w (shl32 (u8 (text (c + i))) (i * 8))) 0

module _ (p : Panel) where
  unfoldable pub write_attr_word : Grid → ℕ → Store → Store
  write_attr_word g k = update (add32 p.attr_base (mul32 k 4)) (attr_word g.attr (mul32 k 8))

  unfoldable pub write_word : Grid → ℕ → Store → Store
  write_word g w regs =
      let c = mul32 w 4 in
      write_attr_word g (c / 8) (update (add32 p.text_base c) (text_word g.text c) regs)

  -- The words `start`, …, `start + n - 1`.
  unfoldable pub write_words : Grid → ℕ → ℕ → Store → Store
  write_words g n start = for_range n start (write_word g)

  unfoldable pub repaint : Console → Console
  repaint s = record s { regs = write_words s.grid (cells p / 4) 0 s.regs }

  unfoldable pub clear_shadow : Console → Console
  clear_shadow s = record s {
    grid = blank (cells p) 0 0x07 s.grid;
    row = 0;
    col = 0;
    text_attr = 0x07;
    esc_state = esc_none;
  }

  unfoldable pub scroll : Console → Console
  scroll s =
      repaint (record s { grid = scroll_grid p s.text_attr s.grid; row = p.rows - 1; col = 0 })

  unfoldable pub newline : Console → Console
  newline s =
      let s' = record s { row = add32 s.row 1; col = 0 } in
      if leb p.rows s'.row then scroll s' else s'

  unfoldable pub put_cell : ℕ → ℕ → ℕ → Console → Console
  put_cell row col ch s =
      let c = cell p row col in
      let g = put c ch s.text_attr s.grid in
      record s { grid = g; regs = write_word g (c / 4) s.regs }

  unfoldable pub clear_cell_range : ℕ → ℕ → Console → Console
  clear_cell_range start end s =
      let end' = if ltb (cells p) end then cells p else end in
      if leb (cells p) start || leb end' start
      then s
      else (let g = blank (end' - start) start s.text_attr s.grid in
          record s {
            grid = g;
            regs = write_words g ((end' - 1) / 4 + 1 - start / 4) (start / 4) s.regs;
          })

  unfoldable pub rewrite_row_words : ℕ → ℕ → ℕ → Console → Console
  rewrite_row_words row start_col end_col s =
      let end' = if ltb p.cols end_col then p.cols else end_col in
      let first = cell p row start_col / 4 in
      let last = cell p row (end' - 1) / 4 in
      if leb p.rows row || (leb p.cols start_col || leb end' start_col)
      then s
      else record s { regs = write_words s.grid (last + 1 - first) first s.regs }

  -- `count == 0` stands for 1, and no more than the rest of the row counts.
  unfoldable pub clamp_count : ℕ → ℕ → ℕ
  clamp_count col count =
      let n = if count == 0 then 1 else count in if ltb (p.cols - col) n then p.cols - col else n

  unfoldable pub insert_cells : ℕ → Console → Console
  insert_cells count s =
      let n = clamp_count s.col count in
      if leb p.rows s.row || leb p.cols s.col
      then s
      else rewrite_row_words s.row s.col p.cols (record s {
        grid = blank_row p s.row s.col n s.text_attr (open_gap p s.row s.col n s.grid);
      })

  unfoldable pub delete_cells : ℕ → Console → Console
  delete_cells count s =
      let n = clamp_count s.col count in
      if leb p.rows s.row || leb p.cols s.col
      then s
      else rewrite_row_words s.row s.col p.cols (record s {
        grid = blank_row p s.row (p.cols - n) n s.text_attr (close_gap p s.row s.col n s.grid);
      })

  -- `col + count` is a 32-bit sum.
  unfoldable pub erase_cells : ℕ → Console → Console
  erase_cells count s =
      let end = add32 s.col (if count == 0 then 1 else count) in
      let end' = if ltb p.cols end then p.cols else end in
      if leb p.rows s.row || leb p.cols s.col
      then s
      else clear_cell_range (cell p s.row s.col) (cell p s.row end') s

  unfoldable pub set_cursor : ℕ → ℕ → Console → Console
  set_cursor row col s = record s {
    row = if leb p.rows row then p.rows - 1 else row;
    col = if leb p.cols col then p.cols - 1 else col;
  }
