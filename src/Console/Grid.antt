-- ===== src/Console/Grid.antt =====
-- The shadow arrays of one panel (hw_bringup/ps_linux_boot.c, `hdmi_text_shadow` and
-- `hdmi_attr_shadow`, and their `lcd_` copies), and the loops that edit them.
-- An array is the memory from its first element on; an index at or past the panel's cells is
-- outside the array.
pub mod Edits
use zynq_cpu.Base.{ℕ, ◌+◌, ◌-◌, Store, update, add32, mul32, sub32, for_range, for_down}
use zynq_cpu.Console.Panel.{Panel}

pub record Grid : Type 0 where
  pub text : Store
  pub attr : Store

-- text[c] = ch; attr[c] = at
unfoldable pub put : ℕ → ℕ → ℕ → Grid → Grid
put c ch at g = record { text = update c ch g.text; attr = update c at g.attr }

-- text[dst] = text[src]; attr[dst] = attr[src]
unfoldable pub move : ℕ → ℕ → Grid → Grid
move dst src g = record {
  text = update dst (g.text src) g.text;
  attr = update dst (g.attr src) g.attr;
}

-- `n` blanks of attribute `at` from cell `start` on.
unfoldable pub blank : ℕ → ℕ → ℕ → Grid → Grid
blank n start at = for_range n start (λ c. put c 32 at)

module _ (p : Panel) where
  unfoldable pub cell : ℕ → ℕ → ℕ
  cell row col = add32 (mul32 row p.cols) col

  -- Blanks at the columns `start`, …, `start + n - 1` of a row.
  unfoldable pub blank_row : ℕ → ℕ → ℕ → ℕ → Grid → Grid
  blank_row row start n at = for_range n start (λ col. put (cell row col) 32 at)

  unfoldable pub move_row : ℕ → Grid → Grid
  move_row row = for_range p.cols 0 (λ col. move (cell (sub32 row 1) col) (cell row col))

  -- Every row but the first moves up, and the last row is blanked.
  unfoldable pub scroll_grid : ℕ → Grid → Grid
  scroll_grid at g = blank_row (p.rows - 1) 0 p.cols at (for_range (p.rows - 1) 1 move_row g)

  -- for (dst = cols - 1; dst >= col + count; dst--); `count` is at least 1, so `dst` stays
  -- above 0 and the loop has `cols - (col + count)` rounds.
  unfoldable pub open_gap : ℕ → ℕ → ℕ → Grid → Grid
  open_gap row col count =
      for_down (p.cols - (col + count)) (col + count)
        (λ dst. move (cell row dst) (cell row (dst - count)))

  -- for (dst = col; dst + count < cols; dst++)
  unfoldable pub close_gap : ℕ → ℕ → ℕ → Grid → Grid
  close_gap row col count =
      for_range (p.cols - (col + count)) col (λ dst. move (cell row dst) (cell row (dst + count)))
