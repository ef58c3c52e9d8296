-- ===== src/Console/Screen/Valid.antt =====
-- The invariant of a console: the cursor is on the panel, the attribute is a colour, the escape
-- parser holds at most four parameters, and the display shows what the shadow arrays hold.
use zynq_cpu.Base.{ℕ, ◌≤◌, ◌<◌, ◌≡◌, refl, if_both, arith}
use zynq_cpu.Console.Panel.{Panel, IsPanel}
use zynq_cpu.Console.Screen.{
  Console, repaint, clear_shadow, scroll, newline, put_cell, clear_cell_range, rewrite_row_words,
  insert_cells, delete_cells, erase_cells, set_cursor,
}
use zynq_cpu.Console.Screen.Shown.{Synced}
use zynq_cpu.Console.Screen.Sync.{
  newline-Synced, put_cell-Synced, clear_cell_range-Synced, insert_cells-Synced,
  delete_cells-Synced, erase_cells-Synced, clear_display-Synced,
}

pub record IsValid (p : Panel) (s : Console) : Type 0 where
  pub row_in : s.row < p.rows
  pub col_in : s.col < p.cols
  pub attr_in : s.text_attr < 16
  pub params_in : s.param_count ≤ 4
  pub shows : Synced p s

-- What the drawing operations do not touch.
abbrev pub position : Console → ℕ × ℕ × ℕ × ℕ
position s = (s.row, s.col, s.text_attr, s.param_count)

module _ {p : Panel} where
  pub IsValid-of :
      {s t : Console} → IsValid p s → position t ≡ position s → Synced p t → IsValid p t
  IsValid-of v e sync = record {
    row_in = ground (arith, v.row_in);
    col_in = ground (arith, v.col_in);
    attr_in = ground (arith, v.attr_in);
    params_in = ground (arith, v.params_in);
    shows = sync;
  }

module _ (p : Panel) (s : Console) where
  abbrev Same : Console → Type 0
  Same t = position t ≡ position s

  pub position-clear_cell_range : (start end : ℕ) → Same (clear_cell_range p start end s)
  unfolding clear_cell_range
  position-clear_cell_range start end = if_both Same _ refl refl

  pub position-erase_cells : (n : ℕ) → Same (erase_cells p n s)
  unfolding erase_cells
  position-erase_cells n = if_both Same _ refl (position-clear_cell_range _ _)

position-rewrite_row_words :
    (p : Panel) (s : Console) (row a b : ℕ) → position (rewrite_row_words p row a b s) ≡ position s
unfolding rewrite_row_words
position-rewrite_row_words p s row a b = if_both (λ t. position t ≡ position s) _ refl refl

module _ (p : Panel) (s : Console) (n : ℕ) where
  pub position-insert_cells : position (insert_cells p n s) ≡ position s
  unfolding insert_cells
  position-insert_cells =
      if_both (λ t. position t ≡ position s) _ refl
        (position-rewrite_row_words p _ s.row s.col p.cols)

  pub position-delete_cells : position (delete_cells p n s) ≡ position s
  unfolding delete_cells
  position-delete_cells =
      if_both (λ t. position t ≡ position s) _ refl
        (position-rewrite_row_words p _ s.row s.col p.cols)

-- The drawing operations keep the invariant.
module _ {p : Panel} (ok : IsPanel p) {s : Console} (v : IsValid p s) where
  pub clear_cell_range-IsValid : (start end : ℕ) → IsValid p (clear_cell_range p start end s)
  clear_cell_range-IsValid start end =
      IsValid-of v (position-clear_cell_range p s start end)
        (clear_cell_range-Synced ok s start end v.shows)

  pub erase_cells-IsValid : (n : ℕ) → IsValid p (erase_cells p n s)
  erase_cells-IsValid n =
      IsValid-of v (position-erase_cells p s n) (erase_cells-Synced ok s n v.shows)

  pub insert_cells-IsValid : (n : ℕ) → IsValid p (insert_cells p n s)
  insert_cells-IsValid n =
      IsValid-of v (position-insert_cells p s n)
        (insert_cells-Synced ok s n v.row_in v.col_in v.shows)

  pub delete_cells-IsValid : (n : ℕ) → IsValid p (delete_cells p n s)
  delete_cells-IsValid n =
      IsValid-of v (position-delete_cells p s n)
        (delete_cells-Synced ok s n v.row_in v.col_in v.shows)

  pub put_cell-IsValid :
      (row col ch : ℕ) → row < p.rows → col < p.cols → IsValid p (put_cell p row col ch s)
  unfolding put_cell
  put_cell-IsValid row col ch h k =
      IsValid-of v refl (unfold put_cell in put_cell-Synced ok s row col ch h k v.shows)

  pub set_cursor-IsValid : (row col : ℕ) → IsValid p (set_cursor p row col s)
  unfolding set_cursor
  set_cursor-IsValid row col = record {
    row_in = ground (arith, ok.has_rows);
    col_in = ground (arith, ok.has_cols);
    attr_in = v.attr_in;
    params_in = v.params_in;
    shows = v.shows;
  }

module _ {p : Panel} (ok : IsPanel p) where
  -- Clearing the display sets up the cursor and the attribute too.
  pub clear_display-IsValid :
      (s : Console) → s.param_count ≤ 4 → IsValid p (repaint p (clear_shadow p s))
  unfolding repaint clear_shadow
  clear_display-IsValid s h = record {
    row_in = ok.has_rows;
    col_in = ok.has_cols;
    attr_in = omega arith;
    params_in = h;
    shows = unfold repaint clear_shadow in clear_display-Synced ok s;
  }

  -- A new line needs the row to be on the panel, but not the column.
  pub newline-IsValid :
      (s : Console)
      → s.row < p.rows
      → s.text_attr < 16
      → s.param_count ≤ 4
      → Synced p s
      → IsValid p (newline p s)
  unfolding newline scroll repaint
  newline-IsValid s h a k sync = record {
    row_in = ground (arith, ok.low);
    col_in = ground (arith, ok.has_cols);
    attr_in = ground arith;
    params_in = ground arith;
    shows = unfold newline in newline-Synced ok s sync;
  }
