-- ===== src/Console/Screen/Sync.antt =====
-- The drawing operations (hw_bringup/ps_linux_boot.c), and the display beside the shadow arrays.
use zynq_cpu.Base.{
  ℕ, ◌+◌, ◌-◌, ◌*◌, ◌/◌, ◌≤◌, ◌<◌, ◌≡◌, ◌⊎◌, inl, inr, ap, ltb, leb, le→ltb, lt→leb, if◌then◌else◌,
  ◌||◌, Bool-cases, arith, add32, for_range,
}
use native.Mathlib.Decide.{ℕ_discrete, dec_lt}
use zynq_cpu.Console.Panel.{Panel, cells, IsPanel}
use zynq_cpu.Console.Grid.{Grid, put, blank, cell, blank_row, scroll_grid, open_gap, close_gap}
use zynq_cpu.Console.Grid.Edits.{
  look, look-put, look-blank, look-blank_row, look-open_gap, look-close_gap, cell_exact, cell-lt,
  row_end,
}
use zynq_cpu.Console.Screen.{
  Console, write_words, repaint, clear_shadow, scroll, newline, put_cell, clear_cell_range,
  rewrite_row_words, clamp_count, insert_cells, delete_cells, erase_cells,
}
use zynq_cpu.Console.Screen.Shown.{Synced, Shows-same, Shows-write_words}

module _ {p : Panel} (ok : IsPanel p) where
  -- After a repaint the display shows the arrays, whatever it showed before.
  pub repaint-Synced : (s : Console) → Synced p (repaint p s)
  unfolding repaint
  repaint-Synced s c h =
      Shows-write_words ok s.grid (cells p / 4) 0 s.regs c (omega arith) h
        (inl (omega arith, omega (arith, ok.whole_words)))

  pub scroll-Synced : (s : Console) → Synced p (scroll p s)
  unfolding scroll
  scroll-Synced s =
      repaint-Synced
        (record s { grid = scroll_grid p s.text_attr s.grid; row = p.rows - 1; col = 0 })

  pub newline-Synced : (s : Console) → Synced p s → Synced p (newline p s)
  unfolding newline
  newline-Synced s sync = elim (Bool-cases (leb p.rows (add32 s.row 1))) [
    | inl e ↦ rw e (scroll-Synced (record s { row = add32 s.row 1; col = 0 }))
    | inr e ↦ rw e sync
  ]

  -- An edit of the arrays followed by a write of the words that it touched.
  edit-Synced :
      (s : Console) (g : Grid) (n first : ℕ)
      → (first + n) * 4 ≤ cells p
      → ((c : ℕ)
          → c < cells p
          → ((first ≤ c / 4) × (c / 4 < first + n)) ⊎ (look g c ≡ look s.grid c))
      → Synced p s
      → Synced p (record s { grid = g; regs = write_words p g n first s.regs })
  edit-Synced s g n first h covers sync c hc = elim (covers c hc) [
    | inl r ↦ Shows-write_words ok g n first s.regs c h hc (inl r)
    | inr e ↦
        Shows-write_words ok g n first s.regs c h hc
          (inr (Shows-same (ap (λ t. t.0) e) (ap (λ t. t.1) e) (sync c hc)))
  ]

  pub put_cell-Synced :
      (s : Console) (row col ch : ℕ)
      → row < p.rows
      → col < p.cols
      → Synced p s
      → Synced p (put_cell p row col ch s)
  unfolding put_cell write_words for_range
  put_cell-Synced s row col ch h k =
      let d = cell p row col in
      edit-Synced s (put d ch s.text_attr s.grid) 1 (d / 4)
        (omega (arith, cell-lt ok row col h k, ok.whole_words))
        λ c hc. elim (ℕ_discrete c d) [
          | yes e ↦ inl (rw e (omega arith), rw e (omega arith))
          | no ne ↦ inr (ground (arith, look-put d ch s.text_attr s.grid c))
        ]

  pub clear_cell_range-Synced :
      (s : Console) (start end : ℕ) → Synced p s → Synced p (clear_cell_range p start end s)
  unfolding clear_cell_range
  clear_cell_range-Synced s start end sync =
      let end' = if ltb (cells p) end then cells p else end in
      let bound : end' ≤ cells p = ground arith in
      elim (Bool-cases (leb (cells p) start || leb end' start)) [
        | inl e ↦ rw e sync
        | inr e ↦ rw e (
            let lt : start < end' = ground arith in
            edit-Synced s (blank (end' - start) start s.text_attr s.grid)
              ((end' - 1) / 4 + 1 - start / 4) (start / 4) (omega (arith, ok.whole_words))
              (λ c hc. elim (dec_lt c start) [
                | yes b ↦ inr (ground (arith, look-blank (end' - start) start s.text_attr s.grid c))
                | no nb ↦ elim (dec_lt c end') [
                  | yes d ↦ inl (omega arith, omega arith)
                  | no nd ↦
                      inr (ground (arith, look-blank (end' - start) start s.text_attr s.grid c))
                ]
              ])
              sync)
      ]

  -- A change of one row from column `col` on, followed by its rewrite.
  row_edit-Synced :
      (s : Console) (g : Grid)
      → s.row < p.rows
      → s.col < p.cols
      → ((c : ℕ)
          → (c < s.row * p.cols + s.col) ⊎ (s.row * p.cols + p.cols ≤ c)
          → look g c ≡ look s.grid c)
      → Synced p s
      → Synced p (rewrite_row_words p s.row s.col p.cols (record s { grid = g }))
  unfolding rewrite_row_words
  row_edit-Synced s g h k outside sync =
      let a = cell_exact ok s.row s.col h (omega arith) in
      let b = cell_exact ok s.row (p.cols - 1) h (omega arith) in
      let top = row_end ok s.row h in
      rw (le→ltb p.cols p.cols (omega arith), lt→leb p.rows s.row h, lt→leb p.cols s.col k)
        (edit-Synced s g (cell p s.row (p.cols - 1) / 4 + 1 - cell p s.row s.col / 4)
          (cell p s.row s.col / 4) (omega (arith, a, b, top, ok.whole_words))
          (λ c hc. elim (dec_lt c (s.row * p.cols + s.col)) [
            | yes l ↦ inr (outside c (inl l))
            | no nl ↦ elim (dec_lt c (s.row * p.cols + p.cols)) [
              | yes m ↦ inl (omega (arith, a), omega (arith, a, b))
              | no nm ↦ inr (outside c (inr (omega arith)))
            ]
          ])
          sync)

  pub clamp_count_bounds :
      (col count : ℕ)
      → col < p.cols
      → (0 < clamp_count p col count) × (col + clamp_count p col count ≤ p.cols)
  unfolding clamp_count
  clamp_count_bounds col count h = ground arith

  pub insert_cells-Synced :
      (s : Console) (count : ℕ)
      → s.row < p.rows
      → s.col < p.cols
      → Synced p s
      → Synced p (insert_cells p count s)
  unfolding insert_cells
  insert_cells-Synced s count h k =
      let n = clamp_count p s.col count in
      let (pos, fits) = clamp_count_bounds s.col count k in
      rw (lt→leb p.rows s.row h, lt→leb p.cols s.col k)
        (row_edit-Synced s (blank_row p s.row s.col n s.text_attr (open_gap p s.row s.col n s.grid))
          h k
          λ c out. ground (
            arith,
            look-blank_row ok s.row s.col n s.text_attr (open_gap p s.row s.col n s.grid) c h fits,
            look-open_gap ok s.row s.col n s.grid c h fits pos,
          ))

  pub delete_cells-Synced :
      (s : Console) (count : ℕ)
      → s.row < p.rows
      → s.col < p.cols
      → Synced p s
      → Synced p (delete_cells p count s)
  unfolding delete_cells
  delete_cells-Synced s count h k =
      let n = clamp_count p s.col count in
      let (pos, fits) = clamp_count_bounds s.col count k in
      rw (lt→leb p.rows s.row h, lt→leb p.cols s.col k)
        (row_edit-Synced s
          (blank_row p s.row (p.cols - n) n s.text_attr (close_gap p s.row s.col n s.grid)) h k
          λ c out. ground (
            arith,
            look-blank_row ok s.row (p.cols - n) n s.text_attr (close_gap p s.row s.col n s.grid) c
                h (omega arith),
            look-close_gap ok s.row s.col n s.grid c h fits pos,
          ))

  pub erase_cells-Synced : (s : Console) (count : ℕ) → Synced p s → Synced p (erase_cells p count s)
  unfolding erase_cells
  erase_cells-Synced s count sync = elim (Bool-cases (leb p.rows s.row || leb p.cols s.col)) [
    | inl e ↦ rw e sync
    | inr e ↦ rw e (clear_cell_range-Synced s _ _ sync)
  ]

  pub clear_display-Synced : (s : Console) → Synced p (repaint p (clear_shadow p s))
  clear_display-Synced s = repaint-Synced (clear_shadow p s)
