-- ===== src/Console/Grid/Edits.antt =====
-- The loops over the shadow arrays (hw_bringup/ps_linux_boot.c), cell by cell.
use zynq_cpu.Base.{
  ℕ, zero, suc, ◌+◌, ◌-◌, ◌*◌, ◌≤◌, ◌<◌, ◌≡◌, sub32, ltb, leb, ◌==◌, if◌then◌else◌, ◌&&◌, arith,
  update, for_range, for_down,
}
use zynq_cpu.Console.Panel.{Panel, cells, IsPanel}
use zynq_cpu.Console.Grid.{
  Grid, put, move, blank, cell, blank_row, move_row, scroll_grid, open_gap, close_gap,
}

-- The text and the attribute of a cell.
abbrev pub look : Grid → ℕ → ℕ × ℕ
look g c = (g.text c, g.attr c)

pub look-put :
    (c ch at : ℕ) (g : Grid) (b : ℕ)
    → look (put c ch at g) b ≡ (if b == c then (ch, at) else look g b)
unfolding put update
look-put c ch at g b = ground arith

pub look-move :
    (dst src : ℕ) (g : Grid) (b : ℕ)
    → look (move dst src g) b ≡ (if b == dst then look g src else look g b)
unfolding move update
look-move dst src g b = ground arith

pub look-blank :
    (n start at : ℕ) (g : Grid) (c : ℕ)
    → look (blank n start at g) c
      ≡ (if leb start c && ltb c (start + n) then (32, at) else look g c)
unfolding blank for_range
look-blank zero start at g c = ground arith
look-blank (suc n) start at g c =
    ground (arith, look-blank n (start + 1) at (put start 32 at g) c, look-put start 32 at g c)

last_row : (rows cols : ℕ) → 0 < rows → (rows - 1) * cols + cols ≡ cols * rows
last_row zero cols h = absurd (omega arith)
last_row (suc r) cols h = let e : suc r - 1 ≡ r = omega arith in rw e (omega arith)

module _ {p : Panel} (ok : IsPanel p) where
  pub row_end : (row : ℕ) → row < p.rows → row * p.cols + p.cols ≤ p.cols * p.rows
  row_end row h = grind arith

  -- In range no product or sum of `cell` wraps.
  pub cell_exact : (row col : ℕ) → row < p.rows → col ≤ p.cols → cell p row col ≡ row * p.cols + col
  unfolding cell
  cell_exact row col h k = omega (arith, row_end row h, ok.few_cells)

  pub cell-lt : (row col : ℕ) → row < p.rows → col < p.cols → cell p row col < cells p
  cell-lt row col h k = omega (arith, row_end row h, cell_exact row col h (omega arith))

  pub look-blank_row :
      (row start n at : ℕ) (g : Grid) (c : ℕ)
      → row < p.rows
      → start + n ≤ p.cols
      → look (blank_row p row start n at g) c ≡ (
          if leb (row * p.cols + start) c && ltb c (row * p.cols + start + n)
          then (32, at)
          else look g c)
  unfolding blank_row for_range
  look-blank_row row start zero at g c h k = ground arith
  look-blank_row row start (suc n) at g c h k = ground (
    arith,
    cell_exact row start h (omega arith),
    look-blank_row row (start + 1) n at (put (cell p row start) 32 at g) c h (omega arith),
    look-put (cell p row start) 32 at g c,
  )

  pub look-open_gap_rounds :
      (row lo count n : ℕ) (g : Grid) (c : ℕ)
      → row < p.rows
      → lo + n ≤ p.cols
      → 0 < count
      → count ≤ lo
      → look (for_down n lo (λ dst. move (cell p row dst) (cell p row (dst - count))) g) c ≡ (
          if leb (row * p.cols + lo) c && ltb c (row * p.cols + lo + n)
          then look g (c - count)
          else look g c)
  unfolding for_down
  look-open_gap_rounds row lo count zero g c h k pos le = ground arith
  look-open_gap_rounds row lo count (suc n) g c h k pos le = ground (
    arith,
    cell_exact row (lo + n) h (omega arith),
    cell_exact row (lo + n - count) h (omega arith),
    look-open_gap_rounds row lo count n (move (cell p row (lo + n)) (cell p row (lo + n - count)) g)
        c h (omega arith) pos le,
    look-move (cell p row (lo + n)) (cell p row (lo + n - count)) g c,
    look-move (cell p row (lo + n)) (cell p row (lo + n - count)) g (c - count),
  )

  pub look-close_gap_rounds :
      (row start count n : ℕ) (g : Grid) (c : ℕ)
      → row < p.rows
      → start + n + count ≤ p.cols
      → 0 < count
      → look (for_range n start (λ dst. move (cell p row dst) (cell p row (dst + count))) g) c ≡ (
          if leb (row * p.cols + start) c && ltb c (row * p.cols + start + n)
          then look g (c + count)
          else look g c)
  unfolding for_range
  look-close_gap_rounds row start count zero g c h k pos = ground arith
  look-close_gap_rounds row start count (suc n) g c h k pos = ground (
    arith,
    cell_exact row start h (omega arith),
    cell_exact row (start + count) h (omega arith),
    look-close_gap_rounds row (start + 1) count n
        (move (cell p row start) (cell p row (start + count)) g) c h (omega arith) pos,
    look-move (cell p row start) (cell p row (start + count)) g c,
    look-move (cell p row start) (cell p row (start + count)) g (c + count),
  )

  -- The cells of the rest of a row move right by `count`.
  pub look-open_gap :
      (row col count : ℕ) (g : Grid) (c : ℕ)
      → row < p.rows
      → col + count ≤ p.cols
      → 0 < count
      → look (open_gap p row col count g) c ≡ (
          if leb (row * p.cols + col + count) c && ltb c (row * p.cols + p.cols)
          then look g (c - count)
          else look g c)
  unfolding open_gap
  look-open_gap row col count g c h k pos = ground (
    arith,
    look-open_gap_rounds row (col + count) count (p.cols - (col + count)) g c h (omega arith) pos
        (omega arith),
  )

  -- The cells of the rest of a row move left by `count`.
  pub look-close_gap :
      (row col count : ℕ) (g : Grid) (c : ℕ)
      → row < p.rows
      → col + count ≤ p.cols
      → 0 < count
      → look (close_gap p row col count g) c ≡ (
          if leb (row * p.cols + col) c && ltb c (row * p.cols + p.cols - count)
          then look g (c + count)
          else look g c)
  unfolding close_gap
  look-close_gap row col count g c h k pos =
      ground (
        arith,
        look-close_gap_rounds row col count (p.cols - (col + count)) g c h (omega arith) pos,
      )

  look-move_row_rounds :
      (r start n : ℕ) (g : Grid) (c : ℕ)
      → r + 1 < p.rows
      → start + n ≤ p.cols
      → look
          (for_range n start (λ col. move (cell p (sub32 (r + 1) 1) col) (cell p (r + 1) col)) g)
          c
        ≡ (if leb (r * p.cols + start) c && ltb c (r * p.cols + start + n)
            then look g (c + p.cols)
            else look g c)
  unfolding for_range
  look-move_row_rounds r start zero g c h k = ground arith
  look-move_row_rounds r start (suc n) g c h k =
      let e : sub32 (r + 1) 1 ≡ r = omega (arith, ok.low) in
      let d : cell p (sub32 (r + 1) 1) start ≡ r * p.cols + start =
        rw e (cell_exact r start (omega arith) (omega arith)) in
      ground (
        arith,
        d,
        cell_exact (r + 1) start h (omega arith),
        look-move_row_rounds r (start + 1) n
            (move (cell p (sub32 (r + 1) 1) start) (cell p (r + 1) start) g) c h (omega arith),
        look-move (cell p (sub32 (r + 1) 1) start) (cell p (r + 1) start) g c,
        look-move (cell p (sub32 (r + 1) 1) start) (cell p (r + 1) start) g (c + p.cols),
      )

  look-move_row :
      (r : ℕ) (g : Grid) (c : ℕ)
      → r + 1 < p.rows
      → look (move_row p (r + 1) g) c ≡ (
          if leb (r * p.cols) c && ltb c (r * p.cols + p.cols)
          then look g (c + p.cols)
          else look g c)
  unfolding move_row
  look-move_row r g c h = ground (arith, look-move_row_rounds r 0 p.cols g c h (omega arith))

  look-move_rows :
      (r n : ℕ) (g : Grid) (c : ℕ)
      → r + n < p.rows
      → look (for_range n (r + 1) (move_row p) g) c
        ≡ (if leb (r * p.cols) c && ltb c ((r + n) * p.cols) then look g (c + p.cols) else look g c)
  unfolding for_range
  look-move_rows r zero g c h = ground arith
  look-move_rows r (suc n) g c h = ground (
    arith,
    look-move_rows (r + 1) n (move_row p (r + 1) g) c (omega arith),
    look-move_row r g c (omega arith),
    look-move_row r g (c + p.cols) (omega arith),
  )

  -- Scrolling: each cell takes the cell one row below it, and the last row is blank.
  pub look-scroll_grid :
      (at : ℕ) (g : Grid) (c : ℕ)
      → c < cells p
      → look (scroll_grid p at g) c
        ≡ (if ltb c ((p.rows - 1) * p.cols) then look g (c + p.cols) else (32, at))
  unfolding scroll_grid
  look-scroll_grid at g c h = ground (
    arith,
    ok.has_rows,
    look-blank_row (p.rows - 1) 0 p.cols at (for_range (p.rows - 1) 1 (move_row p) g) c
        (omega (arith, ok.has_rows)) (omega arith),
    look-move_rows 0 (p.rows - 1) g c (omega (arith, ok.has_rows)),
    last_row p.rows p.cols ok.has_rows,
  )
