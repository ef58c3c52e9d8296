-- ===== src/Console/Terminal.antt =====
-- The terminal that a console promises: rows and columns of glyphs, a cursor and a pen, with no
-- arrays, words or registers. A glyph is a character with its attribute.
pub mod Refine
pub mod Typing
pub mod Editing
pub mod Actions
pub mod Sequences
use zynq_cpu.Base.{ℕ, ◌+◌, ◌-◌, ◌*◌, ◌≤◌, ◌<◌, ◌≡◌, ltb, leb, ◌==◌, if◌then◌else◌, ◌&&◌, ◌||◌}
use zynq_cpu.Console.Panel.{Panel}
use zynq_cpu.Console.Grid.Edits.{look}
use zynq_cpu.Console.Screen.{Console}

pub record Terminal : Type 0 where
  pub glyph : ℕ → ℕ → ℕ × ℕ
  pub row : ℕ
  pub col : ℕ
  pub pen : ℕ

abbrev pub blank_glyph : Terminal → ℕ × ℕ
blank_glyph t = (32, t.pen)

-- A count of 0 stands for 1.
abbrev pub at_least_one : ℕ → ℕ
at_least_one n = if n == 0 then 1 else n

-- What a console holds, seen as a terminal.
abbrev pub view : Panel → Console → Terminal
view p s = record {
  glyph = λ r c. look s.grid (r * p.cols + c);
  row = s.row;
  col = s.col;
  pen = s.text_attr;
}

-- Two terminals with the same cursor, pen and glyphs on the panel.
pub record Same (p : Panel) (t u : Terminal) : Type 0 where
  pub row : t.row ≡ u.row
  pub col : t.col ≡ u.col
  pub pen : t.pen ≡ u.pen
  pub glyphs : (r c : ℕ) → r < p.rows → c < p.cols → t.glyph r c ≡ u.glyph r c

module _ (p : Panel) where
  -- To the start of the next row; from the last row everything moves up.
  abbrev pub next_row : Terminal → Terminal
  next_row t = if ltb (t.row + 1) p.rows then record t { row = t.row + 1; col = 0 } else record t {
    glyph = λ r c. if ltb (r + 1) p.rows then t.glyph (r + 1) c else blank_glyph t;
    row = p.rows - 1;
    col = 0;
  }

  abbrev pub write_glyph : ℕ → Terminal → Terminal
  write_glyph ch t = record t {
    glyph = λ r c. if (r == t.row) && (c == t.col) then (ch, t.pen) else t.glyph r c;
  }

  -- A character at the cursor, which moves on.
  abbrev pub type_char : ℕ → Terminal → Terminal
  type_char ch t =
      if ltb (t.col + 1) p.cols
      then record (write_glyph ch t) { col = t.col + 1 }
      else next_row (write_glyph ch t)

  -- `n` blanks at the cursor push the rest of the row to the right.
  abbrev pub insert : ℕ → Terminal → Terminal
  insert n t = record t {
    glyph = λ r c.
        if (r == t.row) && leb t.col c
        then (if ltb c (t.col + at_least_one n)
            then blank_glyph t
            else t.glyph r (c - at_least_one n))
        else t.glyph r c;
  }

  -- `n` glyphs at the cursor go, and the rest of the row moves to the left.
  abbrev pub delete : ℕ → Terminal → Terminal
  delete n t = record t {
    glyph = λ r c.
        if (r == t.row) && leb t.col c
        then (if ltb (c + at_least_one n) p.cols
            then t.glyph r (c + at_least_one n)
            else blank_glyph t)
        else t.glyph r c;
  }

-- Blanks from one position in reading order up to another, the end left out.
abbrev pub erase : ℕ → ℕ → ℕ → ℕ → Terminal → Terminal
erase row col end_row end_col t = record t {
  glyph = λ r c.
      if (ltb row r || ((r == row) && leb col c))
        && (ltb r end_row || ((r == end_row) && ltb c end_col))
      then blank_glyph t
      else t.glyph r c;
}
