-- ===== src/Console/Terminal/Typing.antt =====
-- Drawn characters (hw_bringup/ps_linux_boot.c) as the abstract terminal has them.
use zynq_cpu.Base.{
  ℕ, ◌+◌, ◌≤◌, ◌<◌, ◌≡◌, ◌≢◌, refl, leb, lt→ltb, le→ltb, if◌then◌else◌, ◌&&◌, arith, u8,
}
use native.Mathlib.Decide.{dec_lt}
use zynq_cpu.Console.Panel.{Panel, IsPanel}
use zynq_cpu.Console.Screen.{Console, esc_none, put_cell, newline}
use zynq_cpu.Console.Screen.Valid.{IsValid}
use zynq_cpu.Console.Putc.{done, draw, plain, putc}
use zynq_cpu.Console.Putc.Tab.{step-plain}
use zynq_cpu.Console.Terminal.{Terminal, view, Same, next_row, write_glyph, type_char}
use zynq_cpu.Console.Terminal.Refine.{newline_refines, put_cell_glyphs}

-- `next_row` looks at the row, the pen and the glyphs alone.
Same-next_row :
    {p : Panel} {t : Terminal} (u v : Terminal)
    → u.row ≡ v.row
    → u.pen ≡ v.pen
    → ((r c : ℕ) → r < p.rows → c < p.cols → u.glyph r c ≡ v.glyph r c)
    → Same p t (next_row p u)
    → Same p t (next_row p v)
Same-next_row u v e f g a = record {
  row = ground (arith, a.row);
  col = ground (arith, a.col);
  pen = ground (arith, a.pen);
  glyphs = λ r c hr hc. ground (arith, a.glyphs r c hr hc, g r c hr hc, g (r + 1) c);
}

module _ {p : Panel} (ok : IsPanel p) where
  draw_stays :
      (ch : ℕ) (s : Console)
      → s.col + 1 < p.cols
      → draw p ch s ≡ record (put_cell p s.row s.col (u8 ch) s) { col = s.col + 1 }
  unfolding draw put_cell
  draw_stays ch s h = ground (arith, ok.narrow)

  draw_wraps :
      (ch : ℕ) (s : Console)
      → s.col < p.cols
      → p.cols ≤ s.col + 1
      → draw p ch s ≡ newline p (record (put_cell p s.row s.col (u8 ch) s) { col = s.col + 1 })
  unfolding draw put_cell
  draw_wraps ch s h k = ground (arith, ok.narrow)

  -- A byte that is drawn is typed: it takes the cell under the cursor in the current attribute,
  -- and the cursor moves on, to the next row past the end of a row.
  pub draw_refines :
      (ch : ℕ) (s : Console)
      → s.row < p.rows
      → s.col < p.cols
      → Same p (view p (draw p ch s)) (type_char p (u8 ch) (view p s))
  draw_refines ch s h k = elim (dec_lt (s.col + 1) p.cols) [
    | yes fits ↦
        rw (draw_stays ch s fits, lt→ltb (s.col + 1) p.cols fits)
          (record {
            row = unfold put_cell in refl;
            col = refl;
            pen = unfold put_cell in refl;
            glyphs = put_cell_glyphs ok s (u8 ch) h k;
          })
    | no full ↦
        rw (draw_wraps ch s k (omega arith), le→ltb (s.col + 1) p.cols (omega arith))
          (let s' = record (put_cell p s.row s.col (u8 ch) s) { col = s.col + 1 } in
            Same-next_row (view p s') (write_glyph p (u8 ch) (view p s)) (unfold put_cell in refl)
              (unfold put_cell in refl) (put_cell_glyphs ok s (u8 ch) h k)
              (newline_refines ok s' (unfold put_cell in h)))
  ]

  plain_draws :
      (ch : ℕ) (s : Console)
      → ch ≢ 13
      → ch ≢ 10
      → ch ≢ 9
      → ch ≢ 8
      → ch ≢ 127
      → plain p ch s ≡ done (draw p (if leb 32 ch && leb ch 126 then ch else b'.') s)
  unfolding plain
  plain_draws ch s cr lf tb bs del = ground arith

  putc_draws :
      (ch : ℕ) (s : Console)
      → s.esc_state ≡ esc_none
      → ch ≢ 27
      → ch ≢ 13
      → ch ≢ 10
      → ch ≢ 9
      → ch ≢ 8
      → ch ≢ 127
      → putc p ch s ≡ draw p (if leb 32 ch && leb ch 126 then ch else b'.') s
  unfolding putc
  putc_draws ch s e esc cr lf tb bs del =
      rw (step-plain ok ch s e esc, putc, plain_draws ch s cr lf tb bs del)

  -- A printable byte outside an escape sequence is typed as it is, and every other byte that is no
  -- control of the console is typed as a dot.
  pub putc_refines :
      (ch : ℕ) (s : Console)
      → IsValid p s
      → s.esc_state ≡ esc_none
      → ch ≢ 27
      → ch ≢ 13
      → ch ≢ 10
      → ch ≢ 9
      → ch ≢ 8
      → ch ≢ 127
      → Same p
          (view p (putc p ch s))
          (type_char p (if leb 32 ch && leb ch 126 then ch else b'.') (view p s))
  putc_refines ch s v e esc cr lf tb bs del =
      let shown = if leb 32 ch && leb ch 126 then ch else b'.' in
      let byte : u8 shown ≡ shown = ground arith in
      rw (putc_draws ch s e esc cr lf tb bs del)
        (rw byte at (draw_refines shown s v.row_in v.col_in))
