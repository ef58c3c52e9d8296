-- ===== src/Console/Terminal/Sequences.antt =====
-- A control sequence does what it asks of a terminal (hw_bringup/ps_linux_boot.c,
-- `hdmi_console_apply_csi`).
use zynq_cpu.Base.{
  ℕ, ◌+◌, ◌-◌, ◌*◌, ◌<◌, ◌≡◌, ◌≢◌, refl, ltb, lt→leb, ◌==◌, if◌then◌else◌, ◌||◌, Bool, true, false,
  arith, add32, ap, ◌∙◌,
}
use Prim.Native.Nat.{min}
use zynq_cpu.Console.Panel.{Panel, cells, IsPanel}
use zynq_cpu.Console.Grid.{cell}
use zynq_cpu.Console.Grid.Edits.{look-blank, cell_exact, row_end}
use zynq_cpu.Console.Screen.{Console, repaint, clear_shadow, erase_cells, set_cursor}
use zynq_cpu.Console.Screen.Valid.{IsValid}
use zynq_cpu.Console.Csi.{
  param_or, erase_display, erase_line, cursor_up, cursor_left, apply_sgr, apply_csi,
}
use zynq_cpu.Console.Terminal.{Terminal, view, Same, erase}
use zynq_cpu.Console.Terminal.Editing.{insert_cells_refines, delete_cells_refines, clear_refines}
use zynq_cpu.Console.Terminal.Actions.{goto, fresh, erase_in_display, erase_in_line, action}

-- `Same` of a console's view, under a name that does not compute.
record Agrees (p : Panel) (s : Console) (t : Terminal) : Type 0 where
  same : Same p (view p s) t

agrees : {p : Panel} {s : Console} {t : Terminal} → Same p (view p s) t → Agrees p s t
agrees h = record { same = h }

Agrees-if :
    {p : Panel} (b : Bool) {x y : Console} {t u : Terminal}
    → Agrees p x t
    → Agrees p y u
    → Agrees p (if b then x else y) (if b then t else u)
Agrees-if true h k = h
Agrees-if false h k = k

-- Two ladders with the same test.
Same-if :
    {p : Panel} (b : Bool) (x y : Console) (t u : Terminal)
    → Same p (view p x) t
    → Same p (view p y) u
    → Same p (view p (if b then x else y)) (if b then t else u)
Same-if true x y t u h k = h
Same-if false x y t u h k = k

module _ {p : Panel} (ok : IsPanel p) {s : Console} (v : IsValid p s) where
  Same-self : Same p (view p s) (view p s)
  Same-self = record { row = refl; col = refl; pen = refl; glyphs = λ r c h k. refl }

  set_cursor_refines :
      (row col row' col' : ℕ)
      → row ≡ row'
      → col ≡ col'
      → Same p (view p (set_cursor p row col s)) (goto p row' col' (view p s))
  unfolding set_cursor
  set_cursor_refines row col row' col' e f = record {
    row = ground (arith, ok.has_rows);
    col = ground (arith, ok.has_cols);
    pen = refl;
    glyphs = λ r c h k. refl;
  }

  cursor_up_refines :
      (n : ℕ) → Same p (view p (cursor_up n s)) (record (view p s) { row = s.row - n })
  unfolding cursor_up
  cursor_up_refines n = record {
    row = ground arith;
    col = refl;
    pen = refl;
    glyphs = λ r c h k. refl;
  }

  cursor_left_refines :
      (n : ℕ) → Same p (view p (cursor_left n s)) (record (view p s) { col = s.col - n })
  unfolding cursor_left
  cursor_left_refines n = record {
    row = refl;
    col = ground arith;
    pen = refl;
    glyphs = λ r c h k. refl;
  }

  clear_display_refines : Same p (view p (repaint p (clear_shadow p s))) (fresh p)
  unfolding repaint clear_shadow
  clear_display_refines = record {
    row = refl;
    col = refl;
    pen = refl;
    glyphs = λ r c hr hc.
        ground (arith, look-blank (cells p) 0 0x07 s.grid (r * p.cols + c), row_end ok r hr);
  }

  here : cell p s.row s.col ≡ s.row * p.cols + s.col
  here = cell_exact ok s.row s.col v.row_in (omega (arith, v.col_in))

  past : add32 (cell p s.row s.col) 1 ≡ s.row * p.cols + (s.col + 1)
  past = omega (arith, here, row_end ok s.row v.row_in, ok.few_cells, v.col_in)

  line_start : cell p s.row 0 ≡ s.row * p.cols + 0
  line_start = cell_exact ok s.row 0 v.row_in (omega arith)

  line_end : add32 (cell p s.row 0) p.cols ≡ s.row * p.cols + p.cols
  line_end = omega (arith, line_start, row_end ok s.row v.row_in, ok.few_cells)

  line_end' : add32 (cell p s.row (p.cols - 1)) 1 ≡ s.row * p.cols + p.cols
  line_end' = omega (
    arith,
    cell_exact ok s.row (p.cols - 1) v.row_in (omega arith),
    row_end ok s.row v.row_in,
    ok.few_cells,
    ok.has_cols,
  )

  erase_display_refines :
      (p0 : ℕ) → Same p (view p (erase_display p p0 s)) (erase_in_display p p0 (view p s))
  unfolding erase_display
  erase_display_refines p0 = Same-if (p0 == 2 || p0 == 3) _ _ _ _ clear_display_refines (
      Same-if (p0 == 1) _ _ _ _
        (clear_refines ok s v.row_in 0 _ 0 0 s.row (s.col + 1) (omega arith) past (omega arith)
          (omega (arith, v.col_in)))
        (clear_refines ok s v.row_in _ (cells p) s.row s.col p.rows 0 here (omega arith)
          (omega (arith, v.col_in)) (omega arith)))

  erase_line_refines :
      (p0 : ℕ) → Same p (view p (erase_line p p0 s)) (erase_in_line p p0 (view p s))
  unfolding erase_line
  erase_line_refines p0 =
      Same-if (p0 == 2) _ _ _ _
        (clear_refines ok s v.row_in _ _ s.row 0 s.row p.cols line_start line_end (omega arith)
          (omega arith))
        (Same-if (p0 == 1) _ _ _ _
          (clear_refines ok s v.row_in _ _ s.row 0 s.row (s.col + 1) line_start past (omega arith)
            (omega (arith, v.col_in)))
          (clear_refines ok s v.row_in _ _ s.row s.col s.row p.cols here line_end'
            (omega (arith, v.col_in)) (omega arith)))

  erase_cells_refines :
      (n : ℕ)
      → 0 < n
      → n < 0x80000000
      → Same p
          (view p (erase_cells p n s))
          (erase s.row s.col s.row (min (s.col + n) p.cols) (view p s))
  unfolding erase_cells
  erase_cells_refines n pos small =
      let end = add32 s.col (if n == 0 then 1 else n) in
      let end' = if ltb p.cols end then p.cols else end in
      let clip : end' ≡ min (s.col + n) p.cols = ground (arith, v.col_in, ok.narrow) in
      rw (lt→leb p.rows s.row v.row_in, lt→leb p.cols s.col v.col_in)
        (clear_refines ok s v.row_in (cell p s.row s.col) (cell p s.row end') s.row s.col s.row
          (min (s.col + n) p.cols) here
          (cell_exact ok s.row end' v.row_in (ground arith) ∙ ap (λ e. s.row * p.cols + e) clip)
          (omega (arith, v.col_in)) (omega arith))

  param_pos : (i : ℕ) → 0 < param_or s i 1
  unfolding param_or
  param_pos i = ground arith

  apply_csi-Agrees :
      (ch : ℕ)
      → ch ≢ b'm'
      → param_or s 0 1 < 0x80000000
      → Agrees p (apply_csi p ch s) (
          action p ch
            (if ltb 0 s.param_count then s.params 0 else 0)
            (param_or s 0 1)
            (param_or s 1 1)
            (view p s))
  unfolding apply_csi
  apply_csi-Agrees ch ne small =
      let n = param_or s 0 1 in
      let last : Agrees p (if ch == b'm' then apply_sgr s else s) (view p s) =
        rw not_m (agrees Same-self) in
      Agrees-if (ch == b'@') (agrees (insert_cells_refines ok s n v.row_in v.col_in)) (
        Agrees-if (ch == b'J') (agrees (erase_display_refines _)) (
          Agrees-if (ch == b'K') (agrees (erase_line_refines _)) (
            Agrees-if (ch == b'X') (agrees (erase_cells_refines n (param_pos 0) small)) (
              Agrees-if (ch == b'P') (agrees (delete_cells_refines ok s n v.row_in v.col_in)) (
                Agrees-if (ch == b'H' || ch == b'f')
                  (agrees (set_cursor_refines (n - 1) (param_or s 1 1 - 1) _ _ refl refl))
                  (Agrees-if (ch == b'G') (agrees (set_cursor_refines s.row (n - 1) _ _ refl refl))
                    (Agrees-if (ch == b'A') (agrees (cursor_up_refines n)) (
                      Agrees-if (ch == b'B')
                        (agrees (set_cursor_refines (add32 s.row n) s.col _ _ row_plus refl))
                        (Agrees-if (ch == b'E')
                          (agrees (set_cursor_refines (add32 s.row n) 0 _ _ row_plus refl))
                          (Agrees-if (ch == b'F')
                            (agrees (
                              set_cursor_refines (if ltb s.row n then 0 else s.row - n) 0 _ _
                                (ground arith) refl))
                            (Agrees-if (ch == b'C')
                              (agrees (set_cursor_refines s.row (add32 s.col n) _ _ refl col_plus))
                              (Agrees-if (ch == b'D') (agrees (cursor_left_refines n)) (
                                Agrees-if (ch == b'd')
                                  (agrees (set_cursor_refines (n - 1) s.col _ _ refl refl))
                                  last)))))))))))))
    where
      not_m : (ch == b'm') ≡ false
      not_m = ground arith

      row_plus : add32 s.row (param_or s 0 1) ≡ s.row + param_or s 0 1
      row_plus = omega (arith, v.row_in, ok.low)

      col_plus : add32 s.col (param_or s 0 1) ≡ s.col + param_or s 0 1
      col_plus = omega (arith, v.col_in, ok.narrow)

  -- Every control sequence but SGR, at parameters below 2^31, does to the terminal what it asks.
  pub apply_csi_refines :
      (ch : ℕ)
      → ch ≢ b'm'
      → param_or s 0 1 < 0x80000000
      → Same p (view p (apply_csi p ch s)) (
          action p ch
            (if ltb 0 s.param_count then s.params 0 else 0)
            (param_or s 0 1)
            (param_or s 1 1)
            (view p s))
  apply_csi_refines ch ne small = (apply_csi-Agrees ch ne small).same
