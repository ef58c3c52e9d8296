-- ===== src/Console/Putc/Valid.antt =====
-- Bytes (hw_bringup/ps_linux_boot.c, `lcd_console_putc`) and the invariant of a console.
use zynq_cpu.Base.{
  ℕ, zero, suc, ◌-◌, ◌==◌, ltb, leb, if◌then◌else◌, if_both, Bool, ◌||◌, arith, bit_and, u8, add32,
  Bool-cases, inl, inr,
}
use zynq_cpu.Console.Panel.{Panel, IsPanel}
use zynq_cpu.Console.Screen.{Console, put_cell, newline}
use zynq_cpu.Console.Screen.Valid.{IsValid, put_cell-IsValid, newline-IsValid}
use zynq_cpu.Console.Csi.{consume_ansi}
use zynq_cpu.Console.Csi.Valid.{consume_ansi-IsValid}
use zynq_cpu.Console.Putc.{Step, done, tab, draw, backspace, plain, step, space, tab_loop, putc}

-- The console that a step leaves.
abbrev pub after : Step → Console
after (done s) = s
after (tab s) = s

module _ {p : Panel} (ok : IsPanel p) where
  -- After the cell is drawn the column may be one past the row: a new line is then due.
  drawn-IsValid :
      (s : Console)
      → IsValid p s
      → IsValid p (
          if leb p.cols (add32 s.col 1)
          then newline p (record s { col = add32 s.col 1 })
          else record s { col = add32 s.col 1 })
  drawn-IsValid s v = elim (Bool-cases (leb p.cols (add32 s.col 1))) [
    | inl e ↦ rw e (
        newline-IsValid ok (record s { col = add32 s.col 1 }) v.row_in v.attr_in v.params_in
          v.shows)
    | inr e ↦ rw e (record {
      row_in = v.row_in;
      col_in = ground arith;
      attr_in = v.attr_in;
      params_in = v.params_in;
      shows = v.shows;
    })
  ]

  pub draw-IsValid : (ch : ℕ) (s : Console) → IsValid p s → IsValid p (draw p ch s)
  unfolding draw
  draw-IsValid ch s v =
      drawn-IsValid (put_cell p s.row s.col (u8 ch) s)
        (put_cell-IsValid ok v s.row s.col (u8 ch) v.row_in v.col_in)

  pub backspace-IsValid : (s : Console) → IsValid p s → IsValid p (backspace p s)
  unfolding backspace
  backspace-IsValid s v = elim (Bool-cases (ltb 0 s.col)) [
    | inl e ↦ rw e (
        let back : IsValid p (record s { col = s.col - 1 }) = record {
          row_in = v.row_in;
          col_in = omega (arith, v.col_in);
          attr_in = v.attr_in;
          params_in = v.params_in;
          shows = v.shows;
        } in
        put_cell-IsValid ok back s.row (s.col - 1) 32 v.row_in (omega (arith, v.col_in)))
    | inr e ↦ rw e v
  ]

  plain-IsValid : (ch : ℕ) (s : Console) → IsValid p s → IsValid p (after (plain p ch s))
  unfolding plain
  plain-IsValid ch s v =
      let home : IsValid p (record s { col = 0 }) = record {
        row_in = v.row_in;
        col_in = ok.has_cols;
        attr_in = v.attr_in;
        params_in = v.params_in;
        shows = v.shows;
      } in
      branch (ch == 13) _ _ home (
        branch (ch == 10) _ _ (newline-IsValid ok s v.row_in v.attr_in v.params_in v.shows) (
          branch (ch == 9) _ _ v (
            branch (ch == 8 || ch == 127) _ _ (backspace-IsValid s v) (
              branch (ltb ch 32 || ltb 126 ch) _ _ (draw-IsValid b'.' s v) (draw-IsValid ch s v)))))
    where
      branch :
          (b : Bool) (x y : Step)
          → IsValid p (after x)
          → IsValid p (after y)
          → IsValid p (after (if b then x else y))
      branch b x y h k = if_both (λ (t : Step). IsValid p (after t)) b {x = x} {y = y} h k

  pub step-IsValid : (ch : ℕ) (s : Console) → IsValid p s → IsValid p (after (step p ch s))
  unfolding step
  step-IsValid ch s v =
      if_both (λ (t : Step). IsValid p (after t)) (consume_ansi p ch s).0
        {x = done (consume_ansi p ch s).1} {y = plain p ch (consume_ansi p ch s).1}
        (consume_ansi-IsValid ok v ch)
        (plain-IsValid ch (consume_ansi p ch s).1 (consume_ansi-IsValid ok v ch))

  -- A space is drawn, or ends the escape sequence that it stands in.
  pub space-IsValid : (s : Console) → IsValid p s → IsValid p (space p s)
  unfolding space
  space-IsValid s v = split (step p 32 s) (step-IsValid 32 s v)
    where
      split : (t : Step) → IsValid p (after t) → IsValid p (elim t [ done s' ↦ s' | tab s' ↦ s' ])
      split (done s') h = h
      split (tab s') h = h

  tab_loop-IsValid : (n : ℕ) (s : Console) → IsValid p s → IsValid p (tab_loop p n s)
  unfolding tab_loop
  tab_loop-IsValid zero s v = v
  tab_loop-IsValid (suc n) s v =
      if_both (IsValid p) (bit_and (space p s).col 7 == 0) (space-IsValid s v)
        (tab_loop-IsValid n (space p s) (space-IsValid s v))

  -- Whatever byte comes, the invariant is kept: the cursor stays on the panel, and the display
  -- shows the shadow arrays.
  pub putc-IsValid : (ch : ℕ) (s : Console) → IsValid p s → IsValid p (putc p ch s)
  unfolding putc
  putc-IsValid ch s v = split (step p ch s) (step-IsValid ch s v)
    where
      split :
          (t : Step)
          → IsValid p (after t)
          → IsValid p (elim t [ done s' ↦ s' | tab s' ↦ tab_loop p 8 s' ])
      split (done s') h = h
      split (tab s') h = tab_loop-IsValid 8 s' h
