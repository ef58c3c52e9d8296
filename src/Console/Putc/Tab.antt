-- ===== src/Console/Putc/Tab.antt =====
-- The loop of the tab (hw_bringup/ps_linux_boot.c, `lcd_console_putc`).
use zynq_cpu.Base.{
  ◌≢◌, ◌∙◌, ap, Bool, false, ℕ, zero, suc, ◌+◌, ◌*◌, ◌/◌, ◌%◌, ◌≤◌, ◌<◌, ◌≡◌, refl, ◌==◌, ltb,
  if◌then◌else◌, arith, bit_and, Bool-cases, inl, inr,
}
use zynq_cpu.Base.Bits.{bit_and_seven}
use zynq_cpu.Console.Panel.{Panel, IsPanel}
use zynq_cpu.Console.Screen.{Console, esc_none, newline, scroll, repaint, put_cell}
use zynq_cpu.Console.Screen.Valid.{IsValid}
use zynq_cpu.Console.Csi.{consume_ansi, consume_in}
use zynq_cpu.Console.Putc.{done, draw, plain, step, space, tab_loop, putc}
use zynq_cpu.Console.Putc.Valid.{space-IsValid}

-- The next multiple of 8 on the row, or the start of the next row.
abbrev pub tab_stop : Panel → ℕ → ℕ
tab_stop p col = let next = (col / 8 + 1) * 8 in if ltb next p.cols then next else 0

module _ {p : Panel} (ok : IsPanel p) where
  pub col-draw :
      (ch : ℕ) (s : Console)
      → s.col < p.cols
      → (draw p ch s).col ≡ (if ltb (s.col + 1) p.cols then s.col + 1 else 0)
  unfolding draw put_cell newline scroll repaint
  col-draw ch s h = ground (arith, ok.narrow)

  pub esc_state-draw : (ch : ℕ) (s : Console) → (draw p ch s).esc_state ≡ s.esc_state
  unfolding draw put_cell newline scroll repaint
  esc_state-draw ch s = ground arith

  -- Outside an escape sequence a byte other than ESC goes through the parser untouched.
  pub step-plain :
      (ch : ℕ) (s : Console) → s.esc_state ≡ esc_none → ch ≢ 27 → step p ch s ≡ plain p ch s
  unfolding step consume_ansi
  step-plain ch s e ne = untaken _ (ap (λ k. consume_in p k ch s) e ∙ passes)
    where
      passes : consume_in p esc_none ch s ≡ (false, s)
      passes = unfold consume_in in ground arith

      untaken :
          (r : Bool × Console)
          → r ≡ (false, s)
          → (if r.0 then done r.1 else plain p ch r.1) ≡ plain p ch s
      untaken r q = rw q refl

  pub space_lem : (s : Console) → s.esc_state ≡ esc_none → space p s ≡ draw p 32 s
  unfolding space plain
  space_lem s e = rw (step-plain 32 s e (omega arith), space)

  putc-tab_loop : (s : Console) → s.esc_state ≡ esc_none → putc p 9 s ≡ tab_loop p 8 s
  unfolding putc plain
  putc-tab_loop s e = rw (step-plain 9 s e (omega arith), putc)

  tab_loop-col :
      (n : ℕ) (s : Console)
      → IsValid p s
      → s.esc_state ≡ esc_none
      → 0 < n
      → 8 ≤ n + s.col % 8
      → (tab_loop p n s).col ≡ tab_stop p s.col
  unfolding tab_loop
  tab_loop-col zero s v e pos enough = absurd (omega arith)
  tab_loop-col (suc n) s v e pos enough =
      let s' = space p s in
      let moved : s'.col ≡ (if ltb (s.col + 1) p.cols then s.col + 1 else 0) =
        rw (space_lem s e) (col-draw 32 s v.col_in) in
      let still : s'.esc_state ≡ esc_none = rw (space_lem s e, esc_state-draw 32 s) e in
      elim (Bool-cases (bit_and s'.col 7 == 0)) [
        | inl stop ↦ rw stop (ground (arith, moved, bit_and_seven s'.col, v.col_in))
        | inr more ↦
            let off : s'.col % 8 ≢ 0 = ground (arith, bit_and_seven s'.col) in
            let next : s'.col ≡ s.col + 1 = ground (arith, moved) in
            rw more (
              tab_loop-col n s' (space-IsValid ok s v) still (omega arith) (omega arith)
              ∙ ground (arith, next, off, v.col_in))
      ]

  -- A tab outside an escape sequence moves the cursor to the next multiple of 8, or to the start of
  -- the next row where that lies past the end of the row. Eight rounds are enough for it.
  pub putc_tab :
      (s : Console)
      → IsValid p s
      → s.esc_state ≡ esc_none
      → ((putc p 9 s).col ≡ tab_stop p s.col) × (bit_and (putc p 9 s).col 7 ≡ 0)
  putc_tab s v e =
      let stops = tab_loop-col 8 s v e (omega arith) (omega arith) in
      rw (putc-tab_loop s e) (stops, ground (arith, stops, bit_and_seven (tab_loop p 8 s).col))
