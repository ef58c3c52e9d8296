-- ===== src/Console/Putc.antt =====
-- One byte to a console (hw_bringup/ps_linux_boot.c, `hdmi_console_putc1` and `lcd_console_putc`).
-- The two differ in the tab alone: it loops over the function that the panel's caller uses, so
-- `step` hands a tab back and each panel has its own loop.
pub mod Valid
pub mod Tab
pub mod Sequence
use zynq_cpu.Base.{ℕ, zero, suc, ◌-◌, u8, add32, bit_and, ltb, leb, ◌==◌, if◌then◌else◌, ◌||◌}
use zynq_cpu.Console.Panel.{Panel}
use zynq_cpu.Console.Screen.{Console, put_cell, newline}
use zynq_cpu.Console.Csi.{consume_ansi}

pub data Step : Type 0 where
  done : Console → Step
  tab : Console → Step

module _ (p : Panel) where
  -- A byte that shows.
  unfoldable pub draw : ℕ → Console → Console
  draw ch s =
      let s' = put_cell p s.row s.col (u8 ch) s in
      let s'' = record s' { col = add32 s'.col 1 } in
      if leb p.cols s''.col then newline p s'' else s''

  unfoldable pub backspace : Console → Console
  backspace s =
      if ltb 0 s.col then put_cell p s.row (s.col - 1) 32 (record s { col = s.col - 1 }) else s

  -- A byte that the escape parser did not take.
  unfoldable pub plain : ℕ → Console → Step
  plain ch s =
      if ch == 13
      then done (record s { col = 0 })
      else if ch == 10
      then done (newline p s)
      else if ch == 9
      then tab s
      else if ch == 8 || ch == 127
      then done (backspace s)
      else if ltb ch 32 || ltb 126 ch
      then done (draw b'.' s)
      else done (draw ch s)

  unfoldable pub step : ℕ → Console → Step
  step ch s = let (taken, s') = consume_ansi p ch s in if taken then done s' else plain ch s'

  -- `putc(' ')`, which never comes back with a tab.
  unfoldable pub space : Console → Console
  space s = elim (step 32 s) [ done s' ↦ s' | tab s' ↦ s' ]

  -- do { putc(' '); } while ((col & 7) != 0), eight rounds at most.
  unfoldable pub tab_loop : ℕ → Console → Console
  tab_loop zero s = s
  tab_loop (suc fuel) s =
      let s' = space s in let rest = tab_loop fuel s' in if bit_and s'.col 7 == 0 then s' else rest

  unfoldable pub putc : ℕ → Console → Console
  putc ch s = elim (step ch s) [ done s' ↦ s' | tab s' ↦ tab_loop 8 s' ]
