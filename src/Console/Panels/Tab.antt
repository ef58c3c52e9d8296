-- ===== src/Console/Panels/Tab.antt =====
-- The tab on both panels (hw_bringup/ps_linux_boot.c, `hdmi_console_putc`): each space of HDMI's tab
-- goes to the LCD too, and then the tab does.
use zynq_cpu.Base.{
  ℕ, zero, suc, ◌+◌, ◌*◌, ◌/◌, ◌%◌, ◌≤◌, ◌<◌, ◌≡◌, ◌≢◌, inl, inr, Bool-cases, bit_and, ◌==◌, arith,
}
use zynq_cpu.Base.Bits.{bit_and_seven}
use zynq_cpu.Console.Panel.{lcd, hdmi-IsPanel, lcd-IsPanel}
use zynq_cpu.Console.Screen.{Console, esc_none}
use zynq_cpu.Console.Putc.{plain, putc, draw}
use zynq_cpu.Console.Putc.Tab.{col-draw, esc_state-draw, space_lem, step-plain, putc_tab}
use zynq_cpu.Console.Panels.{
  Panels, mirror_to_lcd, hdmi_console_space, hdmi_tab_loop, hdmi_console_putc1, hdmi_console_putc,
}
use zynq_cpu.Console.Panels.Both.{BothValid, hdmi_console_space-BothValid}

-- Outside an escape sequence on both panels, with both cursors in column `c`.
pub record InStep (c : ℕ) (d : Panels) : Type 0 where
  pub valid : BothValid d
  pub hdmi_outside : d.hdmi_console.esc_state ≡ esc_none
  pub lcd_outside : d.lcd_console.esc_state ≡ esc_none
  pub hdmi_col : d.hdmi_console.col ≡ c
  pub lcd_col : d.lcd_console.col ≡ c

putc_space : (s : Console) → s.esc_state ≡ esc_none → putc lcd 32 s ≡ draw lcd 32 s
unfolding putc plain
putc_space s e = rw (step-plain lcd-IsPanel 32 s e (omega arith), putc)

space-InStep : (c : ℕ) (d : Panels) → c < 59 → InStep c d → InStep (c + 1) (hdmi_console_space d)
unfolding hdmi_console_space mirror_to_lcd
space-InStep c d h w = record {
  valid = unfold hdmi_console_space mirror_to_lcd in hdmi_console_space-BothValid d w.valid;
  hdmi_outside =
      rw
        (
          space_lem hdmi-IsPanel d.hdmi_console w.hdmi_outside,
          esc_state-draw hdmi-IsPanel 32 d.hdmi_console,
        )
        w.hdmi_outside;
  lcd_outside =
      rw (putc_space d.lcd_console w.lcd_outside, esc_state-draw lcd-IsPanel 32 d.lcd_console)
        w.lcd_outside;
  hdmi_col =
      rw (space_lem hdmi-IsPanel d.hdmi_console w.hdmi_outside) (
        ground (arith, col-draw hdmi-IsPanel 32 d.hdmi_console w.valid.hdmi_ok.col_in, w.hdmi_col));
  lcd_col =
      rw (putc_space d.lcd_console w.lcd_outside)
        (ground (arith, col-draw lcd-IsPanel 32 d.lcd_console w.valid.lcd_ok.col_in, w.lcd_col));
}

tab_loop-InStep :
    (n c : ℕ) (d : Panels)
    → c < 48
    → 0 < n
    → 8 ≤ n + c % 8
    → InStep c d
    → InStep ((c / 8 + 1) * 8) (hdmi_tab_loop n d)
unfolding hdmi_tab_loop
tab_loop-InStep zero c d h pos enough w = absurd (omega arith)
tab_loop-InStep (suc n) c d h pos enough w =
    let d' = hdmi_console_space d in
    let w' = space-InStep c d (omega arith) w in
    let at : d'.hdmi_console.col ≡ c + 1 = w'.hdmi_col in
    elim (Bool-cases (bit_and d'.hdmi_console.col 7 == 0)) [
      | inl stop ↦ rw stop (
          let e : c + 1 ≡ (c / 8 + 1) * 8 = ground (arith, bit_and_seven d'.hdmi_console.col) in
          rw (← e) w')
      | inr more ↦
          let off : (c + 1) % 8 ≢ 0 = ground (arith, bit_and_seven d'.hdmi_console.col) in
          let same : ((c + 1) / 8 + 1) * 8 ≡ (c / 8 + 1) * 8 = omega arith in
          rw more
            (rw same at (tab_loop-InStep n (c + 1) d' (omega arith) (omega arith) (omega arith) w'))
    ]

putc1_tab :
    (d : Panels) → d.hdmi_console.esc_state ≡ esc_none → hdmi_console_putc1 9 d ≡ hdmi_tab_loop 8 d
unfolding hdmi_console_putc1 plain
putc1_tab d e = rw (step-plain hdmi-IsPanel 9 d.hdmi_console e (omega arith), hdmi_console_putc1)

-- A tab in column `c` of both panels: HDMI goes to the next multiple of 8, the LCD to the one
-- after it.
pub hdmi_console_putc-tab :
    (c : ℕ) (d : Panels)
    → c < 48
    → InStep c d
    → ((hdmi_console_putc 9 d).hdmi_console.col ≡ (c / 8 + 1) * 8)
      × ((hdmi_console_putc 9 d).lcd_console.col ≡ (c / 8 + 2) * 8)
unfolding hdmi_console_putc mirror_to_lcd
hdmi_console_putc-tab c d h w =
    let w' = tab_loop-InStep 8 c d h (omega arith) (omega arith) w in
    let looped = hdmi_tab_loop 8 d in
    let second = putc_tab lcd-IsPanel looped.lcd_console w'.valid.lcd_ok w'.lcd_outside in
    rw (putc1_tab d w.hdmi_outside) (w'.hdmi_col, ground (arith, second.0, w'.lcd_col))
