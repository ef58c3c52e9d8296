-- ===== src/Console/Panels.antt =====
-- The two consoles together (hw_bringup/ps_linux_boot.c, `hdmi_console_putc` and the tab of
-- `hdmi_console_putc1`): every byte goes to both panels, and so does each space of a tab on HDMI.
pub mod Both
pub mod Tab
use zynq_cpu.Base.{ℕ, zero, suc, bit_and, ◌==◌, if◌then◌else◌}
use zynq_cpu.Console.Panel.{hdmi}
use zynq_cpu.Console.Screen.{Console}
use zynq_cpu.Console.Putc.{Step, done, tab, step, space}
use zynq_cpu.Console.Lcd.{LcdState, lcd_console_putc}

pub record Panels : Type 0 where
  pub hdmi_console : Console
  pub lcd_console : LcdState

unfoldable pub mirror_to_lcd : ℕ → Panels → Panels
mirror_to_lcd ch d = record d { lcd_console = lcd_console_putc ch d.lcd_console }

-- `hdmi_console_putc(' ')`
unfoldable pub hdmi_console_space : Panels → Panels
hdmi_console_space d = mirror_to_lcd 32 (record d { hdmi_console = space hdmi d.hdmi_console })

-- do { hdmi_console_putc(' '); } while ((hdmi_text_col & 7U) != 0U), eight rounds at most.
unfoldable pub hdmi_tab_loop : ℕ → Panels → Panels
hdmi_tab_loop zero d = d
hdmi_tab_loop (suc fuel) d =
    let d' = hdmi_console_space d in
    let rest = hdmi_tab_loop fuel d' in if bit_and d'.hdmi_console.col 7 == 0 then d' else rest

unfoldable pub hdmi_console_putc1 : ℕ → Panels → Panels
hdmi_console_putc1 ch d = elim (step hdmi ch d.hdmi_console) [
  | done s ↦ record d { hdmi_console = s }
  | tab s ↦ hdmi_tab_loop 8 (record d { hdmi_console = s })
]

unfoldable pub hdmi_console_putc : ℕ → Panels → Panels
hdmi_console_putc ch d = mirror_to_lcd ch (hdmi_console_putc1 ch d)
