-- ===== src/Console/Panels/Both.antt =====
-- The invariants of both panels (hw_bringup/ps_linux_boot.c, `hdmi_console_putc`).
use zynq_cpu.Base.{ℕ, zero, suc, bit_and, ◌==◌, if_both}
use zynq_cpu.Console.Panel.{hdmi, lcd, hdmi-IsPanel, lcd-IsPanel}
use zynq_cpu.Console.Screen.Valid.{IsValid}
use zynq_cpu.Console.Putc.{Step, done, tab, step, space}
use zynq_cpu.Console.Putc.Valid.{putc-IsValid, step-IsValid, space-IsValid, after}
use zynq_cpu.Console.Panels.{
  Panels, mirror_to_lcd, hdmi_console_space, hdmi_tab_loop, hdmi_console_putc1, hdmi_console_putc,
}

-- Both consoles keep their invariants.
pub record BothValid (d : Panels) : Type 0 where
  pub hdmi_ok : IsValid hdmi d.hdmi_console
  pub lcd_ok : IsValid lcd d.lcd_console

mirror_to_lcd-BothValid : (ch : ℕ) (d : Panels) → BothValid d → BothValid (mirror_to_lcd ch d)
unfolding mirror_to_lcd
mirror_to_lcd-BothValid ch d v = record {
  hdmi_ok = v.hdmi_ok;
  lcd_ok = putc-IsValid lcd-IsPanel ch d.lcd_console v.lcd_ok;
}

pub hdmi_console_space-BothValid : (d : Panels) → BothValid d → BothValid (hdmi_console_space d)
unfolding hdmi_console_space
hdmi_console_space-BothValid d v =
    mirror_to_lcd-BothValid 32 (record d { hdmi_console = space hdmi d.hdmi_console })
      (record { hdmi_ok = space-IsValid hdmi-IsPanel d.hdmi_console v.hdmi_ok; lcd_ok = v.lcd_ok })

hdmi_tab_loop-BothValid : (n : ℕ) (d : Panels) → BothValid d → BothValid (hdmi_tab_loop n d)
unfolding hdmi_tab_loop
hdmi_tab_loop-BothValid zero d v = v
hdmi_tab_loop-BothValid (suc n) d v =
    let next = hdmi_console_space d in
    let v' = hdmi_console_space-BothValid d v in
    if_both BothValid (bit_and next.hdmi_console.col 7 == 0) v' (hdmi_tab_loop-BothValid n next v')

hdmi_console_putc1-BothValid :
    (ch : ℕ) (d : Panels) → BothValid d → BothValid (hdmi_console_putc1 ch d)
unfolding hdmi_console_putc1
hdmi_console_putc1-BothValid ch d v =
    split (step hdmi ch d.hdmi_console) (step-IsValid hdmi-IsPanel ch d.hdmi_console v.hdmi_ok)
  where
    split :
        (t : Step)
        → IsValid hdmi (after t)
        → BothValid (elim t [
          | done s ↦ record d { hdmi_console = s }
          | tab s ↦ hdmi_tab_loop 8 (record d { hdmi_console = s })
        ])
    split (done s) h = record { hdmi_ok = h; lcd_ok = v.lcd_ok }
    split (tab s) h =
        hdmi_tab_loop-BothValid 8 (record d { hdmi_console = s })
          (record { hdmi_ok = h; lcd_ok = v.lcd_ok })

-- Whatever byte is printed, both consoles keep their invariants.
pub hdmi_console_putc-BothValid :
    (ch : ℕ) (d : Panels) → BothValid d → BothValid (hdmi_console_putc ch d)
unfolding hdmi_console_putc
hdmi_console_putc-BothValid ch d v =
    mirror_to_lcd-BothValid ch (hdmi_console_putc1 ch d) (hdmi_console_putc1-BothValid ch d v)
