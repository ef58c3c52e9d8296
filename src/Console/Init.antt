-- ===== src/Console/Init.antt =====
-- Setting up the consoles (hw_bringup/ps_linux_boot.c, `hdmi_console_init`, `lcd_console_init` and
-- the font uploads). `font` stands for the table of the generated font header. The waits between
-- the register writes have no effect here.
pub mod Ready
use zynq_cpu.Base.{ℕ, ◌+◌, Store, update, add32, mul32, for_range}
use zynq_cpu.Console.Panel.{Panel, hdmi, lcd}
use zynq_cpu.Console.Screen.{Console, repaint, clear_shadow}
use zynq_cpu.Console.Lcd.{LcdState, lcd_console_repaint, lcd_console_clear_shadow}
use zynq_cpu.Console.Panels.{Panels}

-- ZX32_CONSOLE_FONT8X16_WORDS
abbrev pub font_words : ℕ
font_words = 512

module _ (font : Store) where
  unfoldable pub upload_font : Panel → Store → Store
  upload_font p = for_range font_words 0 (λ w. update (add32 p.font_base (mul32 w 4)) (font w))

  -- The background, the font, and the text plane cleared and enabled.
  unfoldable pub start_display : Panel → Store → Store
  start_display p regs = update (p.base + 0x24) 3 (upload_font p (update (p.base + 0x18) 0 regs))

  unfoldable pub lcd_console_init : LcdState → LcdState
  lcd_console_init s =
      let s1 = lcd_console_clear_shadow s in
      let s2 = lcd_console_repaint (record s1 { regs = start_display lcd s1.regs }) in
      record s2 { regs = update (lcd.base + 0x00) 1 s2.regs }

  -- HDMI sets its video mode first, and ends with the LCD's setup.
  unfoldable pub hdmi_console_init : Panels → Panels
  hdmi_console_init d =
      let s1 = clear_shadow hdmi d.hdmi_console in
      let moded = update (hdmi.base + 0x14) 2 s1.regs in
      let s2 = repaint hdmi (record s1 { regs = start_display hdmi moded }) in
      let on = record s2 { regs = update (hdmi.base + 0x00) 1 s2.regs } in
      record { hdmi_console = on; lcd_console = lcd_console_init d.lcd_console }
