-- ===== src/Console/Tests.antt =====
-- The console theorems at concrete consoles, and runs of the console code.
use zynq_cpu.Base.{
  ℕ, ◌+◌, ◌*◌, ◌≤◌, ◌<◌, ◌≡◌, ◌≢◌, refl, false, ltb, leb, ◌==◌, if◌then◌else◌, ◌&&◌, arith, u8,
  bit_and, [], ◌∷◌, ◌^◌, ◌-◌, ◌/◌, ◌%◌, for_range,
}
use zynq_cpu.Console.Panel.{lcd, lcd-IsPanel}
use zynq_cpu.Console.Screen.{Console, esc_none, repaint, clear_shadow}
use zynq_cpu.Console.Screen.Valid.{IsValid, clear_display-IsValid}
use zynq_cpu.Console.Csi.{apply_csi, param_or}
use zynq_cpu.Console.Putc.{putc}
use zynq_cpu.Console.Putc.Valid.{putc-IsValid}
use zynq_cpu.Console.Putc.Tab.{tab_stop, putc_tab}
use zynq_cpu.Console.Terminal.{Same, view, type_char}
use zynq_cpu.Console.Terminal.Typing.{putc_refines}
use zynq_cpu.Console.Terminal.Sequences.{apply_csi_refines}
use zynq_cpu.Console.Terminal.Actions.{action}
use Prim.Native.Nat.{min}
use zynq_cpu.Console.Panel.{cells}
use zynq_cpu.Console.Screen.{erase_cells}
use zynq_cpu.Console.Screen.Edges.{lcd_console_write_word-overread, erase_cells-wraps}
use zynq_cpu.Console.Csi.{apply_sgr, sgr_step, set_color, sgr_color_index}
use zynq_cpu.Console.Csi.Pen.{apply_sgr_lem, encode, decode, default_pen, select}
use zynq_cpu.Console.Putc.Sequence.{cursor_position, cursor_position_lem}
use zynq_cpu.Console.Lcd.{lcd_console_write_word}
use zynq_cpu.Console.Panels.{Panels, hdmi_console_putc}
use zynq_cpu.Console.Panels.Both.{BothValid, hdmi_console_putc-BothValid}
use zynq_cpu.Console.Panels.Tab.{InStep, hdmi_console_putc-tab}
use zynq_cpu.Console.Init.{hdmi_console_init, lcd_console_init}
use zynq_cpu.Console.Init.Ready.{hdmi_console_init-BothValid}
use zynq_cpu.Console.Writer.{put_dec_u32, puts}
use zynq_cpu.Console.Writer.Digits.{dec_digits, put_dec_u32_lem, read_dec, IsDigits, NoLeadingZero}

-- A console whose memory is all zero, and the LCD after its display is cleared.
abbrev zero_console : Console
zero_console = record {
  grid = record { text = λ c. 0; attr = λ c. 0 };
  row = 0;
  col = 0;
  text_attr = 0;
  esc_state = esc_none;
  params = λ i. 0;
  param_count = 0;
  value = 0;
  have_value = false;
  regs = λ a. 0;
}

abbrev cleared : Console
cleared = repaint lcd (clear_shadow lcd zero_console)

cleared-IsValid : IsValid lcd cleared
cleared-IsValid = clear_display-IsValid lcd-IsPanel zero_console (omega arith)

-- A sequence `CSI 5` that waits for its final byte.
abbrev asked : Console
asked = record cleared { params = λ i. 5; param_count = 1 }

asked-IsValid : IsValid lcd asked
asked-IsValid = record {
  row_in = cleared-IsValid.row_in;
  col_in = cleared-IsValid.col_in;
  attr_in = cleared-IsValid.attr_in;
  params_in = omega arith;
  shows = cleared-IsValid.shows;
}

cleared_outside : cleared.esc_state ≡ esc_none
unfolding repaint clear_shadow
cleared_outside = refl

putc-IsValid_example : IsValid lcd (putc lcd 65 cleared)
putc-IsValid_example = putc-IsValid lcd-IsPanel 65 cleared cleared-IsValid

putc_refines_example :
    Same lcd
      (view lcd (putc lcd 65 cleared))
      (type_char lcd (if leb 32 65 && leb 65 126 then 65 else b'.') (view lcd cleared))
putc_refines_example =
    putc_refines lcd-IsPanel 65 cleared cleared-IsValid cleared_outside (omega arith) (omega arith)
      (omega arith) (omega arith) (omega arith) (omega arith)

apply_csi_refines_example : Same lcd (view lcd (apply_csi lcd b'P' asked)) (
    action lcd b'P'
      (if ltb 0 asked.param_count then asked.params 0 else 0)
      (param_or asked 0 1)
      (param_or asked 1 1)
      (view lcd asked))
unfolding param_or
apply_csi_refines_example =
    apply_csi_refines lcd-IsPanel asked-IsValid b'P' (omega arith) (omega arith)

putc_tab_example :
    ((putc lcd 9 cleared).col ≡ tab_stop lcd cleared.col) × (bit_and (putc lcd 9 cleared).col 7 ≡ 0)
putc_tab_example = putc_tab lcd-IsPanel cleared cleared-IsValid cleared_outside

put_dec_u32_lem_example :
    (put_dec_u32 (λ c out. c ∷ out) 1020 [] ≡ puts (λ c out. c ∷ out) (dec_digits 1020) [])
    × (read_dec 0 (dec_digits 1020) ≡ 1020)
    × IsDigits (dec_digits 1020)
    × (◌≢◌ {A = ℕ} 1020 0 → NoLeadingZero (dec_digits 1020))
put_dec_u32_lem_example = put_dec_u32_lem (λ c out. c ∷ out) 1020 [] (omega arith)

-- Both panels, with the second console's memory like the first's.
abbrev powered : Panels
powered = record { hdmi_console = zero_console; lcd_console = zero_console }

abbrev font : ℕ → ℕ
font w = w * 3

abbrev started : Panels
started = hdmi_console_init font powered

started-BothValid : BothValid started
started-BothValid = hdmi_console_init-BothValid font powered (omega arith) (omega arith)

started-InStep : InStep 0 started
unfolding hdmi_console_init lcd_console_init repaint clear_shadow
started-InStep = record {
  valid = started-BothValid;
  hdmi_outside = refl;
  lcd_outside = refl;
  hdmi_col = refl;
  lcd_col = refl;
}

hdmi_console_putc-BothValid_example : BothValid (hdmi_console_putc 65 started)
hdmi_console_putc-BothValid_example = hdmi_console_putc-BothValid 65 started started-BothValid

hdmi_console_init-BothValid_example : BothValid (hdmi_console_init font powered)
hdmi_console_init-BothValid_example =
    hdmi_console_init-BothValid font powered (omega arith) (omega arith)

hdmi_console_putc-tab_example :
    ((hdmi_console_putc 9 started).hdmi_console.col ≡ (0 / 8 + 1) * 8)
    × ((hdmi_console_putc 9 started).lcd_console.col ≡ (0 / 8 + 2) * 8)
hdmi_console_putc-tab_example = hdmi_console_putc-tab 0 started (omega arith) started-InStep

cursor_position_lem_example :
    ((puts (putc lcd) (cursor_position 3 12) cleared).row ≡ min (3 - 1) (lcd.rows - 1))
    × ((puts (putc lcd) (cursor_position 3 12) cleared).col ≡ min (12 - 1) (lcd.cols - 1))
    × ((puts (putc lcd) (cursor_position 3 12) cleared).grid ≡ cleared.grid)
    × ((puts (putc lcd) (cursor_position 3 12) cleared).esc_state ≡ esc_none)
cursor_position_lem_example =
    cursor_position_lem lcd-IsPanel 3 12 cleared (omega arith) (omega arith) cleared_outside

-- `CSI 1 ; 3 5`, which waits for its `m`.
abbrev bold_magenta : Console
bold_magenta = record zero_console { params = λ i. if i == 0 then 1 else 35; param_count = 2 }

apply_sgr_lem_example :
    (apply_sgr bold_magenta).text_attr
    ≡ encode (
        if bold_magenta.param_count == 0
        then default_pen false
        else for_range bold_magenta.param_count 0
            (λ i. select (bold_magenta.params i))
            (decode bold_magenta.text_attr))
apply_sgr_lem_example = apply_sgr_lem bold_magenta (omega arith)

lcd_console_write_word-overread_example :
    (254 * 4 + 3 < cells lcd)
    × (cells lcd ≤ 1023)
    × (lcd_console_write_word zero_console.grid 254 (λ a. 0) (lcd.attr_base + 127 * 4) / 2 ^ 28 % 16
        ≡ bit_and (u8 (zero_console.grid.attr 1023)) 0x0f)
lcd_console_write_word-overread_example = lcd_console_write_word-overread zero_console.grid (λ a. 0)

-- The LCD with its cursor in column 1.
abbrev moved : Console
moved = record cleared { col = 1 }

moved-IsValid : IsValid lcd moved
moved-IsValid = record {
  row_in = cleared-IsValid.row_in;
  col_in = omega arith;
  attr_in = cleared-IsValid.attr_in;
  params_in = cleared-IsValid.params_in;
  shows = cleared-IsValid.shows;
}

erase_cells-wraps_example : erase_cells lcd 0xFFFF_FFFF moved ≡ moved
erase_cells-wraps_example =
    erase_cells-wraps lcd-IsPanel moved 0xFFFF_FFFF moved-IsValid (omega arith) (omega arith)

-- A bold magenta has the attribute 13.
bold_magenta_attr : (apply_sgr bold_magenta).text_attr ≡ 13
unfolding apply_sgr sgr_step set_color sgr_color_index for_range
bold_magenta_attr = refl
