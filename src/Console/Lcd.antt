-- ===== src/Console/Lcd.antt =====
-- The LCD's copy of the console (hw_bringup/ps_linux_boot.c, the `lcd_` functions): the same code
-- over the constants of display 2, and over its own static variables.
use zynq_cpu.Base.{ℕ, Store, List, Option, Bool}
use zynq_cpu.Console.Panel.{lcd}
use zynq_cpu.Console.Grid.{Grid}
use zynq_cpu.Console.Screen.{
  Console, write_attr_word, write_word, repaint, clear_shadow, scroll, newline, put_cell,
  clear_cell_range, rewrite_row_words, insert_cells, delete_cells, erase_cells, set_cursor,
}
use zynq_cpu.Console.Csi.{
  param_or, push_param, csi_reset, sgr_color_index, apply_sgr, apply_csi, consume_ansi,
}
use zynq_cpu.Console.Putc.{putc}
use zynq_cpu.Console.Writer.{
  puts, put_dec_u32, put_hex32, diag_prefix, diag_line, diag_kv_hex, diag_elapsed,
}

-- The LCD's static variables.
abbrev pub LcdState : Type 0
LcdState = Console

abbrev pub lcd_console_write_attr_word : Grid → ℕ → Store → Store
lcd_console_write_attr_word = write_attr_word lcd

abbrev pub lcd_console_write_word : Grid → ℕ → Store → Store
lcd_console_write_word = write_word lcd

abbrev pub lcd_console_repaint : LcdState → LcdState
lcd_console_repaint = repaint lcd

abbrev pub lcd_console_clear_shadow : LcdState → LcdState
lcd_console_clear_shadow = clear_shadow lcd

abbrev pub lcd_console_scroll : LcdState → LcdState
lcd_console_scroll = scroll lcd

abbrev pub lcd_console_newline : LcdState → LcdState
lcd_console_newline = newline lcd

abbrev pub lcd_console_put_cell : ℕ → ℕ → ℕ → LcdState → LcdState
lcd_console_put_cell = put_cell lcd

abbrev pub lcd_console_clear_cell_range : ℕ → ℕ → LcdState → LcdState
lcd_console_clear_cell_range = clear_cell_range lcd

abbrev pub lcd_console_rewrite_row_words : ℕ → ℕ → ℕ → LcdState → LcdState
lcd_console_rewrite_row_words = rewrite_row_words lcd

abbrev pub lcd_console_insert_cells : ℕ → LcdState → LcdState
lcd_console_insert_cells = insert_cells lcd

abbrev pub lcd_console_delete_cells : ℕ → LcdState → LcdState
lcd_console_delete_cells = delete_cells lcd

abbrev pub lcd_console_erase_cells : ℕ → LcdState → LcdState
lcd_console_erase_cells = erase_cells lcd

abbrev pub lcd_console_set_cursor : ℕ → ℕ → LcdState → LcdState
lcd_console_set_cursor = set_cursor lcd

abbrev pub lcd_csi_param_or : LcdState → ℕ → ℕ → ℕ
lcd_csi_param_or = param_or

abbrev pub lcd_csi_push_param : LcdState → LcdState
lcd_csi_push_param = push_param

abbrev pub lcd_csi_reset : LcdState → LcdState
lcd_csi_reset = csi_reset

abbrev pub lcd_sgr_color_index : ℕ → Option ℕ
lcd_sgr_color_index = sgr_color_index

abbrev pub lcd_console_apply_sgr : LcdState → LcdState
lcd_console_apply_sgr = apply_sgr

abbrev pub lcd_console_apply_csi : ℕ → LcdState → LcdState
lcd_console_apply_csi = apply_csi lcd

abbrev pub lcd_console_consume_ansi : ℕ → LcdState → Bool × LcdState
lcd_console_consume_ansi = consume_ansi lcd

abbrev pub lcd_console_putc : ℕ → LcdState → LcdState
lcd_console_putc = putc lcd

abbrev pub lcd_console_puts : List ℕ → LcdState → LcdState
lcd_console_puts = puts lcd_console_putc

abbrev pub lcd_console_put_dec_u32 : ℕ → LcdState → LcdState
lcd_console_put_dec_u32 = put_dec_u32 lcd_console_putc

abbrev pub lcd_console_put_hex32 : ℕ → LcdState → LcdState
lcd_console_put_hex32 = put_hex32 lcd_console_putc

abbrev pub lcd_diag_prefix : List ℕ → List ℕ → LcdState → LcdState
lcd_diag_prefix = diag_prefix lcd_console_putc

abbrev pub lcd_diag_line : List ℕ → List ℕ → List ℕ → LcdState → LcdState
lcd_diag_line = diag_line lcd_console_putc

abbrev pub lcd_diag_kv_hex :
    List ℕ → List ℕ → List ℕ → ℕ → Option (List ℕ) → ℕ → LcdState → LcdState
lcd_diag_kv_hex = diag_kv_hex lcd_console_putc

abbrev pub lcd_diag_elapsed : List ℕ → ℕ → LcdState → LcdState
lcd_diag_elapsed = diag_elapsed lcd_console_putc
