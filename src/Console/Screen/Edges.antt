-- ===== src/Console/Screen/Edges.antt =====
-- Two edges of the drawing code (hw_bringup/ps_linux_boot.c): the LCD's last attribute word, and a
-- count that wraps.
use zynq_cpu.Base.{
  ℕ, ◌+◌, ◌*◌, ◌/◌, ◌%◌, ◌^◌, ◌≤◌, ◌<◌, ◌≡◌, Store, update, u8, bit_and, arith, add32, word, lt→leb,
  ◌==◌, if◌then◌else◌, ltb,
}
use zynq_cpu.Console.Panel.{Panel, cells, IsPanel, lcd}
use zynq_cpu.Console.Grid.{Grid}
use zynq_cpu.Console.Grid.Edits.{cell_exact}
use zynq_cpu.Console.Screen.{Console, write_attr_word, write_word, clear_cell_range, erase_cells}
use zynq_cpu.Console.Screen.Packing.{attr_field}
use zynq_cpu.Console.Screen.Valid.{IsValid}
use zynq_cpu.Console.Lcd.{lcd_console_write_word}

-- The write of the LCD's last text word, which holds cells of the panel alone, reads an attribute
-- that lies past the end of the attribute array, and writes it to the display.
pub lcd_console_write_word-overread :
    (g : Grid) (regs : Store)
    → (254 * 4 + 3 < cells lcd)
      × (cells lcd ≤ 1023)
      × (lcd_console_write_word g 254 regs (lcd.attr_base + 127 * 4) / 2 ^ 28 % 16
          ≡ bit_and (u8 (g.attr 1023)) 0x0f)
unfolding write_word write_attr_word update
lcd_console_write_word-overread g regs =
    (omega arith, omega arith, attr_field g.attr 1016 7 (omega arith))

-- A count that carries the column past 2^32 erases nothing, where every other count erases at
-- least the cell under the cursor.
pub erase_cells-wraps :
    {p : Panel}
    → IsPanel p
    → (s : Console) (count : ℕ) → IsValid p s
    → count < word
    → word ≤ s.col + count
    → erase_cells p count s ≡ s
unfolding erase_cells clear_cell_range
erase_cells-wraps {p} ok s count v h wraps =
    let end = add32 s.col count in
    let same : (if count == 0 then 1 else count) ≡ count = ground arith in
    let back : end < s.col = omega (arith, v.col_in, ok.narrow) in
    let clip : (if ltb p.cols end then p.cols else end) ≡ end = ground (arith, v.col_in) in
    let here = cell_exact ok s.row s.col v.row_in (omega (arith, v.col_in)) in
    let there = cell_exact ok s.row end v.row_in (omega (arith, v.col_in)) in
    rw (same, clip, lt→leb p.rows s.row v.row_in, lt→leb p.cols s.col v.col_in)
      (ground (arith, here, there))
