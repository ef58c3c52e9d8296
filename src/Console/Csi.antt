-- ===== src/Console/Csi.antt =====
-- Escape sequences (hw_bringup/ps_linux_boot.c, `hdmi_csi_param_or` to
-- `hdmi_console_consume_ansi`, and their `lcd_` copies).
pub mod Valid
pub mod Pen
use zynq_cpu.Base.{
  ℕ, ◌+◌, ◌-◌, update, u8, add32, mul32, for_range, bit_and, bit_or, ltb, leb, ◌==◌, if◌then◌else◌,
  Bool, true, false, ◌&&◌, ◌||◌, Option, none, some,
}
use zynq_cpu.Console.Panel.{Panel, cells}
use zynq_cpu.Console.Grid.{cell}
use zynq_cpu.Console.Screen.{
  EscState, esc_none, esc_esc, esc_csi, Console, repaint, clear_shadow, clear_cell_range,
  insert_cells, delete_cells, erase_cells, set_cursor,
}

unfoldable pub param_or : Console → ℕ → ℕ → ℕ
param_or s index default =
    if leb s.param_count index
    then default
    else if s.params index == 0
    then default
    else s.params index

unfoldable pub push_param : Console → Console
push_param s =
    let s' =
      if ltb s.param_count 4
      then (record s {
        params = update s.param_count (if s.have_value then s.value else 0) s.params;
        param_count = s.param_count + 1;
      })
      else s in
    record s' { value = 0; have_value = false }

unfoldable pub csi_reset : Console → Console
csi_reset s = record s {
  params = for_range 4 0 (λ i. update i 0) s.params;
  param_count = 0;
  value = 0;
  have_value = false;
}

-- The colour goes through a pointer, and the result says whether there is one.
unfoldable pub sgr_color_index : ℕ → Option ℕ
sgr_color_index sgr =
    if leb 30 sgr && leb sgr 37
    then some (u8 (sgr - 30))
    else if leb 90 sgr && leb sgr 97
    then some (u8 (8 + sgr - 90))
    else none

-- The attribute and the flag `bright`, after a colour, if there is one.
unfoldable pub set_color : Option ℕ → ℕ × Bool → ℕ × Bool
set_color none (attr, bright) = (attr, bright)
set_color (some color) (attr, bright) =
    (if bright && ltb color 8 then u8 (bit_or color 0x08) else color, bright)

-- The same, after one parameter.
unfoldable pub sgr_step : ℕ → ℕ × Bool → ℕ × Bool
sgr_step q (attr, bright) =
    if q == 0
    then (0x07, false)
    else if q == 1
    then (u8 (bit_or (bit_and attr 0x07) 0x08), true)
    else if q == 22
    then (u8 (bit_and attr 0xf7), false)
    else if q == 39
    then (0x07, bright)
    else set_color (sgr_color_index q) (attr, bright)

unfoldable pub apply_sgr : Console → Console
apply_sgr s = if s.param_count == 0 then record s { text_attr = 0x07 } else record s {
  text_attr = (for_range s.param_count 0 (λ i. sgr_step (s.params i)) (s.text_attr, false)).0;
}

-- The two moves that do not go through `set_cursor`.
unfoldable pub cursor_up : ℕ → Console → Console
cursor_up n s = record s { row = if ltb s.row n then 0 else s.row - n }

unfoldable pub cursor_left : ℕ → Console → Console
cursor_left n s = record s { col = if ltb s.col n then 0 else s.col - n }

module _ (p : Panel) where
  unfoldable pub erase_display : ℕ → Console → Console
  erase_display p0 s =
      if p0 == 2 || p0 == 3
      then repaint p (clear_shadow p s)
      else if p0 == 1
      then clear_cell_range p 0 (add32 (cell p s.row s.col) 1) s
      else clear_cell_range p (cell p s.row s.col) (cells p) s

  unfoldable pub erase_line : ℕ → Console → Console
  erase_line p0 s =
      if p0 == 2
      then clear_cell_range p (cell p s.row 0) (add32 (cell p s.row 0) p.cols) s
      else if p0 == 1
      then clear_cell_range p (cell p s.row 0) (add32 (cell p s.row s.col) 1) s
      else clear_cell_range p (cell p s.row s.col) (add32 (cell p s.row (p.cols - 1)) 1) s

  -- `param_or s i 1` is not 0, so the subtractions below do not wrap.
  unfoldable pub apply_csi : ℕ → Console → Console
  apply_csi ch s =
      let p0 = if ltb 0 s.param_count then s.params 0 else 0 in
      let n = param_or s 0 1 in
      if ch == b'@'
      then insert_cells p n s
      else if ch == b'J'
      then erase_display p0 s
      else if ch == b'K'
      then erase_line p0 s
      else if ch == b'X'
      then erase_cells p n s
      else if ch == b'P'
      then delete_cells p n s
      else if ch == b'H' || ch == b'f'
      then set_cursor p (n - 1) (param_or s 1 1 - 1) s
      else if ch == b'G'
      then set_cursor p s.row (n - 1) s
      else if ch == b'A'
      then cursor_up n s
      else if ch == b'B'
      then set_cursor p (add32 s.row n) s.col s
      else if ch == b'E'
      then set_cursor p (add32 s.row n) 0 s
      else if ch == b'F'
      then set_cursor p (if ltb s.row n then 0 else s.row - n) 0 s
      else if ch == b'C'
      then set_cursor p s.row (add32 s.col n) s
      else if ch == b'D'
      then cursor_left n s
      else if ch == b'd'
      then set_cursor p (n - 1) s.col s
      else if ch == b'm'
      then apply_sgr s
      else s

  -- In the state CSI.
  unfoldable pub consume_csi : ℕ → Console → Console
  consume_csi ch s =
      if leb b'0' ch && leb ch b'9'
      then record s { value = add32 (mul32 s.value 10) (ch - b'0'); have_value = true }
      else if ch == b';'
      then push_param s
      else if ch == b'?' || (ch == b' ' || ch == b'=')
      then s
      else if leb 0x40 ch && leb ch 0x7e
      then (let s' = if s.have_value || s.param_count == 0 then push_param s else s in
          record (apply_csi ch s') { esc_state = esc_none })
      else record s { esc_state = esc_none }

  -- `consume` by the state it finds: whether the byte was taken, and the new state.
  unfoldable pub consume_in : EscState → ℕ → Console → Bool × Console
  consume_in esc_none ch s =
      if ch == 0x1b then (true, record s { esc_state = esc_esc }) else (false, s)
  consume_in esc_esc ch s = (
    true,
    if ch == b'['
        then record (csi_reset s) { esc_state = esc_csi }
        else if ch == 0x1b
        then record s { esc_state = esc_esc }
        else record s { esc_state = esc_none },
  )
  consume_in esc_csi ch s = (true, consume_csi ch s)

  unfoldable pub consume_ansi : ℕ → Console → Bool × Console
  consume_ansi ch s = consume_in s.esc_state ch s
