-- ===== src/Console/Terminal/Actions.antt =====
-- What a control sequence asks of a terminal, with no words that wrap
-- (hw_bringup/ps_linux_boot.c, `hdmi_console_apply_csi`).
use zynq_cpu.Base.{ℕ, ◌+◌, ◌-◌, ◌==◌, if◌then◌else◌, ◌||◌}
use Prim.Native.Nat.{min}
use zynq_cpu.Console.Panel.{Panel}
use zynq_cpu.Console.Terminal.{Terminal, insert, delete, erase}

module _ (p : Panel) where
  -- The cursor to a position, or to the nearest one on the panel.
  abbrev pub goto : ℕ → ℕ → Terminal → Terminal
  goto row col t = record t { row = min row (p.rows - 1); col = min col (p.cols - 1) }

  -- An empty display, with the cursor at its start and the pen that it begins with.
  abbrev pub fresh : Terminal
  fresh = record { glyph = λ r c. (32, 0x07); row = 0; col = 0; pen = 0x07 }

  abbrev pub erase_in_display : ℕ → Terminal → Terminal
  erase_in_display p0 t =
      if p0 == 2 || p0 == 3
      then fresh
      else if p0 == 1
      then erase 0 0 t.row (t.col + 1) t
      else erase t.row t.col p.rows 0 t

  abbrev pub erase_in_line : ℕ → Terminal → Terminal
  erase_in_line p0 t =
      if p0 == 2
      then erase t.row 0 t.row p.cols t
      else if p0 == 1
      then erase t.row 0 t.row (t.col + 1) t
      else erase t.row t.col t.row p.cols t

  -- The sequences but SGR: `p0` is the first parameter as it stands, `n` and `m` are the first two
  -- with 1 for a parameter that is 0 or left out.
  abbrev pub action : ℕ → ℕ → ℕ → ℕ → Terminal → Terminal
  action ch p0 n m t =
      if ch == b'@'
      then insert p n t
      else if ch == b'J'
      then erase_in_display p0 t
      else if ch == b'K'
      then erase_in_line p0 t
      else if ch == b'X'
      then erase t.row t.col t.row (min (t.col + n) p.cols) t
      else if ch == b'P'
      then delete p n t
      else if ch == b'H' || ch == b'f'
      then goto (n - 1) (m - 1) t
      else if ch == b'G'
      then goto t.row (n - 1) t
      else if ch == b'A'
      then record t { row = t.row - n }
      else if ch == b'B'
      then goto (t.row + n) t.col t
      else if ch == b'E'
      then goto (t.row + n) 0 t
      else if ch == b'F'
      then goto (t.row - n) 0 t
      else if ch == b'C'
      then goto t.row (t.col + n) t
      else if ch == b'D'
      then record t { col = t.col - n }
      else if ch == b'd'
      then goto (n - 1) t.col t
      else t
