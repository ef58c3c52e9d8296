-- ===== src/Bridge/Mirror.antt =====
-- Showing what Linux prints (hw_bringup/ps_linux_boot.c, `print_linux_console_mirror`): the bytes of
-- the ring go to the UART and to the HDMI console, lines are coloured by their log level, and the
-- markers raise events.
pub mod Loop
pub mod Bytes
pub mod Shown
pub mod Drain
use zynq_cpu.Base.{
  ℕ, zero, suc, ◌+◌, ◌-◌, ◌*◌, ◌/◌, ◌%◌, ◌^◌, Store, update, word, add32, sub32, bit_and, bit_or,
  ltb, leb, ◌==◌, not, ◌&&◌, ◌||◌, if◌then◌else◌, Bool, true, false, List, [], ◌∷◌, ◌++◌, codes,
  length, u8,
}
use zynq_cpu.Console.Writer.{char_at, puts}
use zynq_cpu.Bridge.{ring_base, ring_head, ring_total, ring_bytes}
use zynq_cpu.Bridge.Markers.{idle_marker, welcome_marker, login_marker, diag_marker, match_step}

-- The static variables of the function.
pub record Mirror : Type 0 where
  pub idle_match : ℕ
  pub welcome_match : ℕ
  pub login_match : ℕ
  pub diag_match : ℕ
  pub at_line_start : Bool
  pub diag_scan : Bool
  pub colored_line : Bool
  pub hdmi_colored_line : Bool
  pub loglevel_match : ℕ

unfoldable pub linux_loglevel_color : ℕ → List ℕ
linux_loglevel_color level =
    if leb level 3
    then 0x1b ∷ codes "[31m"
    else if level == 4
    then 0x1b ∷ codes "[33m"
    else if level == 5
    then 0x1b ∷ codes "[34m"
    else if level == 6
    then 0x1b ∷ codes "[32m"
    else if level == 7
    then 0x1b ∷ codes "[90m"
    else []

-- The byte of the ring that was written as number `index`.
unfoldable pub ring_byte : Store → ℕ → ℕ
ring_byte scratch index =
    let idx = bit_and index (ring_bytes - 1) in
    bit_and (scratch (ring_base + bit_and idx 0xFFFF_FFFC) / 2 ^ (bit_and idx 3 * 8)) 0xff

-- The three event markers: bit 0 for the idle marker, bit 1 for the welcome, bit 2 for the login.
unfoldable pub match_events : ℕ → Mirror → ℕ → Mirror × ℕ
match_events ch m events =
    let (idle, i) = match_step idle_marker m.idle_match ch in
    let (welcome, w) = match_step welcome_marker m.welcome_match ch in
    let (login, l) = match_step login_marker m.login_match ch in
    let e1 = if i then bit_or events 1 else events in
    let e2 = if w then bit_or e1 2 else e1 in
    (
      record m { idle_match = idle; welcome_match = welcome; login_match = login },
      if l then bit_or e2 4 else e2,
    )

-- `hdmi_putc` takes a byte for the HDMI console, and `uart_putc` one for the UART.
module _ {S : Type 0} (hdmi_putc uart_putc : ℕ → S → S) where
  unfoldable pub end_line : ℕ → Mirror → S → Mirror × S
  end_line ch m s =
      let reset = 0x1b ∷ codes "[0m" in
      let s1 =
        if m.colored_line
        then puts hdmi_putc reset (puts uart_putc reset s)
        else if m.hdmi_colored_line
        then puts hdmi_putc reset s
        else s in
      (
        record m {
          colored_line = false;
          hdmi_colored_line = false;
          at_line_start = true;
          diag_scan = true;
          diag_match = 0;
          loglevel_match = 0;
        },
        hdmi_putc ch (puts uart_putc (13 ∷ 10 ∷ []) s1),
      )

  -- A log level `<n>` at the start of a line: whether the byte belongs to it, and what follows.
  unfoldable pub scan_loglevel : ℕ → Mirror → S → Bool × Mirror × S
  scan_loglevel ch m s =
      let color = linux_loglevel_color (ch - b'0') in
      if m.loglevel_match == 1
      then (if leb b'0' ch && leb ch b'7'
          then (
            true,
            record m { colored_line = true; loglevel_match = 2 },
            puts hdmi_putc color (puts uart_putc color s),
          )
          else (false, record m { at_line_start = false; loglevel_match = 0 }, s))
      else if m.loglevel_match == 2
      then (if ch == b'>'
          then (true, record m { at_line_start = false; loglevel_match = 0 }, s)
          else (false, record m { loglevel_match = 0 }, s))
      else if m.at_line_start
      then (if ch == b'<'
          then (true, record m { loglevel_match = 1 }, s)
          else (false, record m { at_line_start = false }, s))
      else (false, m, s)

  -- The diagnostic marker at the start of a line: whether it is complete, and what follows.
  unfoldable pub scan_diag : Bool → ℕ → Mirror → S → Bool × Mirror × S
  scan_diag prefix ch m s =
      let first = m.diag_match == 0 in
      let s1 = if first then puts hdmi_putc (0x1b ∷ codes "[1;36m") s else s in
      let m1 = if first then record m { hdmi_colored_line = true } else m in
      if not m.diag_scan
      then (false, m, s)
      else if first && (prefix || (m.loglevel_match == 1 || m.loglevel_match == 2))
      then (false, m, s)
      else if ch == char_at diag_marker m.diag_match
      then (if m.diag_match + 1 == length diag_marker
          then (true, record m1 { diag_scan = false; diag_match = 0 }, s1)
          else (false, record m1 { diag_match = m.diag_match + 1 }, s1))
      else (false, record m { diag_scan = false; diag_match = 0 }, s)

  -- A byte that is neither a line feed nor a carriage return.
  unfoldable pub show_byte : ℕ → Mirror → S → Mirror × S
  show_byte ch m s =
      let (prefix, m1, s1) = scan_loglevel ch m s in
      let (complete, m2, s2) = scan_diag prefix ch m1 s1 in
      let s3 = hdmi_putc ch (uart_putc ch s2) in
      if complete
      then (
        record m2 { hdmi_colored_line = true },
        puts hdmi_putc ((0x1b ∷ codes "[0m") ++ (0x1b ∷ codes "[90m")) s3,
      )
      else (m2, s3)

  unfoldable pub mirror_byte : ℕ → Mirror → S → Mirror × S
  mirror_byte ch m s =
      if ch == 10 then end_line ch m s else if ch == 13 then (m, s) else show_byte ch m s
