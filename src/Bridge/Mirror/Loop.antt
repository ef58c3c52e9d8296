-- ===== src/Bridge/Mirror/Loop.antt =====
-- The loop over the ring, and the whole of `print_linux_console_mirror`
-- (hw_bringup/ps_linux_boot.c).
use zynq_cpu.Base.{
  ℕ, zero, suc, Store, update, add32, sub32, ltb, ◌==◌, if◌then◌else◌, Bool, true, [], ◌∷◌, ◌++◌,
  codes,
}
use zynq_cpu.Console.Writer.{puts, put_dec_u32}
use zynq_cpu.Bridge.{ring_head, ring_total, ring_bytes}
use zynq_cpu.Bridge.Mirror.{Mirror, ring_byte, match_events, mirror_byte}

-- The static variables, the caller's counter and flag, the scratch memory, the output, and the
-- events so far.
pub record Mirrored (S : Type 0) : Type 0 where
  pub mirror : Mirror
  pub last_total : ℕ
  pub started : Bool
  pub scratch : Store
  pub sink : S
  pub events : ℕ

module _ {S : Type 0} (hdmi_putc uart_putc : ℕ → S → S) where
  -- One byte of the ring, which is then given back.
  unfoldable pub mirror_next : Mirrored S → Mirrored S
  mirror_next b =
      let ch = ring_byte b.scratch b.last_total in
      let (m1, s1) = mirror_byte hdmi_putc uart_putc ch b.mirror b.sink in
      let (m2, e2) = match_events ch m1 b.events in
      record b {
        mirror = m2;
        last_total = add32 b.last_total 1;
        scratch = update ring_head (add32 b.last_total 1) b.scratch;
        sink = s1;
        events = e2;
      }

  -- while (*last_total != total)
  unfoldable pub mirror_loop : ℕ → ℕ → Mirrored S → Mirrored S
  mirror_loop zero total b = b
  mirror_loop (suc fuel) total b =
      let rest = mirror_loop fuel total (mirror_next b) in if b.last_total == total then b else rest

  -- The title, once.
  unfoldable pub mirror_start : Mirrored S → Mirrored S
  mirror_start b =
      let title = codes "Linux SBI console mirror" in
      let s1 = puts uart_putc ((13 ∷ 10 ∷ []) ++ title ++ (13 ∷ 10 ∷ [])) b.sink in
      let s2 =
        puts hdmi_putc ((10 ∷ 0x1b ∷ codes "[1;34m") ++ title ++ (0x1b ∷ codes "[0m") ++ (10 ∷ []))
          s1 in
      if b.started then b else record b { sink = s2; started = true }

  -- What the ring no longer holds is skipped.
  unfoldable pub mirror_skip : ℕ → Mirrored S → Mirrored S
  mirror_skip total b =
      let behind = sub32 total b.last_total in
      let s1 = puts uart_putc ((13 ∷ 10 ∷ []) ++ codes "[linux console skipped ") b.sink in
      let s2 = put_dec_u32 uart_putc (sub32 behind ring_bytes) s1 in
      let s3 = puts uart_putc (codes " chars]" ++ (13 ∷ 10 ∷ [])) s2 in
      let s4 = puts hdmi_putc ((10 ∷ []) ++ codes "[linux console skipped]" ++ (10 ∷ [])) s3 in
      if ltb ring_bytes behind
      then record b { last_total = sub32 total ring_bytes; sink = s4 }
      else b

  -- The loop gets as many rounds as the ring has bytes.
  unfoldable pub print_linux_console_mirror : Mirrored S → Mirrored S
  print_linux_console_mirror b =
      let total = b.scratch ring_total in
      if total == b.last_total
      then record b { events = 0 }
      else mirror_loop 256 total (mirror_skip total (mirror_start (record b { events = 0 })))
