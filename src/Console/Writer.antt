-- ===== src/Console/Writer.antt =====
-- Text, numbers and the diagnostic lines (hw_bringup/ps_linux_boot.c, `hdmi_console_puts` to
-- `hdmi_diag_elapsed`, and their `lcd_` copies), over any function that takes a byte.
pub mod Digits
use zynq_cpu.Base.{
  ℕ, zero, suc, ◌+◌, ◌-◌, ◌*◌, ◌/◌, ◌%◌, ◌^◌, u8, bit_and, ◌==◌, if◌then◌else◌, List, [], ◌∷◌, ◌++◌,
  codes, Option, none, some,
}

-- while (value != 0 && count < sizeof(buf)), with `room` the bytes left in the buffer; the list
-- holds the buffer from the byte written last, which is the one printed first.
unfoldable pub digit_loop : ℕ → ℕ → List ℕ → List ℕ
digit_loop zero value buf = buf
digit_loop (suc room) value buf =
    let rest = digit_loop room (value / 10) ((b'0' + value % 10) ∷ buf) in
    if value == 0 then buf else rest

abbrev pub hex_digits : List ℕ
hex_digits = codes "0123456789abcdef"

abbrev pub char_at : List ℕ → ℕ → ℕ
char_at [] i = 0
char_at (c ∷ cs) zero = c
char_at (c ∷ cs) (suc i) = char_at cs i

-- Milliseconds between two readings of the timer, which counts `per_second` times a second;
-- the difference and the product are 64 bits wide.
unfoldable pub boot_elapsed_ms : ℕ → ℕ → ℕ → ℕ
boot_elapsed_ms per_second start now =
    ((now + 2 ^ 64 - start) % 2 ^ 64 * 1000) % 2 ^ 64 / per_second

module _ {S : Type 0} (putc : ℕ → S → S) where
  unfoldable pub puts : List ℕ → S → S
  puts [] s = s
  puts (c ∷ cs) s = puts cs (putc (u8 c) s)

  unfoldable pub put_dec_u32 : ℕ → S → S
  put_dec_u32 value s = if value == 0 then putc b'0' s else puts (digit_loop 10 value []) s

  -- for (shift = 4 * (n - 1); shift >= 0; shift -= 4)
  unfoldable pub hex_loop : ℕ → ℕ → S → S
  hex_loop zero value s = s
  hex_loop (suc n) value s =
      hex_loop n value (putc (u8 (char_at hex_digits (bit_and (value / 2 ^ (n * 4)) 0x0f))) s)

  unfoldable pub put_hex32 : ℕ → S → S
  put_hex32 value s = hex_loop 8 value (puts (codes "0x") s)

  unfoldable pub diag_prefix : List ℕ → List ℕ → S → S
  diag_prefix color tag s =
      let s1 = puts (0x1b ∷ codes "[90m[") s in
      let s2 = puts (0x1b ∷ codes "[1;36mzx32-diag") s1 in
      let s3 = puts (0x1b ∷ codes "[90m] ") s2 in
      puts (0x1b ∷ codes "[0m ") (puts tag (puts color s3))

  unfoldable pub diag_line : List ℕ → List ℕ → List ℕ → S → S
  diag_line color tag message s = putc 10 (puts message (diag_prefix color tag s))

  unfoldable pub put_kv : List ℕ → ℕ → S → S
  put_kv key value s = put_hex32 value (putc b'=' (puts key s))

  -- The second key may be NULL.
  unfoldable pub diag_kv_hex : List ℕ → List ℕ → List ℕ → ℕ → Option (List ℕ) → ℕ → S → S
  diag_kv_hex color tag key0 value0 none value1 s =
      putc 10 (put_kv key0 value0 (diag_prefix color tag s))
  diag_kv_hex color tag key0 value0 (some key1) value1 s =
      putc 10 (put_kv key1 value1 (putc b' ' (put_kv key0 value0 (diag_prefix color tag s))))

  unfoldable pub diag_elapsed : List ℕ → ℕ → S → S
  diag_elapsed label ms s =
      let s1 = diag_prefix (0x1b ∷ codes "[1;35m") (codes "TIME") s in
      let s2 = puts (codes " elapsed=") (puts label s1) in
      let s3 = putc b'.' (put_dec_u32 ((ms / 1000) % 2 ^ 32) s2) in
      let s4 = putc (u8 (b'0' + ms / 100 % 10)) s3 in
      let s5 = putc (u8 (b'0' + ms / 10 % 10)) s4 in
      putc 10 (putc b's' (putc (u8 (b'0' + ms % 10)) s5))
