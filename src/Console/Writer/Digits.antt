-- ===== src/Console/Writer/Digits.antt =====
-- What the printed digits stand for (hw_bringup/ps_linux_boot.c, `hdmi_console_put_dec_u32` and
-- `hdmi_console_put_hex32`).
use zynq_cpu.Base.{
  ℕ, zero, suc, ◌+◌, ◌-◌, ◌*◌, ◌/◌, ◌%◌, ◌^◌, ◌≤◌, ◌<◌, ◌≡◌, ◌≢◌, refl, ◌∙◌, ◌==◌, leb,
  if◌then◌else◌, bit_and, List, [], ◌∷◌, codes, arith, ap, if_both, ==_iff, true, false, Bool-cases,
  inl, inr,
}
use native.Mathlib.Nat.{pow-suc}
use zynq_cpu.Base.Bits.{bit_and_fifteen, all_below, all_below_sound}
use zynq_cpu.Console.Writer.{
  digit_loop, hex_digits, char_at, put_dec_u32, puts, hex_loop, put_hex32,
}

-- Reading a decimal numeral on from `acc`.
unfoldable pub read_dec : ℕ → List ℕ → ℕ
read_dec acc [] = acc
read_dec acc (d ∷ ds) = read_dec (acc * 10 + (d - b'0')) ds

abbrev pub IsDigits : List ℕ → Type 0
IsDigits [] = Unit {0}
IsDigits (d ∷ ds) = (b'0' ≤ d) × (d ≤ b'9') × IsDigits ds

-- The digits that `put_dec_u32` prints.
abbrev pub dec_digits : ℕ → List ℕ
dec_digits value = if value == 0 then b'0' ∷ [] else digit_loop 10 value []

digit_loop_reads :
    (room value : ℕ) (buf : List ℕ)
    → value < 10 ^ room
    → read_dec 0 (digit_loop room value buf) ≡ read_dec value buf
unfolding digit_loop read_dec
digit_loop_reads zero value buf h = let e : value ≡ 0 = omega arith in rw e
digit_loop_reads (suc room) value buf h = elim (Bool-cases (value == 0)) [
  | inl e ↦ rw e (ground arith)
  | inr ne ↦
      let e : value / 10 * 10 + (b'0' + value % 10 - b'0') ≡ value = omega arith in
      rw ne (
        digit_loop_reads room (value / 10) ((b'0' + value % 10) ∷ buf)
          (omega (arith, pow-suc 10 room))
        ∙ ap (λ k. read_dec k buf) e)
]

digit_loop-IsDigits :
    (room value : ℕ) (buf : List ℕ) → IsDigits buf → IsDigits (digit_loop room value buf)
unfolding digit_loop
digit_loop-IsDigits zero value buf h = h
digit_loop-IsDigits (suc room) value buf h = if_both IsDigits (value == 0) h (
    digit_loop-IsDigits room (value / 10) ((b'0' + value % 10) ∷ buf) (omega arith, omega arith, h))

-- The first character is no zero.
abbrev pub NoLeadingZero : List ℕ → Type 0
NoLeadingZero [] = ⊥
NoLeadingZero (d ∷ ds) = d ≢ b'0'

digit_loop-NoLeadingZero :
    (room value : ℕ) (buf : List ℕ)
    → 0 < value
    → value < 10 ^ room
    → NoLeadingZero (digit_loop room value buf)
unfolding digit_loop
digit_loop-NoLeadingZero zero value buf pos h = absurd (omega arith)
digit_loop-NoLeadingZero (suc room) value buf pos h =
    let more : (value == 0) ≡ false = ground arith in
    elim (Bool-cases (value / 10 == 0)) [
      | inl last ↦ rw more (leads room (value / 10) ((b'0' + value % 10) ∷ buf) last (ground arith))
      | inr longer ↦ rw more (
          digit_loop-NoLeadingZero room (value / 10) ((b'0' + value % 10) ∷ buf) (ground arith)
            (omega (arith, pow-suc 10 room)))
    ]
  where
    leads :
        (n rest : ℕ) (ds : List ℕ)
        → (rest == 0) ≡ true
        → NoLeadingZero ds
        → NoLeadingZero (digit_loop n rest ds)
    leads zero rest ds e k = k
    leads (suc n) rest ds e k = rw e k

pub dec_digits_lem :
    (value : ℕ)
    → value < 2 ^ 32
    → (read_dec 0 (dec_digits value) ≡ value)
      × IsDigits (dec_digits value)
      × (value ≢ 0 → NoLeadingZero (dec_digits value))
unfolding read_dec
dec_digits_lem value h = elim (Bool-cases (value == 0)) [
  | inl e ↦ rw e (ground arith, (omega arith, omega arith, tt), λ ne. absurd (ground arith))
  | inr ne ↦ rw ne (
    digit_loop_reads 10 value [] (omega arith),
    digit_loop-IsDigits 10 value [] tt,
    λ k. digit_loop-NoLeadingZero 10 value [] (omega arith) (omega arith),
  )
]

put_dec_u32-puts :
    {S : Type 0} (putc : ℕ → S → S) (value : ℕ) (s : S)
    → put_dec_u32 putc value s ≡ puts putc (dec_digits value) s
unfolding put_dec_u32 puts
put_dec_u32-puts putc value s = elim (Bool-cases (value == 0)) [ inl e ↦ rw e | inr ne ↦ rw ne ]

-- `put_dec_u32` prints a 32-bit number as decimal digits that read back as the number, and that do
-- not begin with a zero unless the number is 0: the ten bytes of the buffer are enough.
pub put_dec_u32_lem :
    {S : Type 0} (putc : ℕ → S → S) (value : ℕ) (s : S)
    → value < 2 ^ 32
    → (put_dec_u32 putc value s ≡ puts putc (dec_digits value) s)
      × (read_dec 0 (dec_digits value) ≡ value)
      × IsDigits (dec_digits value)
      × (value ≢ 0 → NoLeadingZero (dec_digits value))
put_dec_u32_lem putc value s h =
    let (reads, digits, leads) = dec_digits_lem value h in
    (put_dec_u32-puts putc value s, reads, digits, leads)

abbrev hex_char : ℕ → ℕ
hex_char k = char_at hex_digits (bit_and k 0x0f)

-- The digits that `put_hex32` prints after "0x".
abbrev pub hex_chars : ℕ → ℕ → List ℕ
hex_chars zero value = []
hex_chars (suc n) value = hex_char (value / 2 ^ (n * 4)) ∷ hex_chars n value

abbrev hex_value : ℕ → ℕ
hex_value d = if leb d b'9' then d - b'0' else d - b'a' + 10

unfoldable pub read_hex : ℕ → List ℕ → ℕ
read_hex acc [] = acc
read_hex acc (d ∷ ds) = read_hex (acc * 16 + hex_value d) ds

hex_table : all_below 16 (λ k. hex_value (char_at hex_digits k) == k) ≡ true
unfolding all_below
hex_table = refl

hex_char_value : (k : ℕ) → hex_value (hex_char k) ≡ k % 16
hex_char_value k =
    rw (bit_and_fifteen k)
      ((==_iff _ (k % 16)).0 (all_below_sound 16 _ (k % 16) hex_table (omega arith)))

hex_loop-puts :
    {S : Type 0} (putc : ℕ → S → S) (n value : ℕ) (s : S)
    → hex_loop putc n value s ≡ puts putc (hex_chars n value) s
unfolding hex_loop puts
hex_loop-puts putc zero value s = refl
hex_loop-puts putc (suc n) value s = hex_loop-puts putc n value _

-- `put_hex32` prints "0x" and eight digits, which read back as the number.
put_hex32_lem :
    {S : Type 0} (putc : ℕ → S → S) (value : ℕ) (s : S)
    → value < 2 ^ 32
    → (put_hex32 putc value s ≡ puts putc (hex_chars 8 value) (puts putc (codes "0x") s))
      × (read_hex 0 (hex_chars 8 value) ≡ value)
unfolding put_hex32 read_hex
put_hex32_lem putc value s h = (
  hex_loop-puts putc 8 value (puts putc (codes "0x") s),
  rw
      (
        hex_char_value (value / 2 ^ 28),
        hex_char_value (value / 2 ^ 24),
        hex_char_value (value / 2 ^ 20),
        hex_char_value (value / 2 ^ 16),
        hex_char_value (value / 2 ^ 12),
        hex_char_value (value / 2 ^ 8),
        hex_char_value (value / 2 ^ 4),
        hex_char_value (value / 2 ^ 0),
      )
      (omega arith),
)
