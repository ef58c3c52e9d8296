-- ===== src/Console/Putc/Sequence.antt =====
-- A whole control sequence, byte by byte, through `lcd_console_putc` (hw_bringup/ps_linux_boot.c).
use zynq_cpu.Base.{
  ℕ, ◌+◌, ◌-◌, ◌*◌, ◌^◌, ◌≤◌, ◌<◌, ◌≡◌, refl, ap, ◌∙◌, Bool, true, List, [], ◌∷◌, ◌++◌, inl, inr,
  Bool-cases, leb, ◌==◌, if◌then◌else◌, ◌&&◌, arith, add32, mul32, u8, update,
}
use Prim.Native.Nat.{min}
use zynq_cpu.Console.Panel.{Panel, IsPanel}
use zynq_cpu.Console.Screen.{Console, esc_none, esc_esc, esc_csi, set_cursor}
use zynq_cpu.Console.Csi.{
  consume_ansi, consume_in, consume_csi, push_param, csi_reset, param_or, apply_csi,
}
use zynq_cpu.Console.Putc.{done, tab, plain, step, tab_loop, putc}
use zynq_cpu.Console.Writer.{puts}
use zynq_cpu.Console.Writer.Digits.{dec_digits, dec_digits_lem, read_dec, IsDigits, NoLeadingZero}

puts-++ :
    {S : Type 0} (putc : ℕ → S → S) (xs ys : List ℕ) (s : S)
    → puts putc (xs ++ ys) s ≡ puts putc ys (puts putc xs s)
unfolding puts
puts-++ putc [] ys s = refl
puts-++ putc (x ∷ xs) ys s = puts-++ putc xs ys (putc (u8 x) s)

read_dec-le : (acc : ℕ) (ds : List ℕ) → acc ≤ read_dec acc ds
unfolding read_dec
read_dec-le acc [] = omega arith
read_dec-le acc (d ∷ ds) = omega (arith, read_dec-le (acc * 10 + (d - b'0')) ds)

module _ (p : Panel) where
  -- A byte that the parser takes.
  putc_taken :
      (ch : ℕ) (s t : Console) → consume_in p s.esc_state ch s ≡ (true, t) → putc p ch s ≡ t
  unfolding putc step consume_ansi
  putc_taken ch s t e = taken (consume_in p s.esc_state ch s) e
    where
      taken :
          (r : Bool × Console)
          → r ≡ (true, t)
          → (elim (if r.0 then done r.1 else plain p ch r.1) [
            | done s' ↦ s'
            | tab s' ↦ tab_loop p 8 s'
          ])
            ≡ t
      taken r q = rw q refl

  putc_csi : (ch : ℕ) (s : Console) → s.esc_state ≡ esc_csi → putc p ch s ≡ consume_csi p ch s
  putc_csi ch s e = putc_taken ch s _ (ap (λ k. consume_in p k ch s) e ∙ unfold consume_in in refl)

  -- The state of the parser inside a parameter.
  abbrev reading : ℕ → Console → Console
  reading n s = record s { value = n; have_value = true }

  digit :
      (d : ℕ) (s : Console)
      → s.esc_state ≡ esc_csi
      → b'0' ≤ d
      → d ≤ b'9'
      → s.value * 10 + (d - b'0') < 2 ^ 32
      → putc p (u8 d) s ≡ reading (s.value * 10 + (d - b'0')) s
  unfolding consume_csi
  digit d s e lo hi small =
      let byte : u8 d ≡ d = omega arith in
      let yes_digit : (leb b'0' d && leb d b'9') ≡ true = ground arith in
      let exact : add32 (mul32 s.value 10) (d - b'0') ≡ s.value * 10 + (d - b'0') = omega arith in
      rw (byte, putc_csi d s e, yes_digit, exact) refl

  digits :
      (ds : List ℕ) (s : Console)
      → s.esc_state ≡ esc_csi
      → s.have_value ≡ true
      → IsDigits ds
      → read_dec s.value ds < 2 ^ 32
      → puts (putc p) ds s ≡ reading (read_dec s.value ds) s
  unfolding puts read_dec
  digits [] s e h k small = ap (λ b. record s { have_value = b }) h
  digits (d ∷ ds) s e h (lo, hi, k) small =
      let step = digit d s e lo hi (omega (arith, read_dec-le (s.value * 10 + (d - b'0')) ds)) in
      ap (puts (putc p) ds) step ∙ digits ds (reading (s.value * 10 + (d - b'0')) s) e refl k small

  numeral :
      (d : ℕ) (ds : List ℕ) (s : Console)
      → s.esc_state ≡ esc_csi
      → s.value ≡ 0
      → IsDigits (d ∷ ds)
      → read_dec 0 (d ∷ ds) < 2 ^ 32
      → puts (putc p) (d ∷ ds) s ≡ reading (read_dec 0 (d ∷ ds)) s
  unfolding puts read_dec
  numeral d ds s e z (lo, hi, rest) small =
      let k = 0 * 10 + (d - b'0') in
      let first : s.value * 10 + (d - b'0') ≡ k = omega arith in
      let step = digit d s e lo hi (omega (arith, read_dec-le k ds)) in
      ap (puts (putc p) ds) (rw first at step) ∙ digits ds (reading k s) e refl rest small

  -- A number that `put_dec_u32` would print is read back.
  number :
      (n : ℕ) (s : Console)
      → n < 2 ^ 32
      → s.esc_state ≡ esc_csi
      → s.value ≡ 0
      → puts (putc p) (dec_digits n) s ≡ reading n s
  unfolding read_dec
  number n s h e z =
      let (value, all, leads) = dec_digits_lem n h in
      elim (Bool-cases (n == 0)) [
        | inl zero? ↦
            let none : n ≡ 0 = ground arith in
            rw zero? (rw none (numeral b'0' [] s e z (omega arith, omega arith, tt) (omega arith)))
        | inr more ↦ from (dec_digits n) (leads (ground arith)) value all
      ]
    where
      from :
          (ds : List ℕ)
          → NoLeadingZero ds
          → read_dec 0 ds ≡ n
          → IsDigits ds
          → puts (putc p) ds s ≡ reading n s
      from [] bad value all = absurd bad
      from (d ∷ ds) lead value all = rw (← value) (numeral d ds s e z all (omega arith))

-- `ESC [ row ; col H`, as bytes.
abbrev pub cursor_position : ℕ → ℕ → List ℕ
cursor_position row col = 0x1b ∷ b'[' ∷ dec_digits row ++ (b';' ∷ dec_digits col ++ (b'H' ∷ []))

module _ {p : Panel} (ok : IsPanel p) where
  -- The state of the parser when the final byte comes.
  opened :
      (s : Console)
      → s.esc_state ≡ esc_none
      → puts (putc p) (0x1b ∷ b'[' ∷ []) s ≡ record (csi_reset s) { esc_state = esc_csi }
  unfolding puts csi_reset
  opened s e =
      let s1 = record s { esc_state = esc_esc } in
      let a : putc p 0x1b s ≡ s1 =
        putc_taken p 0x1b s s1 (ap (λ k. consume_in p k 0x1b s) e ∙ unfold consume_in in refl) in
      let b : putc p b'[' s1 ≡ record (csi_reset s1) { esc_state = esc_csi } =
        putc_taken p b'[' s1 _ (unfold consume_in in refl) in
      ap (putc p b'[') a ∙ b

  separator : (s : Console) → s.esc_state ≡ esc_csi → putc p b';' s ≡ push_param s
  unfolding consume_csi
  separator s e = putc_csi p b';' s e

  -- The parser after the two numbers, before the final byte.
  abbrev both_read : ℕ → ℕ → Console → Console
  both_read row col s =
      reading p col (push_param (reading p row (record (csi_reset s) { esc_state = esc_csi })))

  sequence_read :
      (row col : ℕ) (s : Console)
      → row < 2 ^ 32
      → col < 2 ^ 32
      → s.esc_state ≡ esc_none
      → puts (putc p) (cursor_position row col) s ≡ putc p b'H' (both_read row col s)
  unfolding puts csi_reset
  sequence_read row col s h k e =
      let s1 = record (csi_reset s) { esc_state = esc_csi } in
      let s3 = push_param (reading p row s1) in
      let tail = b';' ∷ dec_digits col ++ (b'H' ∷ []) in
      ap (puts (putc p) (dec_digits row ++ tail)) (opened s e)
      ∙ puts-++ (putc p) (dec_digits row) tail s1
      ∙ ap (puts (putc p) tail) (number p row s1 h refl (unfold csi_reset in refl))
      ∙ ap (puts (putc p) (dec_digits col ++ (b'H' ∷ []))) (separator (reading p row s1) refl)
      ∙ puts-++ (putc p) (dec_digits col) (b'H' ∷ []) s3
      ∙ ap (puts (putc p) (b'H' ∷ []))
          (number p col s3 k (unfold push_param in refl) (unfold push_param in refl))

  final_byte :
      (row col : ℕ) (s : Console)
      → putc p b'H' (both_read row col s)
        ≡ record (apply_csi p b'H' (push_param (both_read row col s))) { esc_state = esc_none }
  unfolding consume_csi csi_reset
  final_byte row col s = putc_csi p b'H' (both_read row col s) (unfold push_param in refl)

  -- A printed `ESC [ row ; col H` moves the cursor to that row and column, which count from 1, or to
  -- the nearest position on the panel. No glyph changes, and the sequence has ended.
  pub cursor_position_lem :
      (row col : ℕ) (s : Console)
      → row < 2 ^ 32
      → col < 2 ^ 32
      → s.esc_state ≡ esc_none
      → ((puts (putc p) (cursor_position row col) s).row ≡ min (row - 1) (p.rows - 1))
        × ((puts (putc p) (cursor_position row col) s).col ≡ min (col - 1) (p.cols - 1))
        × ((puts (putc p) (cursor_position row col) s).grid ≡ s.grid)
        × ((puts (putc p) (cursor_position row col) s).esc_state ≡ esc_none)
  unfolding apply_csi set_cursor param_or push_param csi_reset update
  cursor_position_lem row col s h k e =
      rw (sequence_read row col s h k e, final_byte row col s)
        (ground (arith, ok.has_rows), ground (arith, ok.has_cols), refl, refl)
