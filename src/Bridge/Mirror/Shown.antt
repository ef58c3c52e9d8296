-- ===== src/Bridge/Mirror/Shown.antt =====
-- What the mirror shows of the bytes, on each of its two outputs (hw_bringup/ps_linux_boot.c,
-- `print_linux_console_mirror`), by a log of the bytes that an output gets, the last first.
use zynq_cpu.Base.{
  ℕ, ◌+◌, ◌-◌, ◌≡◌, refl, u8, leb, ◌==◌, not, ◌&&◌, ◌||◌, if◌then◌else◌, Bool, true, false,
  Bool-cases, inl, inr, if_both, List, [], ◌∷◌, ◌++◌, codes, length, map, arith,
}
use native.Mathlib.Decide.{ℕ_discrete}
use zynq_cpu.Base.Bits.{all_below, all_below_sound}
use zynq_cpu.Console.Writer.{char_at, puts}
use zynq_cpu.Bridge.Markers.{diag_marker}
use zynq_cpu.Bridge.Mirror.{
  Mirror, linux_loglevel_color, end_line, scan_loglevel, scan_diag, show_byte, mirror_byte,
}

-- A log after the bytes of a list, the first of them first.
abbrev pub typed : List ℕ → List ℕ → List ℕ
typed [] old = old
typed (c ∷ cs) old = typed cs (c ∷ old)

-- The rest of a sequence ESC [ … m: digits and semicolons, and the end.
abbrev is_params : List ℕ → Bool
is_params [] = false
is_params (c ∷ []) = c == b'm'
is_params (c ∷ d ∷ l) = ((leb b'0' c && leb c b'9') || c == b';') && is_params (d ∷ l)

abbrev pub is_colour : List ℕ → Bool
is_colour [] = false
is_colour (c ∷ []) = false
is_colour (c ∷ d ∷ l) = c == 0x1b && (d == b'[' && is_params l)

-- The log `new` is `old` with colour sequences added, and nothing else.
pub data Coloured (old : List ℕ) : List ℕ → Type 0 where
  bare : Coloured old old
  coloured :
      {new : List ℕ} (c : List ℕ)
      → is_colour c ≡ true
      → Coloured old new
      → Coloured old (typed c new)

-- A byte as the UART gets it, and as the HDMI console does: carriage returns are left out, and the UART
-- gets one before each line feed.
abbrev pub uart_text : ℕ → List ℕ
uart_text ch = if ch == 10 then 13 ∷ 10 ∷ [] else if ch == 13 then [] else ch ∷ []

abbrev pub hdmi_text : ℕ → List ℕ
hdmi_text ch = if ch == 13 then [] else ch ∷ []

-- The bytes of a list are shown, each in order and once, with nothing but colours before and after it.
abbrev pub Shown : (ℕ → List ℕ) → List ℕ → List ℕ → List ℕ → Type 0
Shown text [] old new = new ≡ old
Shown text (ch ∷ chs) old new =
    (mid : List ℕ) × (end : List ℕ) × Coloured old mid
    × Coloured (typed (text ch) mid) end
    × Shown text chs end new

-- An output whose log takes each of its bytes, and none of the other's.
pub record Logs {S : Type 0} (putc other : ℕ → S → S) (log : S → List ℕ) : Type 0 where
  pub takes : (c : ℕ) (s : S) → log (putc c s) ≡ c ∷ log s
  pub leaves : (c : ℕ) (s : S) → log (other c s) ≡ log s

-- A byte on a log that takes it or does not.
abbrev pub on : Bool → ℕ → List ℕ → List ℕ
on true c l = c ∷ l
on false c l = l

abbrev on_all : Bool → List ℕ → List ℕ → List ℕ
on_all true cs l = typed cs l
on_all false cs l = l

colour_table : all_below 8 (λ k. is_colour (map u8 (linux_loglevel_color k))) ≡ true
unfolding all_below linux_loglevel_color
colour_table = refl

module _ {S : Type 0} (log : S → List ℕ) (v : Bool) (putc : ℕ → S → S)
    (law : (c : ℕ) (s : S) → log (putc c s) ≡ on v c (log s)) where
  puts_lem : (cs : List ℕ) (s : S) → log (puts putc cs s) ≡ on_all v (map u8 cs) (log s)
  unfolding puts
  puts_lem [] s = elim (Bool-cases v) [ inl e ↦ rw e refl | inr e ↦ rw e refl ]
  puts_lem (c ∷ cs) s = elim (Bool-cases v) [
    | inl e ↦ rw (puts_lem cs (putc (u8 c) s), law (u8 c) s, e) refl
    | inr e ↦ rw (puts_lem cs (putc (u8 c) s), law (u8 c) s, e) refl
  ]

  puts-Coloured :
      {old : List ℕ} (cs : List ℕ) (s : S)
      → is_colour (map u8 cs) ≡ true
      → Coloured old (log s)
      → Coloured old (log (puts putc cs s))
  puts-Coloured cs s colour h = elim (Bool-cases v) [
    | inl e ↦ rw (puts_lem cs s, e) (coloured (map u8 cs) colour h)
    | inr e ↦ rw (puts_lem cs s, e) h
  ]

-- One of the two outputs: the UART where `u`, and else the HDMI console.
module _ {S : Type 0} (hdmi_putc uart_putc : ℕ → S → S) (log : S → List ℕ) (u : Bool)
    (uart_law : (c : ℕ) (s : S) → log (uart_putc c s) ≡ on u c (log s))
    (hdmi_law : (c : ℕ) (s : S) → log (hdmi_putc c s) ≡ on (not u) c (log s)) where
  uart-Coloured :
      {old : List ℕ} (cs : List ℕ) (s : S)
      → is_colour (map u8 cs) ≡ true
      → Coloured old (log s)
      → Coloured old (log (puts uart_putc cs s))
  uart-Coloured = puts-Coloured log u uart_putc uart_law

  hdmi-Coloured :
      {old : List ℕ} (cs : List ℕ) (s : S)
      → is_colour (map u8 cs) ≡ true
      → Coloured old (log s)
      → Coloured old (log (puts hdmi_putc cs s))
  hdmi-Coloured = puts-Coloured log (not u) hdmi_putc hdmi_law

  scan_loglevel-Coloured :
      {old : List ℕ} (ch : ℕ) (m : Mirror) (s : S)
      → Coloured old (log s)
      → Coloured old (log (scan_loglevel hdmi_putc uart_putc ch m s).2)
  unfolding scan_loglevel
  scan_loglevel-Coloured {old} ch m s h =
      let color = linux_loglevel_color (ch - b'0') in
      elim (Bool-cases (m.loglevel_match == 1)) [
        | inl e ↦ rw e (elim (Bool-cases (leb b'0' ch && leb ch b'7')) [
          | inl digit ↦
              let ok =
                all_below_sound 8 (λ k. is_colour (map u8 (linux_loglevel_color k))) (ch - b'0')
                  colour_table (ground (arith, digit)) in
              rw digit (hdmi-Coloured color _ ok (uart-Coloured color s ok h))
          | inr other ↦ rw other h
        ])
        | inr e ↦ rw e (elim (Bool-cases (m.loglevel_match == 2)) [
          | inl e2 ↦
              rw e2 (if_both (λ (r : Bool × Mirror × S). Coloured old (log r.2)) (ch == b'>') h h)
          | inr e2 ↦ rw e2 (elim (Bool-cases m.at_line_start) [
            | inl e3 ↦
                rw e3 (if_both (λ (r : Bool × Mirror × S). Coloured old (log r.2)) (ch == b'<') h h)
            | inr e3 ↦ rw e3 h
          ])
        ])
      ]

  scan_diag-Coloured :
      {old : List ℕ} (prefix : Bool) (ch : ℕ) (m : Mirror) (s : S)
      → Coloured old (log s)
      → Coloured old (log (scan_diag hdmi_putc uart_putc prefix ch m s).2)
  unfolding scan_diag
  scan_diag-Coloured {old} prefix ch m s h =
      let first = m.diag_match == 0 in
      let cyan = 0x1b ∷ codes "[1;36m" in
      let s1 = if first then puts hdmi_putc cyan s else s in
      let h1 : Coloured old (log s1) =
        if_both (λ (t : S). Coloured old (log t)) first (hdmi-Coloured cyan s refl h) h in
      elim (Bool-cases m.diag_scan) [
        | inr e ↦ rw e h
        | inl e ↦
            rw e
              (elim (Bool-cases
                (first && (prefix || (m.loglevel_match == 1 || m.loglevel_match == 2)))) [
                  | inl e1 ↦ rw e1 h
                  | inr e1 ↦ rw e1 (elim (Bool-cases (ch == char_at diag_marker m.diag_match)) [
                    | inr e2 ↦ rw e2 h
                    | inl e2 ↦ rw e2 (
                        if_both (λ (r : Bool × Mirror × S). Coloured old (log r.2))
                          (m.diag_match + 1 == length diag_marker) h1 h1)
                  ])
                ])
      ]

  both_take : (c : ℕ) (s : S) → log (hdmi_putc c (uart_putc c s)) ≡ c ∷ log s
  both_take c s = elim (Bool-cases u) [
    | inl e ↦ rw (hdmi_law c (uart_putc c s), uart_law c s, e) refl
    | inr e ↦ rw (hdmi_law c (uart_putc c s), uart_law c s, e) refl
  ]

  grey-Coloured :
      {old : List ℕ} (s : S)
      → Coloured old (log s)
      → Coloured old (log (puts hdmi_putc ((0x1b ∷ codes "[0m") ++ (0x1b ∷ codes "[90m")) s))
  grey-Coloured s h =
      let two = (0x1b ∷ codes "[0m") ++ (0x1b ∷ codes "[90m") in
      let said = puts_lem log (not u) hdmi_putc hdmi_law two s in
      elim (Bool-cases u) [
        | inl e ↦ rw (said, e) h
        | inr e ↦
            rw (said, e)
              (coloured (0x1b ∷ codes "[90m") refl (coloured (0x1b ∷ codes "[0m") refl h))
      ]

  -- The bytes of one step of the mirror, with the colours before and after.
  abbrev pub Byte : List ℕ → S → S → Type 0
  Byte text s s' = (mid : List ℕ) × Coloured (log s) mid × Coloured (typed text mid) (log s')

  show_byte-Byte :
      (ch : ℕ) (m : Mirror) (s : S) → Byte (ch ∷ []) s (show_byte hdmi_putc uart_putc ch m s).1
  unfolding show_byte
  show_byte-Byte ch m s =
      let r1 = scan_loglevel hdmi_putc uart_putc ch m s in
      let r2 = scan_diag hdmi_putc uart_putc r1.0 ch r1.1 r1.2 in
      let s3 = hdmi_putc ch (uart_putc ch r2.2) in
      let before = scan_diag-Coloured r1.0 ch r1.1 r1.2 (scan_loglevel-Coloured ch m s bare) in
      let here : Coloured (ch ∷ log r2.2) (log s3) = rw (both_take ch r2.2) bare in
      (
        log r2.2,
        before,
        elim (Bool-cases r2.0) [ inl e ↦ rw e (grey-Coloured s3 here) | inr e ↦ rw e here ],
      )

  -- The byte on this output.
  abbrev pub text : ℕ → List ℕ
  text ch = if u then uart_text ch else hdmi_text ch

  end_line-Byte : (m : Mirror) (s : S) → Byte (text 10) s (end_line hdmi_putc uart_putc 10 m s).1
  unfolding end_line
  end_line-Byte m s =
      let reset = 0x1b ∷ codes "[0m" in
      let s1 =
        if m.colored_line
        then puts hdmi_putc reset (puts uart_putc reset s)
        else if m.hdmi_colored_line
        then puts hdmi_putc reset s
        else s in
      let before : Coloured (log s) (log s1) =
        if_both (λ (t : S). Coloured (log s) (log t)) m.colored_line
          (hdmi-Coloured reset _ refl (uart-Coloured reset s refl bare))
          (if_both (λ (t : S). Coloured (log s) (log t)) m.hdmi_colored_line
            (hdmi-Coloured reset s refl bare) bare) in
      let line = puts_lem log u uart_putc uart_law (13 ∷ 10 ∷ []) s1 in
      let last = hdmi_law 10 (puts uart_putc (13 ∷ 10 ∷ []) s1) in
      let ends : log (hdmi_putc 10 (puts uart_putc (13 ∷ 10 ∷ []) s1)) ≡ typed (text 10) (log s1) =
        elim (Bool-cases u) [ inl e ↦ rw (last, line, e) refl | inr e ↦ rw (last, line, e) refl ] in
      (log s1, before, rw ends bare)

  pub mirror_byte-Byte :
      (ch : ℕ) (m : Mirror) (s : S) → Byte (text ch) s (mirror_byte hdmi_putc uart_putc ch m s).1
  unfolding mirror_byte
  mirror_byte-Byte ch m s = elim (ℕ_discrete ch 10) [
    | yes e ↦ rw e (end_line-Byte m s)
    | no other ↦
        let not_lf : (ch == 10) ≡ false = ground arith in
        elim (ℕ_discrete ch 13) [
          | yes e ↦
              rw e (log s, bare, elim (Bool-cases u) [ inl t ↦ rw t bare | inr t ↦ rw t bare ])
          | no plain ↦
              let not_cr : (ch == 13) ≡ false = ground arith in
              let itself : text ch ≡ ch ∷ [] = elim (Bool-cases u) [
                | inl t ↦ rw (t, not_lf, not_cr) refl
                | inr t ↦ rw (t, not_cr) refl
              ] in
              rw (itself, not_lf, not_cr) (show_byte-Byte ch m s)
        ]
  ]
