-- ===== src/Console/Csi/Pen.antt =====
-- What SGR parameters mean for a pen of a hue and a brightness, beside `hdmi_console_apply_sgr`
-- (hw_bringup/ps_linux_boot.c) on the 4-bit attribute.
use zynq_cpu.Base.{
  ℕ, zero, suc, ◌+◌, ◌-◌, ◌%◌, ◌<◌, ◌≡◌, refl, ◌==◌, leb, if◌then◌else◌, Bool, true, false, ◌&&◌,
  arith, for_range, bit_and, bit_or, ==_iff, ap, Bool-cases, inl, inr,
}
use zynq_cpu.Base.Bits.{all_below, all_below_sound, bit_and_seven, bit_or-shifted}
use zynq_cpu.Console.Screen.{Console}
use zynq_cpu.Console.Csi.{sgr_color_index, set_color, sgr_step, apply_sgr}

-- `bold` makes the dark colours that follow it bright.
pub record Pen : Type 0 where
  pub hue : ℕ
  pub bright : Bool
  pub bold : Bool

abbrev pub default_pen : Bool → Pen
default_pen bold = record { hue = 7; bright = false; bold = bold }

-- The attribute of a pen, and the pen of an attribute at the start of a sequence.
abbrev pub encode : Pen → ℕ
encode pen = pen.hue + (if pen.bright then 8 else 0)

abbrev pub decode : ℕ → Pen
decode attr = record { hue = attr % 8; bright = leb 8 attr; bold = false }

abbrev pub select : ℕ → Pen → Pen
select q pen =
    if q == 0
    then default_pen false
    else if q == 1
    then record pen { bright = true; bold = true }
    else if q == 22
    then record pen { bright = false; bold = false }
    else if q == 39
    then default_pen pen.bold
    else if leb 30 q && leb q 37
    then record pen { hue = q - 30; bright = pen.bold }
    else if leb 90 q && leb q 97
    then record pen { hue = q - 90; bright = true }
    else pen

bold_off_table : all_below 16 (λ a. bit_and a 0xf7 == a % 8) ≡ true
unfolding all_below
bold_off_table = refl

bold_off : (a : ℕ) → a < 16 → bit_and a 0xf7 ≡ a % 8
bold_off a h = (==_iff _ (a % 8)).0 (all_below_sound 16 _ a bold_off_table h)

bold_on : (a : ℕ) → bit_or (bit_and a 7) 8 ≡ a % 8 + 8
bold_on a =
    omega
      (arith, bit_and_seven a, bit_or-shifted 3 (bit_and a 7) 1 (omega (arith, bit_and_seven a)))

sgr_step-hue : (q : ℕ) (pen : Pen) → pen.hue < 8 → (select q pen).hue < 8
sgr_step-hue q pen h = ground arith

sgr_step_lem :
    (q : ℕ) (pen : Pen)
    → pen.hue < 8
    → sgr_step q (encode pen, pen.bold) ≡ (encode (select q pen), (select q pen).bold)
unfolding sgr_step set_color sgr_color_index
sgr_step_lem q pen h =
    ground (
      arith,
      bold_on (encode pen),
      bold_off (encode pen) (ground arith),
      bit_or-shifted 3 (q - 30) 1,
    )

sgr_loop :
    (params : ℕ → ℕ) (n i : ℕ) (pen : Pen)
    → pen.hue < 8
    → for_range n i (λ k. sgr_step (params k)) (encode pen, pen.bold) ≡ (
      encode (for_range n i (λ k. select (params k)) pen),
      (for_range n i (λ k. select (params k)) pen).bold,
    )
unfolding for_range
sgr_loop params zero i pen h = refl
sgr_loop params (suc n) i pen h =
    rw (sgr_step_lem (params i) pen h)
      (sgr_loop params n (i + 1) (select (params i) pen) (sgr_step-hue (params i) pen h))

encode-decode : (attr : ℕ) → attr < 16 → encode (decode attr) ≡ attr
encode-decode attr h = ground arith

-- SGR selects what its parameters ask for, from the left to the right, and with no parameter the
-- default pen. The bold flag starts afresh in each sequence.
pub apply_sgr_lem :
    (s : Console)
    → s.text_attr < 16
    → (apply_sgr s).text_attr
      ≡ encode (
          if s.param_count == 0
          then default_pen false
          else for_range s.param_count 0 (λ i. select (s.params i)) (decode s.text_attr))
unfolding apply_sgr
apply_sgr_lem s h =
    let looped = sgr_loop s.params s.param_count 0 (decode s.text_attr) (omega arith) in
    elim (Bool-cases (s.param_count == 0)) [
      | inl e ↦ rw e refl
      | inr ne ↦ rw ne (ap (λ t. t.0) (rw (encode-decode s.text_attr h) at looped))
    ]
