-- ===== src/Console/Csi/Valid.antt =====
-- The escape parser (hw_bringup/ps_linux_boot.c) and the invariant of a console.
use zynq_cpu.Base.{
  ℕ, ◌-◌, ◌<◌, ◌≡◌, refl, ◌==◌, ltb, leb, if◌then◌else◌, if_both, Bool, true, false, ◌&&◌, ◌||◌,
  Option, none, some, arith, for_range_inv, bit_and, bit_or, add32, mul32, ltb→lt,
}
use zynq_cpu.Base.Bits.{all_below, all_below_sound, bit_and_seven, bit_or-shifted}
use zynq_cpu.Console.Panel.{Panel, IsPanel}
use zynq_cpu.Console.Screen.{Console, EscState, esc_none, esc_esc, esc_csi}
use zynq_cpu.Console.Screen.Shown.{Synced}
use zynq_cpu.Console.Screen.Valid.{
  IsValid, clear_cell_range-IsValid, erase_cells-IsValid, insert_cells-IsValid,
  delete_cells-IsValid, set_cursor-IsValid, clear_display-IsValid,
}
use zynq_cpu.Console.Csi.{
  push_param, csi_reset, sgr_color_index, set_color, sgr_step, apply_sgr, erase_display, erase_line,
  cursor_up, cursor_left, apply_csi, consume_csi, consume_in, consume_ansi,
}

-- Bold and not bold are colours again, and so is a bright colour.
or_eight : (a : ℕ) → bit_or (bit_and a 7) 8 < 16
or_eight a =
    omega
      (arith, bit_and_seven a, bit_or-shifted 3 (bit_and a 7) 1 (omega (arith, bit_and_seven a)))

bold_off_table : all_below 16 (λ a. ltb (bit_and a 0xf7) 16) ≡ true
unfolding all_below
bold_off_table = refl

bold_off : (a : ℕ) → a < 16 → bit_and a 0xf7 < 16
bold_off a h = ltb→lt _ _ (all_below_sound 16 _ a bold_off_table h)

pub sgr_color_index-lt : (q : ℕ) {color : ℕ} → sgr_color_index q ≡ some color → color < 16
unfolding sgr_color_index
sgr_color_index-lt q e = ground arith

set_color-lt :
    (o : Option ℕ) (attr : ℕ) (bright : Bool)
    → ((color : ℕ) → o ≡ some color → color < 16)
    → attr < 16
    → (set_color o (attr, bright)).0 < 16
unfolding set_color
set_color-lt none attr bright lt h = h
set_color-lt (some color) attr bright lt h = ground (arith, lt color refl, bit_or-shifted 3 color 1)

pub sgr_step-lt : (q : ℕ) (st : ℕ × Bool) → st.0 < 16 → (sgr_step q st).0 < 16
unfolding sgr_step
sgr_step-lt q (attr, bright) h = ground (
  arith,
  or_eight attr,
  bold_off attr h,
  set_color-lt (sgr_color_index q) attr bright (λ c. sgr_color_index-lt q) h,
)

-- The two branches of a conditional.
both :
    {p : Panel} (b : Bool) {x y : Console}
    → IsValid p x
    → IsValid p y
    → IsValid p (if b then x else y)
both {p} b h k = if_both (IsValid p) b h k

module _ {p : Panel} {s : Console} (v : IsValid p s) where
  pub apply_sgr-IsValid : IsValid p (apply_sgr s)
  unfolding apply_sgr
  apply_sgr-IsValid =
      if_both (IsValid p) _
        (record {
          row_in = v.row_in;
          col_in = v.col_in;
          attr_in = omega arith;
          params_in = v.params_in;
          shows = v.shows;
        })
        (record {
          row_in = v.row_in;
          col_in = v.col_in;
          attr_in =
              for_range_inv (λ i st. st.0 < 16) (λ i. sgr_step (s.params i)) 0 s.param_count
                (λ i st lo hi h. sgr_step-lt (s.params i) st h) s.param_count 0 _ (omega arith)
                (omega arith) v.attr_in;
          params_in = v.params_in;
          shows = v.shows;
        })

  pub push_param-IsValid : IsValid p (push_param s)
  unfolding push_param
  push_param-IsValid = record {
    row_in = ground (arith, v.row_in);
    col_in = ground (arith, v.col_in);
    attr_in = ground (arith, v.attr_in);
    params_in = ground (arith, v.params_in);
    shows = if_both (λ t. Synced p (record t { value = 0; have_value = false })) _ v.shows v.shows;
  }

  pub cursor_up-IsValid : (n : ℕ) → IsValid p (cursor_up n s)
  unfolding cursor_up
  cursor_up-IsValid n = record {
    row_in = ground (arith, v.row_in);
    col_in = v.col_in;
    attr_in = v.attr_in;
    params_in = v.params_in;
    shows = v.shows;
  }

  pub cursor_left-IsValid : (n : ℕ) → IsValid p (cursor_left n s)
  unfolding cursor_left
  cursor_left-IsValid n = record {
    row_in = v.row_in;
    col_in = ground (arith, v.col_in);
    attr_in = v.attr_in;
    params_in = v.params_in;
    shows = v.shows;
  }

module _ {p : Panel} (ok : IsPanel p) {s : Console} (v : IsValid p s) where
  erase_display-IsValid : (p0 : ℕ) → IsValid p (erase_display p p0 s)
  unfolding erase_display
  erase_display-IsValid p0 =
      both (p0 == 2 || p0 == 3) (clear_display-IsValid ok s v.params_in)
        (both (p0 == 1) (clear_cell_range-IsValid ok v _ _) (clear_cell_range-IsValid ok v _ _))

  erase_line-IsValid : (p0 : ℕ) → IsValid p (erase_line p p0 s)
  unfolding erase_line
  erase_line-IsValid p0 =
      both (p0 == 2) (clear_cell_range-IsValid ok v _ _)
        (both (p0 == 1) (clear_cell_range-IsValid ok v _ _) (clear_cell_range-IsValid ok v _ _))

  pub apply_csi-IsValid : (ch : ℕ) → IsValid p (apply_csi p ch s)
  unfolding apply_csi
  apply_csi-IsValid ch =
      let at = set_cursor-IsValid ok v in
      both (ch == b'@') (insert_cells-IsValid ok v _) (
        both (ch == b'J') (erase_display-IsValid _) (
          both (ch == b'K') (erase_line-IsValid _) (
            both (ch == b'X') (erase_cells-IsValid ok v _) (
              both (ch == b'P') (delete_cells-IsValid ok v _) (
                both (ch == b'H' || ch == b'f') (at _ _) (
                  both (ch == b'G') (at _ _) (
                    both (ch == b'A') (cursor_up-IsValid v _) (
                      both (ch == b'B') (at _ _) (
                        both (ch == b'E') (at _ _) (
                          both (ch == b'F') (at _ _) (
                            both (ch == b'C') (at _ _) (
                              both (ch == b'D') (cursor_left-IsValid v _) (
                                both (ch == b'd') (at _ _)
                                  (both (ch == b'm') (apply_sgr-IsValid v) v))))))))))))))

-- The parser's own state is no part of the invariant, but for the number of parameters.
module _ {p : Panel} {s : Console} (v : IsValid p s) where
  pub esc_state-IsValid : (e : EscState) → IsValid p (record s { esc_state = e })
  esc_state-IsValid e = record {
    row_in = v.row_in;
    col_in = v.col_in;
    attr_in = v.attr_in;
    params_in = v.params_in;
    shows = v.shows;
  }

  digit-IsValid : (n : ℕ) → IsValid p (record s { value = n; have_value = true })
  digit-IsValid n = record {
    row_in = v.row_in;
    col_in = v.col_in;
    attr_in = v.attr_in;
    params_in = v.params_in;
    shows = v.shows;
  }

  csi_start-IsValid : IsValid p (record (csi_reset s) { esc_state = esc_csi })
  unfolding csi_reset
  csi_start-IsValid = record {
    row_in = v.row_in;
    col_in = v.col_in;
    attr_in = v.attr_in;
    params_in = omega arith;
    shows = v.shows;
  }

module _ {p : Panel} (ok : IsPanel p) {s : Console} (v : IsValid p s) where
  consume_csi-IsValid : (ch : ℕ) → IsValid p (consume_csi p ch s)
  unfolding consume_csi
  consume_csi-IsValid ch =
      both (leb b'0' ch && leb ch b'9') (digit-IsValid v (add32 (mul32 s.value 10) (ch - b'0'))) (
        both (ch == b';') (push_param-IsValid v) (
          both (ch == b'?' || (ch == b' ' || ch == b'=')) v (
            both (leb 0x40 ch && leb ch 0x7e)
              (esc_state-IsValid
                (apply_csi-IsValid ok
                  (both (s.have_value || s.param_count == 0) (push_param-IsValid v) v) ch)
                esc_none)
              (esc_state-IsValid v esc_none))))

  consume_in-IsValid : (e : EscState) (ch : ℕ) → IsValid p (consume_in p e ch s).1
  unfolding consume_in
  consume_in-IsValid esc_none ch =
      if_both (λ (t : Bool × Console). IsValid p t.1) (ch == 0x1b) (esc_state-IsValid v esc_esc) v
  consume_in-IsValid esc_esc ch =
      both (ch == b'[') (csi_start-IsValid v)
        (both (ch == 0x1b) (esc_state-IsValid v esc_esc) (esc_state-IsValid v esc_none))
  consume_in-IsValid esc_csi ch = consume_csi-IsValid ch

  pub consume_ansi-IsValid : (ch : ℕ) → IsValid p (consume_ansi p ch s).1
  unfolding consume_ansi
  consume_ansi-IsValid ch = consume_in-IsValid s.esc_state ch
