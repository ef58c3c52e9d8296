-- ===== src/Console/Init/Ready.antt =====
-- The consoles after `hdmi_console_init` and `lcd_console_init` (hw_bringup/ps_linux_boot.c).
use zynq_cpu.Base.{
  ℕ, zero, suc, ◌+◌, ◌*◌, ◌/◌, ◌≤◌, ◌<◌, ◌≡◌, ◌∙◌, refl, Store, update, update_ne, add32, mul32,
  for_range, arith, update_lem, leb, ltb, ◌&&◌, if◌then◌else◌,
}
use zynq_cpu.Console.Panel.{Panel, cells, IsPanel, hdmi, lcd, hdmi-IsPanel, lcd-IsPanel}
use zynq_cpu.Console.Grid.{Grid}
use zynq_cpu.Console.Screen.{
  Console, repaint, clear_shadow, write_attr_word, write_word, write_words,
}
use zynq_cpu.Console.Screen.Shown.{Synced, text_at_exact, attr_index_exact, attr_at_exact}
use zynq_cpu.Console.Screen.Valid.{IsValid}
use zynq_cpu.Console.Screen.Sync.{repaint-Synced}
use zynq_cpu.Console.Panels.{Panels}
use zynq_cpu.Console.Panels.Both.{BothValid}
use zynq_cpu.Console.Init.{upload_font, start_display, lcd_console_init, hdmi_console_init}

module _ {p : Panel} (ok : IsPanel p) where
  -- A register below the text window is none that the display shows from.
  control_write-Synced :
      (a v : ℕ) (s : Console)
      → a < p.text_base
      → Synced p s
      → Synced p (record s { regs = update a v s.regs })
  control_write-Synced a v s h sync c hc = record {
    text = rw (update_ne a v (p.text_base + c / 4 * 4) s.regs (omega arith)) (sync c hc).text;
    attr =
        rw (update_ne a v (p.attr_base + c / 8 * 4) s.regs (omega (arith, ok.text_before_attr)))
          (sync c hc).attr;
  }

  -- The setup of a console, whatever was written before the repaint.
  setup-IsValid :
      (s : Console) (regs : Store)
      → s.param_count ≤ 4
      → p.base < p.text_base
      → IsValid p (record (repaint p (record (clear_shadow p s) { regs = regs })) {
        regs =
            update (p.base + 0x00) 1 (repaint p (record (clear_shadow p s) { regs = regs })).regs;
      })
  unfolding repaint clear_shadow
  setup-IsValid s regs h low = record {
    row_in = ok.has_rows;
    col_in = ok.has_cols;
    attr_in = omega arith;
    params_in = h;
    shows =
        unfold repaint clear_shadow in
        control_write-Synced (p.base + 0x00) 1
          (repaint p (record (clear_shadow p s) { regs = regs })) (omega arith)
          (repaint-Synced ok (record (clear_shadow p s) { regs = regs }));
  }

  -- The writes of text and attribute words stay below the font.
  write_word_below :
      (g : Grid) (a w : ℕ) (regs : Store)
      → p.font_base ≤ a
      → w * 4 < cells p
      → write_word p g w regs a ≡ regs a
  unfolding write_word write_attr_word update
  write_word_below g a w regs h k =
      rw (text_at_exact ok g regs w k, attr_index_exact ok g regs w k, attr_at_exact ok g regs w k)
        (ground (arith, ok.text_before_attr, ok.attr_before_font, ok.few_cells))

  write_words_below :
      (g : Grid) (a n start : ℕ) (regs : Store)
      → p.font_base ≤ a
      → (start + n) * 4 ≤ cells p
      → write_words p g n start regs a ≡ regs a
  unfolding write_words for_range
  write_words_below g a zero start regs h k = refl
  write_words_below g a (suc n) start regs h k =
      write_words_below g a n (start + 1) (write_word p g start regs) h (omega arith)
      ∙ write_word_below g a start regs h (omega arith)

-- An upload leaves glyph word `w` at its address.
upload_loop :
    (font : Store) (base w n i : ℕ) (regs : Store)
    → base < 0x80000000
    → i + n ≤ 512
    → for_range n i (λ k. update (add32 base (mul32 k 4)) (font k)) regs (base + w * 4)
      ≡ (if leb i w && ltb w (i + n) then font w else regs (base + w * 4))
unfolding for_range
upload_loop font base w zero i regs h k = ground arith
upload_loop font base w (suc n) i regs h k =
    let next = update (add32 base (mul32 i 4)) (font i) regs in
    ground (
      arith,
      upload_loop font base w n (i + 1) next h (omega arith),
      update_lem (add32 base (mul32 i 4)) (font i) (base + w * 4) regs,
    )

-- After the setup both consoles are valid, whatever the displays and the arrays held before.
pub hdmi_console_init-BothValid :
    (font : Store) (d : Panels)
    → d.hdmi_console.param_count ≤ 4
    → d.lcd_console.param_count ≤ 4
    → BothValid (hdmi_console_init font d)
unfolding hdmi_console_init lcd_console_init
hdmi_console_init-BothValid font d h k = record {
  hdmi_ok = setup-IsValid hdmi-IsPanel d.hdmi_console _ h (omega arith);
  lcd_ok = setup-IsValid lcd-IsPanel d.lcd_console _ k (omega arith);
}

module _ {p : Panel} (ok : IsPanel p) (font : Store) where
  -- The font stays through the rest of the setup.
  setup-font :
      (s : Console) (regs : Store) (w : ℕ)
      → w < 512
      → p.base + 0x24 < p.font_base
      → update
          (p.base + 0x00)
          1
          (repaint p (record (clear_shadow p s) { regs = start_display font p regs })).regs
          (p.font_base + w * 4)
        ≡ font w
  unfolding repaint clear_shadow start_display upload_font
  setup-font s regs w h low = ground (
    arith,
    update_lem (p.base + 0x00) 1 (p.font_base + w * 4)
        (repaint p (record (clear_shadow p s) { regs = start_display font p regs })).regs,
    write_words_below ok (clear_shadow p s).grid (p.font_base + w * 4) (cells p / 4) 0
        (start_display font p regs) (omega arith) (omega arith),
    update_lem (p.base + 0x24) 3 (p.font_base + w * 4)
        (upload_font font p (update (p.base + 0x18) 0 regs)),
    upload_loop font p.font_base w 512 0 (update (p.base + 0x18) 0 regs) ok.font_fits (omega arith),
  )

-- After the setup both displays hold the font, word for word.
hdmi_console_init-font :
    (font : Store) (d : Panels) (w : ℕ)
    → w < 512
    → ((hdmi_console_init font d).hdmi_console.regs (hdmi.font_base + w * 4) ≡ font w)
      × ((hdmi_console_init font d).lcd_console.regs (lcd.font_base + w * 4) ≡ font w)
unfolding hdmi_console_init lcd_console_init
hdmi_console_init-font font d w h = (
  setup-font hdmi-IsPanel font d.hdmi_console _ w h (omega arith),
  setup-font lcd-IsPanel font d.lcd_console _ w h (omega arith),
)
