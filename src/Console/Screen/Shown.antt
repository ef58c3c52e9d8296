-- ===== src/Console/Screen/Shown.antt =====
-- What the display shows for a cell, read from its registers as the hardware lays them out, and
-- its agreement with the shadow arrays.
use zynq_cpu.Base.{
  ℕ, zero, suc, ◌+◌, ◌*◌, ◌/◌, ◌%◌, ◌^◌, ◌≤◌, ◌<◌, ◌≡◌, ◌⊎◌, inl, inr, ap, ◌∙◌, sym, Store, u8,
  update, ◌==◌, if◌then◌else◌, for_range, bit_and, add32, mul32, arith,
}
use native.Mathlib.Decide.{ℕ_discrete}
use zynq_cpu.Console.Panel.{Panel, cells, IsPanel}
use zynq_cpu.Console.Grid.{Grid}
use zynq_cpu.Console.Screen.{
  Console, attr_word, text_word, write_attr_word, write_word, write_words,
}
use zynq_cpu.Console.Screen.Packing.{text_field, attr_field}

abbrev pub shown_text : Panel → Store → ℕ → ℕ
shown_text p regs c = regs (p.text_base + c / 4 * 4) / 2 ^ (c % 4 * 8) % 256

abbrev pub shown_attr : Panel → Store → ℕ → ℕ
shown_attr p regs c = regs (p.attr_base + c / 8 * 4) / 2 ^ (c % 8 * 4) % 16

-- The display shows cell `c` as the shadow arrays have it.
pub record Shows (p : Panel) (g : Grid) (regs : Store) (c : ℕ) : Type 0 where
  pub text : shown_text p regs c ≡ u8 (g.text c)
  pub attr : shown_attr p regs c ≡ bit_and (u8 (g.attr c)) 0x0f

-- Agreement is kept where neither the cell nor its registers changed.
pub Shows-same :
    {p : Panel} {g g' : Grid} {regs : Store} {c : ℕ}
    → g'.text c ≡ g.text c
    → g'.attr c ≡ g.attr c
    → Shows p g regs c
    → Shows p g' regs c
Shows-same e f s = record {
  text = s.text ∙ ap u8 (sym e);
  attr = s.attr ∙ ap (λ t. bit_and (u8 t) 0x0f) (sym f);
}

same_cell : (m : Store) (c n : ℕ) → m (c / suc n * suc n + c % suc n) ≡ m c
same_cell m c n = let e : c / suc n * suc n + c % suc n ≡ c = grind arith in ap m e

module _ {p : Panel} (ok : IsPanel p) (g : Grid) (regs : Store) (w : ℕ)
    (inside : w * 4 < cells p) where
  pub text_at_exact : add32 p.text_base (mul32 w 4) ≡ p.text_base + w * 4
  text_at_exact = omega (arith, ok.few_cells, ok.text_low)

  pub attr_index_exact : mul32 w 4 / 8 ≡ w / 2
  attr_index_exact = omega (arith, ok.few_cells)

  pub attr_at_exact : add32 p.attr_base (mul32 (w / 2) 4) ≡ p.attr_base + w / 2 * 4
  attr_at_exact = omega (arith, ok.few_cells, ok.attr_before_font, ok.font_fits)

  -- What the write of word `w` leaves in the text word `q`.
  text_reg :
      (q : ℕ)
      → q * 4 < cells p
      → write_word p g w regs (p.text_base + q * 4)
        ≡ (if q == w then text_word g.text (w * 4) else regs (p.text_base + q * 4))
  unfolding write_word write_attr_word update
  text_reg q h =
      rw (text_at_exact, attr_index_exact, attr_at_exact)
        (ground (arith, ok.text_before_attr, ok.few_cells))

  -- What the write of word `w` leaves in the attribute word `k`.
  attr_reg :
      (k : ℕ)
      → k * 8 < cells p
      → write_word p g w regs (p.attr_base + k * 4)
        ≡ (if k == w / 2 then attr_word g.attr (k * 8) else regs (p.attr_base + k * 4))
  unfolding write_word write_attr_word update
  attr_reg k h =
      rw (text_at_exact, attr_index_exact, attr_at_exact)
        (ground (arith, ok.text_before_attr, ok.few_cells))

  -- The cells of the word that was written show.
  pub Shows-write_word_self :
      (c : ℕ) → c < cells p → c / 4 ≡ w → Shows p g (write_word p g w regs) c
  Shows-write_word_self c h e = record {
    text = ground (
      arith,
      text_reg (c / 4) (omega arith),
      text_field g.text (c / 4 * 4) (c % 4) (omega arith),
      same_cell g.text c 3,
    );
    attr = ground (
      arith,
      attr_reg (c / 8) (omega arith),
      attr_field g.attr (c / 8 * 8) (c % 8) (omega arith),
      same_cell g.attr c 7,
    );
  }

  -- The other cells show as before.
  pub Shows-write_word :
      (c : ℕ) → c < cells p → Shows p g regs c → Shows p g (write_word p g w regs) c
  Shows-write_word c h s = record {
    text = ground (
      arith,
      s.text,
      text_reg (c / 4) (omega arith),
      text_field g.text (c / 4 * 4) (c % 4) (omega arith),
      same_cell g.text c 3,
    );
    attr = ground (
      arith,
      s.attr,
      attr_reg (c / 8) (omega arith),
      attr_field g.attr (c / 8 * 8) (c % 8) (omega arith),
      same_cell g.attr c 7,
    );
  }

module _ {p : Panel} (ok : IsPanel p) (g : Grid) where
  -- After a run of words is written, their cells show, and the others show as before.
  pub Shows-write_words :
      (n start : ℕ) (regs : Store) (c : ℕ)
      → (start + n) * 4 ≤ cells p
      → c < cells p
      → ((start ≤ c / 4) × (c / 4 < start + n)) ⊎ Shows p g regs c
      → Shows p g (write_words p g n start regs) c
  unfolding write_words for_range
  Shows-write_words zero start regs c h k (inl r) = absurd (omega arith)
  Shows-write_words zero start regs c h k (inr s) = s
  Shows-write_words (suc n) start regs c h k (inr s) =
      Shows-write_words n (start + 1) (write_word p g start regs) c (omega arith) k
        (inr (Shows-write_word ok g regs start (omega arith) c k s))
  Shows-write_words (suc n) start regs c h k (inl (lo, hi)) = elim (ℕ_discrete (c / 4) start) [
    | yes e ↦
        Shows-write_words n (start + 1) (write_word p g start regs) c (omega arith) k
          (inr (Shows-write_word_self ok g regs start (omega arith) c k e))
    | no ne ↦
        Shows-write_words n (start + 1) (write_word p g start regs) c (omega arith) k
          (inl (omega arith, omega arith))
  ]

-- Every cell of the panel shows.
abbrev pub Synced : Panel → Console → Type 0
Synced p s = (c : ℕ) → c < cells p → Shows p s.grid s.regs c
