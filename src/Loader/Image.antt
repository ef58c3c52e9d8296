-- ===== src/Loader/Image.antt =====
-- The image of a whole program header table in instruction memory
-- (hw_bringup/ps_uart_probe_common.c, the loops of `load_zx32_elf_into_imem`).
use zynq_cpu.Base.{
  ℕ, zero, suc, ◌+◌, ◌-◌, ◌/◌, ◌%◌, ◌≤◌, ◌<◌, ◌≡◌, ◌≢◌, ◌⊎◌, inl, inr, refl, ◌∙◌, Store, add32,
  mul32, for_range, ◌==◌, true, false, if◌then◌else◌, arith,
}
use native.Mathlib.Decide.{ℕ_discrete}
use zynq_cpu.Loader.{
  imem_base, Segment, read_segment, loaded, segment_word, write_segment, segment_error,
  load_segments,
}
use zynq_cpu.Loader.Segments.{Fits, write_segment_lem}

-- Address `a` holds a word of the segment.
abbrev pub Covers : Segment → ℕ → Type 0
Covers seg a =
    (imem_base + seg.p_paddr ≤ a)
    × (a < imem_base + seg.p_paddr + seg.p_memsz)
    × ((a - (imem_base + seg.p_paddr)) % 4 ≡ 0)

module _ (elf : Store) (elf_size phoff phentsize : ℕ) where
  abbrev pub segment : ℕ → Segment
  segment j = read_segment elf (add32 phoff (mul32 j phentsize))

  -- Segment `j` is not for loading, or passes the loader's checks and fits.
  abbrev pub Good : ℕ → Type 0
  Good j =
      ((segment j).p_type ≢ 1)
      ⊎ (((segment j).p_type ≡ 1) × (segment_error elf elf_size (segment j) ≡ 0) × Fits (segment j))

  abbrev pub place : ℕ → Store → Store
  place j m = if (segment j).p_type == 1 then write_segment elf elf_size (segment j) m else m

  abbrev pub count : ℕ → ℕ → ℕ
  count j words = if (segment j).p_type == 1 then add32 words ((segment j).p_memsz / 4) else words

  pub load_all :
      (entry n i words : ℕ) (imem : Store)
      → ((j : ℕ) → i ≤ j → j < i + n → Good j)
      → load_segments elf elf_size n i phoff phentsize entry words imem
        ≡ loaded (for_range n i count words) entry (for_range n i place imem)
  unfolding load_segments for_range
  load_all entry zero i words imem good = refl
  load_all entry (suc n) i words imem good =
      let later : (j : ℕ) → i + 1 ≤ j → j < i + 1 + n → Good j =
        λ j lo hi. good j (omega arith) (omega arith) in
      elim (good i (omega arith) (omega arith)) [
        | inl skip ↦
            let t : ((segment i).p_type == 1) ≡ false = ground arith in
            rw t (load_all entry n (i + 1) words imem later)
        | inr (load, passes, fits) ↦
            let t : ((segment i).p_type == 1) ≡ true = ground arith in
            rw (t, passes)
              (load_all entry n (i + 1) (add32 words ((segment i).p_memsz / 4))
                (write_segment elf elf_size (segment i) imem) later)
      ]

  -- An address that no later segment covers keeps its word.
  place_outside :
      (a n i : ℕ) (imem : Store)
      → ((j : ℕ) → i ≤ j → j < i + n → Good j)
      → ((j : ℕ) → i ≤ j → j < i + n → (segment j).p_type ≡ 1 → Covers (segment j) a → ⊥)
      → for_range n i place imem a ≡ imem a
  unfolding for_range
  place_outside a zero i imem good apart = refl
  place_outside a (suc n) i imem good apart =
      place_outside a n (i + 1) (place i imem) (λ j lo hi. good j (omega arith) (omega arith))
        (λ j lo hi. apart j (omega arith) (omega arith))
      ∙ elim (good i (omega arith) (omega arith)) [
        | inl skip ↦ let t : ((segment i).p_type == 1) ≡ false = ground arith in rw t refl
        | inr (load, passes, fits) ↦
            let t : ((segment i).p_type == 1) ≡ true = ground arith in
            let free = apart i (omega arith) (omega arith) load in
            rw t (ground (arith, write_segment_lem elf elf_size (segment i) imem a fits))
      ]

  -- A word of segment `k` is in place where no later segment covers it.
  pub place_inside :
      (k a n i : ℕ) (imem : Store)
      → ((j : ℕ) → i ≤ j → j < i + n → Good j)
      → i ≤ k
      → k < i + n
      → (segment k).p_type ≡ 1
      → Covers (segment k) a
      → ((j : ℕ) → k < j → j < i + n → (segment j).p_type ≡ 1 → Covers (segment j) a → ⊥)
      → for_range n i place imem a
        ≡ segment_word elf elf_size (segment k) (a - (imem_base + (segment k).p_paddr))
  unfolding for_range
  place_inside k a zero i imem good lo hi load covers apart = absurd (omega arith)
  place_inside k a (suc n) i imem good lo hi load covers apart = elim (ℕ_discrete i k) [
    | no earlier ↦
        place_inside k a n (i + 1) (place i imem) (λ j l h. good j (omega arith) (omega arith))
          (omega arith) (omega arith) load covers (λ j l h. apart j l (omega arith))
    | yes here ↦
        place_outside a n (i + 1) (place i imem) (λ j l h. good j (omega arith) (omega arith))
          (λ j l h. apart j (omega arith) (omega arith))
        ∙ rw here (elim (good k lo hi) [
          | inl skip ↦ absurd (skip load)
          | inr (l, passes, fits) ↦
              let t : ((segment k).p_type == 1) ≡ true = ground arith in
              rw t (ground (arith, write_segment_lem elf elf_size (segment k) imem a fits))
        ])
  ]
