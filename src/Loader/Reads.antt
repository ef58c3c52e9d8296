-- ===== src/Loader/Reads.antt =====
-- What `load_zx32_elf_into_imem` (hw_bringup/ps_uart_probe_common.c) reads of a file.
use zynq_cpu.Base.{
  ℕ, zero, suc, ◌+◌, ◌*◌, ◌/◌, ◌%◌, ◌≤◌, ◌<◌, ◌≡◌, refl, ap, ◌∙◌, Store, word, add32, mul32, update,
  for_range, ltb, ◌==◌, false, Bool-cases, inl, inr, arith,
}
use zynq_cpu.Loader.{
  imem_base, read_u16_le, read_u32_le, Segment, read_segment, segment_word, write_segment,
  segment_error, header_error, load_segments, load_zx32_elf_into_imem,
}
use zynq_cpu.Loader.Image.{segment}
use zynq_cpu.Loader.Bounds.{read_u16_le-lt, IsHeader, header_error-IsHeader}
use native.Mathlib.Decide.{ℕ_discrete, dec_lt}
use zynq_cpu.Base.Bits.{bit_and_three}

-- Two loops whose rounds do the same do the same.
loops_agree :
    {S : Type 0} (f g : ℕ → S → S) (n i : ℕ) (s : S)
    → ((k : ℕ) (t : S) → i ≤ k → k < i + n → f k t ≡ g k t)
    → for_range n i f s ≡ for_range n i g s
unfolding for_range
loops_agree f g zero i s same = refl
loops_agree f g (suc n) i s same =
    ap (for_range n (i + 1) f) (same i s (omega arith) (omega arith))
    ∙ loops_agree f g n (i + 1) (g i s) (λ k t lo hi. same k t (omega arith) (omega arith))

module _ (elf elf' : Store) (elf_size : ℕ) (same : (b : ℕ) → b < elf_size → elf b ≡ elf' b) where
  u16_same : (at : ℕ) → at + 1 < elf_size → read_u16_le elf at ≡ read_u16_le elf' at
  unfolding read_u16_le
  u16_same at h = rw (same at (omega arith), same (at + 1) h) refl

  u32_same : (at : ℕ) → at + 3 < elf_size → read_u32_le elf at ≡ read_u32_le elf' at
  unfolding read_u32_le
  u32_same at h =
      rw
        (
          same at (omega arith),
          same (at + 1) (omega arith),
          same (at + 2) (omega arith),
          same (at + 3) h,
        )
        refl

  segment_same : (ph : ℕ) → ph + 23 < elf_size → read_segment elf ph ≡ read_segment elf' ph
  unfolding read_segment
  segment_same ph h =
      rw
        (
          u32_same ph (omega arith),
          u32_same (ph + 4) (omega arith),
          u32_same (ph + 12) (omega arith),
          u32_same (ph + 16) (omega arith),
          u32_same (ph + 20) (omega arith),
        )
        refl

  segment_bounds :
      (seg : Segment)
      → segment_error elf elf_size seg ≡ 0
      → (add32 seg.p_offset seg.p_filesz ≤ elf_size) × (seg.p_filesz % 4 ≡ 0)
  unfolding segment_error
  segment_bounds seg h = ground (arith, bit_and_three seg.p_filesz)

  write_same :
      (seg : Segment) (m : Store)
      → segment_error elf elf_size seg ≡ 0
      → seg.p_offset + seg.p_filesz < word
      → write_segment elf elf_size seg m ≡ write_segment elf' elf_size seg m
  unfolding write_segment segment_word
  write_same seg m passes inside =
      let (fits, whole) = segment_bounds seg passes in
      loops_agree _ _ (seg.p_memsz / 4) 0 m λ k t lo hi.
        ap (λ w. update (add32 (add32 imem_base seg.p_paddr) (k * 4)) w t)
          (elim (Bool-cases (ltb (k * 4) seg.p_filesz)) [
            | inl filled ↦
                let under : k * 4 < seg.p_filesz = ground arith in
                rw filled (u32_same (add32 seg.p_offset (k * 4)) (omega arith))
            | inr zeros ↦ rw zeros refl
          ])

  error_same : (seg : Segment) → segment_error elf elf_size seg ≡ segment_error elf' elf_size seg
  unfolding segment_error
  error_same seg = refl

  -- Each header lies in the file, and its data ends before 2^32.
  abbrev Inside : ℕ → ℕ → Type 0
  Inside phoff j =
      (add32 phoff (mul32 j 32) + 31 < elf_size)
      × ((segment elf elf_size phoff 32 j).p_offset + (segment elf elf_size phoff 32 j).p_filesz
          < word)

  segments_same :
      (phoff entry n i words : ℕ) (m : Store)
      → ((j : ℕ) → i ≤ j → j < i + n → Inside phoff j)
      → load_segments elf elf_size n i phoff 32 entry words m
        ≡ load_segments elf' elf_size n i phoff 32 entry words m
  unfolding load_segments
  segments_same phoff entry zero i words m inside = refl
  segments_same phoff entry (suc n) i words m inside =
      let (header, ends) = inside i (omega arith) (omega arith) in
      let seg = segment elf elf_size phoff 32 i in
      let later : (j : ℕ) → i + 1 ≤ j → j < i + 1 + n → Inside phoff j =
        λ j lo hi. inside j (omega arith) (omega arith) in
      let next = segments_same phoff entry n (i + 1) in
      rw (← segment_same (add32 phoff (mul32 i 32)) (omega arith))
        (elim (Bool-cases (seg.p_type == 1)) [
          | inr skip ↦ rw skip (next words m later)
          | inl load ↦ rw load (elim (Bool-cases (segment_error elf elf_size seg == 0)) [
            | inl passes ↦
                let ok : segment_error elf elf_size seg ≡ 0 = ground arith in
                rw (← error_same seg, passes, ← write_same seg m ok ends)
                  (next (add32 words (seg.p_memsz / 4)) (write_segment elf elf_size seg m) later)
            | inr refused ↦ rw (← error_same seg, refused) refl
          ])
        ])

  header_same : 52 ≤ elf_size → header_error elf elf_size ≡ header_error elf' elf_size
  unfolding header_error
  header_same long =
      rw
        (
          same 0 (omega arith),
          same 1 (omega arith),
          same 2 (omega arith),
          same 3 (omega arith),
          same 4 (omega arith),
          same 5 (omega arith),
          same 6 (omega arith),
          u16_same 16 (omega arith),
          u16_same 18 (omega arith),
          u32_same 28 (omega arith),
          u16_same 42 (omega arith),
          u16_same 44 (omega arith),
        )
        refl

  -- The table, once the header has passed.
  table_same :
      (imem : Store)
      → ((j : ℕ)
          → j < read_u16_le elf 44
          → (segment elf elf_size 52 32 j).p_offset + (segment elf elf_size 52 32 j).p_filesz
            < word)
      → IsHeader elf elf_size
      → load_segments elf elf_size
          (read_u16_le elf 44)
          0
          (read_u32_le elf 28)
          (read_u16_le elf 42)
          (read_u32_le elf 24)
          0
          imem
        ≡ load_segments elf' elf_size
            (read_u16_le elf' 44)
            0
            (read_u32_le elf' 28)
            (read_u16_le elf' 42)
            (read_u32_le elf' 24)
            0
            imem
  table_same imem ends h =
      let count = read_u16_le-lt elf 44 in
      let inside : (j : ℕ) → j < read_u16_le elf 44 → add32 52 (mul32 j 32) + 31 < elf_size =
        λ j hi. omega (arith, h.table_inside, count) in
      let long = h.long in
      rw
        (
          ← u16_same 44 (omega arith),
          ← u32_same 28 (omega arith),
          ← u16_same 42 (omega arith),
          ← u32_same 24 (omega arith),
          h.table_at,
          h.entry_size,
        )
        (segments_same 52 (read_u32_le elf 24) (read_u16_le elf 44) 0 0 imem
          λ j lo hi. (inside j (omega arith), ends j (omega arith)))

-- Two files that agree up to their size load alike, where the data of no segment ends past 2^32:
-- the result depends on no byte outside the file.
pub load_zx32_elf_into_imem-reads :
    (elf elf' : Store) (elf_size : ℕ) (imem : Store)
    → ((b : ℕ) → b < elf_size → elf b ≡ elf' b)
    → ((j : ℕ)
        → j < read_u16_le elf 44
        → (segment elf elf_size 52 32 j).p_offset + (segment elf elf_size 52 32 j).p_filesz < word)
    → load_zx32_elf_into_imem elf elf_size imem ≡ load_zx32_elf_into_imem elf' elf_size imem
unfolding load_zx32_elf_into_imem
load_zx32_elf_into_imem-reads elf elf' elf_size imem same ends = elim (dec_lt elf_size 52) [
  | yes short ↦ rw (short_error elf elf_size short, short_error elf' elf_size short) refl
  | no more ↦
      rw (← header_same elf elf' elf_size same (omega arith))
        (elim (ℕ_discrete (header_error elf elf_size) 0) [
          | yes e ↦
              let header = (header_error-IsHeader elf elf_size).1 e in
              rw (e, table_same elf elf' elf_size same imem ends header) refl
          | no ne ↦ let bad : (header_error elf elf_size == 0) ≡ false = ground arith in rw bad refl
        ])
]
  where
    short_error : (f : Store) (n : ℕ) → n < 52 → header_error f n ≡ 1
    short_error f n h = unfold header_error in ground arith
