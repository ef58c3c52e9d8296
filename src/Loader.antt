-- ===== src/Loader.antt =====
-- Loading a ZX32 ELF file into instruction memory (hw_bringup/ps_uart_probe_common.c,
-- `load_zx32_elf_into_imem`). The file is the memory from its first byte on; an index at or past
-- `elf_size` is outside the file. Instruction memory is the last word written to each address.
pub mod Segments
pub mod Image
pub mod Bounds
pub mod Errors
pub mod Reads
pub mod Wrap
pub mod Tests
use zynq_cpu.Base.{
  ◌^◌, ℕ, zero, suc, ◌*◌, ◌/◌, ◌%◌, ◌+◌, Store, update, u8, word, add32, mul32, shl32, for_range,
  bit_and, bit_or, ltb, ◌==◌, not, ◌||◌, if◌then◌else◌,
}

-- ZYNQ_CPU_IMEM_BASE
abbrev pub imem_base : ℕ
imem_base = 0x43C20000 + 0x3000

-- The bytes at and after `at`.
unfoldable pub read_u16_le : Store → ℕ → ℕ
read_u16_le elf at = bit_or (u8 (elf at)) (u8 (elf (at + 1)) * 2 ^ 8 % 2 ^ 16) % 2 ^ 16

unfoldable pub read_u32_le : Store → ℕ → ℕ
read_u32_le elf at =
    bit_or
      (bit_or (bit_or (u8 (elf at)) (shl32 (u8 (elf (at + 1))) 8)) (shl32 (u8 (elf (at + 2))) 16))
      (shl32 (u8 (elf (at + 3))) 24)

-- The fields of a program header that the loader reads.
pub record Segment : Type 0 where
  pub p_type : ℕ
  pub p_offset : ℕ
  pub p_paddr : ℕ
  pub p_filesz : ℕ
  pub p_memsz : ℕ

unfoldable pub read_segment : Store → ℕ → Segment
read_segment elf ph = record {
  p_type = read_u32_le elf ph;
  p_offset = read_u32_le elf (ph + 4);
  p_paddr = read_u32_le elf (ph + 12);
  p_filesz = read_u32_le elf (ph + 16);
  p_memsz = read_u32_le elf (ph + 20);
}

-- What the loader returns: the negated code of an error, or the words loaded and the entry point;
-- with the memory it leaves.
pub data Loaded : Type 0 where
  fail : ℕ → Store → Loaded
  loaded : ℕ → ℕ → Store → Loaded

module _ (elf : Store) (elf_size : ℕ) where
  -- The word that goes to offset `off` of the segment.
  unfoldable pub segment_word : Segment → ℕ → ℕ
  segment_word seg off =
      if ltb off seg.p_filesz then read_u32_le elf (add32 seg.p_offset off) else 0

  -- for (off = 0; off < p_memsz; off += 4), at a size that is a multiple of 4.
  unfoldable pub write_segment : Segment → Store → Store
  write_segment seg =
      for_range (seg.p_memsz / 4) 0
        (λ k. update (add32 (add32 imem_base seg.p_paddr) (k * 4)) (segment_word seg (k * 4)))

  -- Why the file is refused by its header, or 0.
  unfoldable pub header_error : ℕ
  header_error =
      if ltb elf_size 52
      then 1
      else if not (u8 (elf 0) == 0x7f)
          || (not (u8 (elf 1) == b'E') || (not (u8 (elf 2) == b'L') || not (u8 (elf 3) == b'F')))
      then 2
      else if not (u8 (elf 4) == 1) || (not (u8 (elf 5) == 1) || not (u8 (elf 6) == 1))
      then 3
      else if not (read_u16_le elf 16 == 2)
      then 4
      else if not (read_u16_le elf 18 == 243)
      then 5
      else if not (read_u32_le elf 28 == 52)
      then 6
      else if not (read_u16_le elf 42 == 32)
      then 7
      else if ltb elf_size
          (add32 (read_u32_le elf 28) (mul32 (read_u16_le elf 44) (read_u16_le elf 42)))
      then 8
      else 0

  -- Why a segment that is to be loaded is refused, or 0.
  unfoldable pub segment_error : Segment → ℕ
  segment_error seg =
      if not (bit_and seg.p_offset 3 == 0)
        || (not (bit_and seg.p_paddr 3 == 0)
            || (not (bit_and seg.p_filesz 3 == 0) || not (bit_and seg.p_memsz 3 == 0)))
      then 9
      else if ltb elf_size (add32 seg.p_offset seg.p_filesz)
      then 10
      else if ltb seg.p_memsz seg.p_filesz
      then 11
      else 0

  -- The program headers from number `i` on, with `n` left.
  unfoldable pub load_segments : ℕ → ℕ → ℕ → ℕ → ℕ → ℕ → Store → Loaded
  load_segments zero i phoff phentsize entry words imem = loaded words entry imem
  load_segments (suc n) i phoff phentsize entry words imem =
      let seg = read_segment elf (add32 phoff (mul32 i phentsize)) in
      let skip = load_segments n (i + 1) phoff phentsize entry words imem in
      let next =
        load_segments n (i + 1) phoff phentsize entry (add32 words (seg.p_memsz / 4))
          (write_segment seg imem) in
      if not (seg.p_type == 1)
      then skip
      else if segment_error seg == 0
      then next
      else fail (segment_error seg) imem

  unfoldable pub load_zx32_elf_into_imem : Store → Loaded
  load_zx32_elf_into_imem imem =
      let result =
        load_segments (read_u16_le elf 44) 0 (read_u32_le elf 28) (read_u16_le elf 42)
          (read_u32_le elf 24) 0 imem in
      if header_error == 0 then result else fail header_error imem
