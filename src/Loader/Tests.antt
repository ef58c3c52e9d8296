-- ===== src/Loader/Tests.antt =====
-- The loader's theorems at concrete files, and a run of the loader.
use zynq_cpu.Base.{
  ℕ, zero, suc, ◌+◌, ◌-◌, ◌≤◌, ◌<◌, ◌≡◌, refl, inr, Store, update, update_ne, sym, word, for_range,
  List, [], ◌∷◌, arith,
}
use zynq_cpu.Console.Writer.{char_at}
use zynq_cpu.Loader.{
  imem_base, read_u16_le, read_u32_le, Segment, read_segment, loaded, segment_word, write_segment,
  segment_error, header_error, load_segments, load_zx32_elf_into_imem,
}
use zynq_cpu.Loader.Image.{segment, Good, place, count}
use zynq_cpu.Loader.Bounds.{IsHeader, code, memory, load_zx32_elf_into_imem_lem}
use zynq_cpu.Loader.Errors.{load_zx32_elf_into_imem-refuses}
use zynq_cpu.Loader.Reads.{load_zx32_elf_into_imem-reads}
use zynq_cpu.Loader.Wrap.{segment_error-wraps}

-- A file of 88 bytes with one segment: the word 0x04030201 and a zero word go to offset 16 of the
-- instruction memory, where the program starts.
abbrev pub file_bytes : List ℕ
file_bytes =
    0x7f ∷ b'E' ∷ b'L' ∷ b'F' ∷ 1 ∷ 1 ∷ 1 ∷ 0 ∷ 0 ∷ 0 ∷ 0 ∷ 0 ∷ 0 ∷ 0 ∷ 0 ∷ 0 ∷ 2 ∷ 0 ∷ 243 ∷ 0 ∷ 1
    ∷ 0 ∷ 0 ∷ 0 ∷ 16 ∷ 0 ∷ 0 ∷ 0 ∷ 52 ∷ 0 ∷ 0 ∷ 0 ∷ 0 ∷ 0 ∷ 0 ∷ 0 ∷ 0 ∷ 0 ∷ 0 ∷ 0 ∷ 52 ∷ 0 ∷ 32 ∷ 0
    ∷ 1 ∷ 0 ∷ 0 ∷ 0 ∷ 0 ∷ 0 ∷ 0 ∷ 0 ∷ 1 ∷ 0 ∷ 0 ∷ 0 ∷ 84 ∷ 0 ∷ 0 ∷ 0 ∷ 0 ∷ 0 ∷ 0 ∷ 0 ∷ 16 ∷ 0 ∷ 0
    ∷ 0 ∷ 4 ∷ 0 ∷ 0 ∷ 0 ∷ 8 ∷ 0 ∷ 0 ∷ 0 ∷ 5 ∷ 0 ∷ 0 ∷ 0 ∷ 4 ∷ 0 ∷ 0 ∷ 0 ∷ 1 ∷ 2 ∷ 3 ∷ 4 ∷ []

abbrev pub elf : Store
elf i = char_at file_bytes i

abbrev pub zeros : Store
zeros a = 0

header : IsHeader elf 88
unfolding read_u16_le read_u32_le
header = record {
  long = omega arith;
  magic = (refl, refl, refl, refl);
  ident = (refl, refl, refl);
  executable = refl;
  riscv = refl;
  table_at = refl;
  entry_size = refl;
  table_inside = omega arith;
}

good : (j : ℕ) → 0 ≤ j → j < 0 + read_u16_le elf 44 → Good elf 88 52 32 j
unfolding read_u16_le read_u32_le read_segment segment_error
good zero lo hi = inr (refl, refl, record { low = omega arith; whole = refl })
good (suc j) lo hi = absurd (omega arith)

load_zx32_elf_into_imem_lem_example :
    (load_zx32_elf_into_imem elf 88 zeros
      ≡ loaded
          (for_range (read_u16_le elf 44) 0 (count elf 88 52 32) 0)
          (read_u32_le elf 24)
          (for_range (read_u16_le elf 44) 0 (place elf 88 52 32) zeros))
    × (for_range (read_u16_le elf 44) 0 (place elf 88 52 32) zeros (imem_base + 16)
        ≡ segment_word elf 88
            (segment elf 88 52 32 0)
            (imem_base + 16 - (imem_base + (segment elf 88 52 32 0).p_paddr)))
unfolding read_u16_le read_u32_le read_segment
load_zx32_elf_into_imem_lem_example =
    load_zx32_elf_into_imem_lem elf 88 zeros 0 (imem_base + 16) header good (omega arith) refl
      (omega arith, omega arith, refl) (λ j lo hi load covers. absurd (omega arith))

-- The magic number is missing.
refused_code : code (load_zx32_elf_into_imem zeros 88 zeros) ≡ 2
unfolding load_zx32_elf_into_imem header_error
refused_code = refl

load_zx32_elf_into_imem-refuses_example : memory (load_zx32_elf_into_imem zeros 88 zeros) ≡ zeros
load_zx32_elf_into_imem-refuses_example =
    load_zx32_elf_into_imem-refuses zeros 88 zeros (omega (arith, refused_code))
      (omega (arith, refused_code))

-- A file with another byte behind its end.
abbrev elf_behind : Store
elf_behind = update 88 7 elf

same_file : (b : ℕ) → b < 88 → elf b ≡ elf_behind b
same_file b h = sym (update_ne 88 7 b elf (omega arith))

data_ends :
    (j : ℕ)
    → j < read_u16_le elf 44
    → (segment elf 88 52 32 j).p_offset + (segment elf 88 52 32 j).p_filesz < word
unfolding read_u16_le read_u32_le read_segment
data_ends zero h = omega arith
data_ends (suc j) h = absurd (omega arith)

load_zx32_elf_into_imem-reads_example :
    load_zx32_elf_into_imem elf 88 zeros ≡ load_zx32_elf_into_imem elf_behind 88 zeros
load_zx32_elf_into_imem-reads_example =
    load_zx32_elf_into_imem-reads elf elf_behind 88 zeros same_file data_ends

-- Eight bytes of data from offset 2^32 - 4.
abbrev wrapping : Segment
wrapping = record { p_type = 1; p_offset = 0xFFFF_FFFC; p_paddr = 0; p_filesz = 8; p_memsz = 8 }

segment_error-wraps_example :
    (segment_error elf 88 wrapping ≡ 0)
    × (write_segment elf 88 wrapping zeros (imem_base + wrapping.p_paddr)
        ≡ read_u32_le elf wrapping.p_offset)
segment_error-wraps_example =
    segment_error-wraps elf 88 wrapping zeros (record { low = omega arith; whole = refl }) refl refl
      refl (omega arith) (omega arith) (omega arith) (omega arith) (omega arith)

-- Two words are loaded, and the program starts at 16.
two_words : code (load_zx32_elf_into_imem elf 88 zeros) ≡ 0
unfolding load_zx32_elf_into_imem header_error read_u16_le read_u32_le load_segments read_segment
    segment_error write_segment segment_word for_range update
two_words = refl
