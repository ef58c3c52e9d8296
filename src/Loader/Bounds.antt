-- ===== src/Loader/Bounds.antt =====
-- The header checks of `load_zx32_elf_into_imem` (hw_bringup/ps_uart_probe_common.c) and its result.
use zynq_cpu.Base.{ℕ, ◌+◌, ◌-◌, ◌*◌, ◌≤◌, ◌<◌, ◌≡◌, refl, ◌∙◌, Store, u8, for_range, arith}
use zynq_cpu.Loader.{
  imem_base, read_u16_le, read_u32_le, Loaded, loaded, fail, segment_word, header_error,
  load_segments, load_zx32_elf_into_imem,
}
use zynq_cpu.Loader.Image.{segment, Good, Covers, place, count, load_all, place_inside}

-- The header of a little-endian 32-bit RISC-V executable, with its program headers right behind it
-- and inside the file.
pub record IsHeader (elf : Store) (elf_size : ℕ) : Type 0 where
  pub long : 52 ≤ elf_size
  pub magic : (u8 (elf 0) ≡ 0x7f) × (u8 (elf 1) ≡ b'E') × (u8 (elf 2) ≡ b'L') × (u8 (elf 3) ≡ b'F')
  pub ident : (u8 (elf 4) ≡ 1) × (u8 (elf 5) ≡ 1) × (u8 (elf 6) ≡ 1)
  pub executable : read_u16_le elf 16 ≡ 2
  pub riscv : read_u16_le elf 18 ≡ 243
  pub table_at : read_u32_le elf 28 ≡ 52
  pub entry_size : read_u16_le elf 42 ≡ 32
  pub table_inside : 52 + read_u16_le elf 44 * 32 ≤ elf_size

pub read_u16_le-lt : (elf : Store) (at : ℕ) → read_u16_le elf at < 65536
unfolding read_u16_le
read_u16_le-lt elf at = omega arith

-- The checks pass on such a header, and on no other.
pub header_error-IsHeader :
    (elf : Store) (elf_size : ℕ)
    → (IsHeader elf elf_size → header_error elf elf_size ≡ 0)
      × (header_error elf elf_size ≡ 0 → IsHeader elf elf_size)
unfolding header_error
header_error-IsHeader elf elf_size = (
  λ h.
      rw
        (
          h.magic.0, h.magic.1, h.magic.2, h.magic.3, h.ident.0, h.ident.1, h.ident.2, h.executable,
          h.riscv, h.table_at, h.entry_size,
        )
        (ground (arith, h.long, h.table_inside, read_u16_le-lt elf 44)),
  λ h.
      let phoff : read_u32_le elf 28 ≡ 52 = ground arith in
      let size : read_u16_le elf 42 ≡ 32 = ground arith in
      record {
        long = ground arith;
        magic = ground arith;
        ident = ground arith;
        executable = ground arith;
        riscv = ground arith;
        table_at = phoff;
        entry_size = size;
        table_inside = ground (arith, read_u16_le-lt elf 44, (rw (phoff, size) at h));
      },
)

header_passes :
    (elf : Store) (elf_size : ℕ) (imem : Store)
    → IsHeader elf elf_size
    → load_zx32_elf_into_imem elf elf_size imem
      ≡ load_segments elf elf_size (read_u16_le elf 44) 0 52 32 (read_u32_le elf 24) 0 imem
unfolding load_zx32_elf_into_imem
header_passes elf elf_size imem h =
    rw ((header_error-IsHeader elf elf_size).0 h, h.table_at, h.entry_size) refl

-- A file with a good header whose loadable segments pass the checks and fit is loaded: the result
-- is the entry point and the number of words, and each word of a segment stands at its address in
-- the end, unless a later segment covers that address.
pub load_zx32_elf_into_imem_lem :
    (elf : Store) (elf_size : ℕ) (imem : Store) (k a : ℕ)
    → IsHeader elf elf_size
    → ((j : ℕ) → 0 ≤ j → j < 0 + read_u16_le elf 44 → Good elf elf_size 52 32 j)
    → k < read_u16_le elf 44
    → (segment elf elf_size 52 32 k).p_type ≡ 1
    → Covers (segment elf elf_size 52 32 k) a
    → ((j : ℕ)
        → k < j
        → j < 0 + read_u16_le elf 44
        → (segment elf elf_size 52 32 j).p_type ≡ 1
        → Covers (segment elf elf_size 52 32 j) a
        → ⊥)
    → (load_zx32_elf_into_imem elf elf_size imem
        ≡ loaded
            (for_range (read_u16_le elf 44) 0 (count elf elf_size 52 32) 0)
            (read_u32_le elf 24)
            (for_range (read_u16_le elf 44) 0 (place elf elf_size 52 32) imem))
      × (for_range (read_u16_le elf 44) 0 (place elf elf_size 52 32) imem a
          ≡ segment_word elf elf_size
              (segment elf elf_size 52 32 k)
              (a - (imem_base + (segment elf elf_size 52 32 k).p_paddr)))
load_zx32_elf_into_imem_lem elf elf_size imem k a h good below load covers apart = (
  header_passes elf elf_size imem h
      ∙ load_all elf elf_size 52 32 (read_u32_le elf 24) (read_u16_le elf 44) 0 0 imem good,
  place_inside elf elf_size 52 32 k a (read_u16_le elf 44) 0 imem good (omega arith) (omega arith)
      load covers apart,
)

abbrev pub code : Loaded → ℕ
code (fail c m) = c
code (loaded words entry m) = 0

abbrev pub memory : Loaded → Store
memory (fail c m) = m
memory (loaded words entry m) = m
