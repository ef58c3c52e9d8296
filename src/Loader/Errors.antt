-- ===== src/Loader/Errors.antt =====
-- The error codes of `load_zx32_elf_into_imem` (hw_bringup/ps_uart_probe_common.c).
use zynq_cpu.Base.{
  ℕ, zero, suc, ◌+◌, ◌/◌, add32, mul32, ◌≤◌, ◌≡◌, ◌≢◌, refl, Store, ◌==◌, not, arith, if_both,
}
use zynq_cpu.Loader.{
  Segment, read_segment, Loaded, read_u16_le, read_u32_le, header_error, segment_error,
  write_segment, load_segments, load_zx32_elf_into_imem,
}
use zynq_cpu.Loader.Bounds.{code, memory}

segment_error_codes :
    (elf : Store) (elf_size : ℕ) (seg : Segment)
    → segment_error elf elf_size seg ≢ 0
    → (9 ≤ segment_error elf elf_size seg) × (segment_error elf elf_size seg ≤ 11)
unfolding segment_error
segment_error_codes elf elf_size seg ne = ground arith

-- A refusal among the segments has a code from 9 to 11.
record Late (r : Loaded) : Type 0 where
  codes : code r ≢ 0 → (9 ≤ code r) × (code r ≤ 11)

load_segments-Late :
    (elf : Store) (elf_size n i phoff phentsize entry words : ℕ) (imem : Store)
    → Late (load_segments elf elf_size n i phoff phentsize entry words imem)
unfolding load_segments
load_segments-Late elf elf_size zero i phoff phentsize entry words imem = record {
  codes = λ ne. absurd (ne refl);
}
load_segments-Late elf elf_size (suc n) i phoff phentsize entry words imem =
    let seg = read_segment elf (add32 phoff (mul32 i phentsize)) in
    if_both Late (not (seg.p_type == 1))
      (load_segments-Late elf elf_size n (i + 1) phoff phentsize entry words imem)
      (if_both Late (segment_error elf elf_size seg == 0)
        (load_segments-Late elf elf_size n (i + 1) phoff phentsize entry
          (add32 words (seg.p_memsz / 4)) (write_segment elf elf_size seg imem))
        (record { codes = segment_error_codes elf elf_size seg }))

-- A result that is a refusal of the header has the memory as it was.
record Untouched (imem : Store) (r : Loaded) : Type 0 where
  same : code r ≢ 0 → code r ≤ 8 → memory r ≡ imem

Late-Untouched : (imem : Store) (r : Loaded) → Late r → Untouched imem r
Late-Untouched imem r late = record { same = λ ne low. absurd (omega (arith, (late.codes ne).0)) }

load_zx32_elf_into_imem-Untouched :
    (elf : Store) (elf_size : ℕ) (imem : Store)
    → Untouched imem (load_zx32_elf_into_imem elf elf_size imem)
unfolding load_zx32_elf_into_imem
load_zx32_elf_into_imem-Untouched elf elf_size imem =
    if_both (Untouched imem) (header_error elf elf_size == 0)
      (Late-Untouched imem _ (
        load_segments-Late elf elf_size (read_u16_le elf 44) 0 (read_u32_le elf 28)
          (read_u16_le elf 42) (read_u32_le elf 24) 0 imem))
      (record { same = λ n l. refl })

-- A code from 1 to 8 refuses the header, and then nothing has been written.
pub load_zx32_elf_into_imem-refuses :
    (elf : Store) (elf_size : ℕ) (imem : Store)
    → code (load_zx32_elf_into_imem elf elf_size imem) ≢ 0
    → code (load_zx32_elf_into_imem elf elf_size imem) ≤ 8
    → memory (load_zx32_elf_into_imem elf elf_size imem) ≡ imem
load_zx32_elf_into_imem-refuses elf elf_size imem =
    (load_zx32_elf_into_imem-Untouched elf elf_size imem).same
