-- ===== src/Loader/Wrap.antt =====
-- The check of a segment's end (hw_bringup/ps_uart_probe_common.c), a sum of 32 bits.
use zynq_cpu.Base.{ℕ, ◌+◌, ◌-◌, ◌%◌, ◌≤◌, ◌<◌, ◌≡◌, Store, word, add32, arith}
use zynq_cpu.Base.Bits.{bit_and_three}
use zynq_cpu.Loader.{imem_base, read_u32_le, Segment, segment_word, write_segment, segment_error}
use zynq_cpu.Loader.Segments.{Fits, write_segment_lem}

-- A segment whose data starts past the end of the file passes the check where its end wraps to an
-- offset inside the file, and the loader copies the word it reads there.
pub segment_error-wraps :
    (elf : Store) (elf_size : ℕ) (seg : Segment) (imem : Store)
    → Fits seg
    → seg.p_offset % 4 ≡ 0
    → seg.p_paddr % 4 ≡ 0
    → seg.p_filesz % 4 ≡ 0
    → elf_size ≤ seg.p_offset
    → seg.p_offset < word
    → seg.p_filesz ≤ seg.p_memsz
    → word ≤ seg.p_offset + seg.p_filesz
    → seg.p_offset + seg.p_filesz ≤ word + elf_size
    → (segment_error elf elf_size seg ≡ 0)
      × (write_segment elf elf_size seg imem (imem_base + seg.p_paddr)
          ≡ read_u32_le elf seg.p_offset)
unfolding segment_error segment_word
segment_error-wraps elf elf_size seg imem fits o p f past low mem wraps ends =
    let here : imem_base + seg.p_paddr - (imem_base + seg.p_paddr) ≡ 0 = omega arith in
    let start : add32 seg.p_offset 0 ≡ seg.p_offset = omega arith in
    (
      ground (
        arith,
        bit_and_three seg.p_offset,
        bit_and_three seg.p_paddr,
        bit_and_three seg.p_filesz,
        bit_and_three seg.p_memsz,
        fits.whole,
        fits.low,
      ),
      ground (
        arith,
        write_segment_lem elf elf_size seg imem (imem_base + seg.p_paddr) fits,
        here,
        start,
        fits.low,
      ),
    )
