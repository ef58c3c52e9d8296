-- ===== src/Loader/Segments.antt =====
-- The words that the loader writes for one segment (hw_bringup/ps_uart_probe_common.c).
use zynq_cpu.Base.{
  ℕ, zero, suc, ◌+◌, ◌-◌, ◌*◌, ◌/◌, ◌%◌, ◌^◌, ◌≤◌, ◌<◌, ◌≡◌, refl, ◌∙◌, Store, update, update_lem,
  u8, word, add32, shl32, for_range, ltb, leb, ◌==◌, ◌&&◌, if◌then◌else◌, arith,
}
use native.Mathlib.Decide.{ℕ_discrete}
use zynq_cpu.Base.Bits.{bit_or-shifted}
use zynq_cpu.Loader.{imem_base, read_u32_le, Segment, segment_word, write_segment}

-- Four bytes, the first in the lowest bits.
pub read_u32_le_lem :
    (elf : Store) (at : ℕ)
    → read_u32_le elf at
      ≡ u8 (elf at)
        + u8 (elf (at + 1)) * 2 ^ 8
        + u8 (elf (at + 2)) * 2 ^ 16
        + u8 (elf (at + 3)) * 2 ^ 24
unfolding read_u32_le
read_u32_le_lem elf at =
    let b0 = u8 (elf at) in
    let b1 = u8 (elf (at + 1)) in
    let b2 = u8 (elf (at + 2)) in
    let b3 = u8 (elf (at + 3)) in
    let s1 : shl32 b1 8 ≡ b1 * 2 ^ 8 = omega arith in
    let s2 : shl32 b2 16 ≡ b2 * 2 ^ 16 = omega arith in
    let s3 : shl32 b3 24 ≡ b3 * 2 ^ 24 = omega arith in
    let o1 = bit_or-shifted 8 b0 b1 (omega arith) in
    let o2 = bit_or-shifted 16 (b0 + b1 * 2 ^ 8) b2 (omega arith) in
    let o3 = bit_or-shifted 24 (b0 + b1 * 2 ^ 8 + b2 * 2 ^ 16) b3 (omega arith) in
    rw (s1, s2, s3, o1, o2, o3) refl

-- Word writes to consecutive addresses.
writes_lem :
    (f : ℕ → ℕ) (base a n i : ℕ) (m : Store)
    → base + (i + n) * 4 ≤ word
    → for_range n i (λ k. update (add32 base (k * 4)) (f (k * 4))) m a ≡ (
        if (leb (base + i * 4) a && ltb a (base + (i + n) * 4)) && ((a - base) % 4 == 0)
        then f (a - base)
        else m a)
unfolding for_range
writes_lem f base a zero i m h = ground arith
writes_lem f base a (suc n) i m h =
    let exact : add32 base (i * 4) ≡ base + i * 4 = omega arith in
    let next = update (base + i * 4) (f (i * 4)) m in
    rw exact (
      writes_lem f base a n (i + 1) next (omega arith) ∙ elim (ℕ_discrete a (base + i * 4)) [
        | yes e ↦
            let off : a - base ≡ i * 4 = omega arith in
            ground (arith, off, update_lem (base + i * 4) (f (i * 4)) a m)
        | no ne ↦ ground (arith, update_lem (base + i * 4) (f (i * 4)) a m)
      ])

-- The segment fits below 2^32 and its size is a number of words.
pub record Fits (seg : Segment) : Type 0 where
  pub low : imem_base + seg.p_paddr + seg.p_memsz < word
  pub whole : seg.p_memsz % 4 ≡ 0

-- The words of a segment go to its address, and no other address changes.
pub write_segment_lem :
    (elf : Store) (elf_size : ℕ) (seg : Segment) (imem : Store) (a : ℕ)
    → Fits seg
    → write_segment elf elf_size seg imem a ≡ (
        if (leb (imem_base + seg.p_paddr) a && ltb a (imem_base + seg.p_paddr + seg.p_memsz))
          && ((a - (imem_base + seg.p_paddr)) % 4 == 0)
        then segment_word elf elf_size seg (a - (imem_base + seg.p_paddr))
        else imem a)
unfolding write_segment
write_segment_lem elf elf_size seg imem a fits =
    let base = imem_base + seg.p_paddr in
    let exact : add32 imem_base seg.p_paddr ≡ base = omega (arith, fits.low) in
    let size : (0 + seg.p_memsz / 4) * 4 ≡ seg.p_memsz = omega (arith, fits.whole) in
    rw exact (
      ground (
        arith,
        size,
        writes_lem (segment_word elf elf_size seg) base a (seg.p_memsz / 4) 0 imem
            (omega (arith, fits.low, size)),
      ))
