-- ===== src/Boot/Launch/Keeps.antt =====
-- What the steps of a boot leave as it is (hw_bringup/ps_linux_boot.c and ps_uart_probe_common.c).
use zynq_cpu.Base.{
  ℕ, zero, suc, ◌+◌, ◌*◌, ◌/◌, ◌≤◌, ◌<◌, ◌≡◌, ◌⊎◌, refl, ◌∙◌, Store, update, update_ne, add32,
  mul32, for_range_inv, bit_and, bit_or, shl32, not, ◌==◌, if◌then◌else◌, Bool, true, false,
  if_both, Option, none, some, arith,
}
use native.Mathlib.Decide.{ℕ_discrete}
use zynq_cpu.Temperature.{
  wait_clear, xadcif_read_internal, publish_sample, publish_zynq_temperature, sysmon_status,
  xadcif_msts, xadcif_cmdfifo, xadcif_rdfifo,
}
use zynq_cpu.Loader.{
  imem_base, Segment, read_segment, read_u16_le, read_u32_le, Loaded, fail, loaded, segment_word,
  write_segment, segment_error, header_error, load_segments, load_zx32_elf_into_imem,
}
use zynq_cpu.Boot.Launch.{Board, bus_in, bus_out, publish}

-- Publishing a sample writes no register below the first of the four that it publishes in.
module _ {D : Type 0} (in32 : ℕ → D → ℕ × D) (out32 : ℕ → ℕ → D → D) (P : D → Type 0)
    (keep_in : (a : ℕ) (d : D) → P d → P (in32 a d).1)
    (keep_out : (a v : ℕ) (d : D) → sysmon_status ≤ a → P d → P (out32 a v d)) where
  wait_clear-keeps : (mask n : ℕ) (d : D) → P d → P (wait_clear in32 out32 mask n d).1
  unfolding wait_clear
  wait_clear-keeps mask zero d h = h
  wait_clear-keeps mask (suc n) d h =
      if_both (λ (r : Bool × D). P r.1) (bit_and (in32 xadcif_msts d).0 mask == 0)
        {x = (true, (in32 xadcif_msts d).1)}
        {y = wait_clear in32 out32 mask n (in32 xadcif_msts d).1} (keep_in _ d h)
        (wait_clear-keeps mask n (in32 xadcif_msts d).1 (keep_in _ d h))

  pick-keeps :
      (ready filled : Bool) (d1 : D) (value : Option ℕ) (d4 d3 : D)
      → P d1
      → P d4
      → P d3
      → (let r : Option ℕ × D =
            if not ready then (none, d1) else if filled then (value, d4) else (none, d3) in
          P r.1)
  pick-keeps true true d1 value d4 d3 h1 h4 h3 = h4
  pick-keeps true false d1 value d4 d3 h1 h4 h3 = h3
  pick-keeps false filled d1 value d4 d3 h1 h4 h3 = h1

  read-keeps : (reg : ℕ) (d : D) → P d → P (xadcif_read_internal in32 out32 reg d).1
  unfolding xadcif_read_internal
  read-keeps reg d h =
      let cmd = bit_or 0x04000000 (shl32 (bit_and reg 0x3ff) 16) in
      let ready = wait_clear in32 out32 0x00000800 10000 d in
      let asked = (in32 xadcif_rdfifo (out32 xadcif_cmdfifo cmd ready.1)).1 in
      let filled = wait_clear in32 out32 0x00000100 10000 (out32 xadcif_cmdfifo 0 asked) in
      let p1 : P ready.1 = wait_clear-keeps 0x00000800 10000 d h in
      let p2 : P asked = keep_in _ _ (keep_out xadcif_cmdfifo cmd ready.1 (omega arith) p1) in
      let p3 : P filled.1 =
        wait_clear-keeps 0x00000100 10000 _ (keep_out xadcif_cmdfifo 0 asked (omega arith) p2) in
      pick-keeps ready.0 filled.0 ready.1 (some (bit_and (in32 xadcif_rdfifo filled.1).0 0xffff))
        (in32 xadcif_rdfifo filled.1).1 filled.1 p1 (keep_in xadcif_rdfifo filled.1 p3) p3

  sample-keeps :
      (sample : Option ℕ) (seq : ℕ) (d : D) → P d → P (publish_sample in32 out32 sample seq d).1
  unfolding publish_sample
  sample-keeps none seq d h = keep_out _ _ d (omega arith) h
  sample-keeps (some raw) seq d h =
      keep_out _ _ _ (omega arith) (
        keep_out _ _ _ (omega arith)
          (keep_out _ _ _ (omega arith) (keep_out _ _ d (omega arith) h)))

  publish_zynq_temperature-keeps :
      (seq : ℕ) (d : D) → P d → P (publish_zynq_temperature in32 out32 seq d).1
  unfolding publish_zynq_temperature
  publish_zynq_temperature-keeps seq d h = sample-keeps _ seq _ (
      read-keeps 0 _ (
        keep_out _ _ _ (omega arith)
          (keep_out _ _ _ (omega arith) (keep_in _ _ (keep_out _ _ d (omega arith) h)))))

module _ {X S : Type 0} (xadc_in : ℕ → X → ℕ × X) (xadc_out : ℕ → ℕ → X → X) where
  pub publish-mem :
      (a : ℕ) (b : Board X S) → a < sysmon_status → (publish xadc_in xadc_out b).mem a ≡ b.mem a
  unfolding publish bus_in bus_out
  publish-mem a b h =
      publish_zynq_temperature-keeps (bus_in xadc_in xadc_out) (bus_out xadc_in xadc_out)
        (λ d. d.0 a ≡ b.mem a) (λ k d e. ground arith)
        (λ k v d le e. ground (arith, update_ne k v a d.0)) b.sample_seq (b.mem, b.hardware) refl

-- The program header number `j`.
abbrev pub segment_at : Store → ℕ → Segment
segment_at elf j = read_segment elf (add32 (read_u32_le elf 28) (mul32 j (read_u16_le elf 42)))

-- The memory that a load leaves, whether it succeeds or not.
abbrev pub loaded_mem : Loaded → Store
loaded_mem (fail code m) = m
loaded_mem (loaded words entry m) = m

-- Every segment that is to be loaded lies in instruction memory, which has 16 KiB.
abbrev pub Confined : Store → Type 0
Confined elf =
    (j : ℕ)
    → j < read_u16_le elf 44
    → (segment_at elf j).p_type ≡ 1
    → (segment_at elf j).p_paddr + (segment_at elf j).p_memsz ≤ 0x4000

-- A load of such a file leaves the memory outside instruction memory alone.
module _ (elf : Store) (elf_size a : ℕ) (outside : (a < imem_base) ⊎ (imem_base + 0x4000 ≤ a)) where
  write_segment-keeps :
      (seg : Segment) (m : Store)
      → seg.p_paddr + seg.p_memsz ≤ 0x4000
      → write_segment elf elf_size seg m a ≡ m a
  unfolding write_segment
  write_segment-keeps seg m fits =
      for_range_inv (λ k s. s a ≡ m a)
        (λ k.
          update (add32 (add32 imem_base seg.p_paddr) (k * 4))
            (segment_word elf elf_size seg (k * 4)))
        0 (seg.p_memsz / 4) (λ k s lo hi e. update_ne _ _ a s (ground (arith, outside)) ∙ e)
        (seg.p_memsz / 4) 0 m (omega arith) (omega arith) refl

  load_segments-keeps :
      (n i entry words : ℕ) (m : Store)
      → ((j : ℕ)
          → j < i + n
          → (segment_at elf j).p_type ≡ 1
          → (segment_at elf j).p_paddr + (segment_at elf j).p_memsz ≤ 0x4000)
      → loaded_mem
          (load_segments elf elf_size n i (read_u32_le elf 28) (read_u16_le elf 42) entry words m)
          a
        ≡ m a
  unfolding load_segments
  load_segments-keeps zero i entry words m confined = refl
  load_segments-keeps (suc n) i entry words m confined =
      let later : (j : ℕ)
          → j < i + 1 + n
          → (segment_at elf j).p_type ≡ 1
          → (segment_at elf j).p_paddr + (segment_at elf j).p_memsz ≤ 0x4000 =
        λ j lt. confined j (omega arith) in
      let seg = segment_at elf i in
      let skip = load_segments-keeps n (i + 1) entry words m later in
      elim (ℕ_discrete seg.p_type 1) [
        | no other ↦ let t : (seg.p_type == 1) ≡ false = ground arith in rw t skip
        | yes load ↦
            let t : (seg.p_type == 1) ≡ true = ground arith in
            let next =
              load_segments-keeps n (i + 1) entry (add32 words (seg.p_memsz / 4))
                (write_segment elf elf_size seg m) later
              ∙ write_segment-keeps seg m (confined i (omega arith) load) in
            rw t (
              if_both (λ r. loaded_mem r a ≡ m a) (segment_error elf elf_size seg == 0)
                {x = load_segments elf elf_size n (i + 1) (read_u32_le elf 28) (read_u16_le elf 42)
                  entry (add32 words (seg.p_memsz / 4)) (write_segment elf elf_size seg m)}
                {y = fail (segment_error elf elf_size seg) m} next refl)
      ]

  pub load_zx32_elf_into_imem-keeps :
      (m : Store) → Confined elf → loaded_mem (load_zx32_elf_into_imem elf elf_size m) a ≡ m a
  unfolding load_zx32_elf_into_imem
  load_zx32_elf_into_imem-keeps m confined =
      if_both (λ r. loaded_mem r a ≡ m a) (header_error elf elf_size == 0)
        {x = load_segments elf elf_size (read_u16_le elf 44) 0 (read_u32_le elf 28)
          (read_u16_le elf 42) (read_u32_le elf 24) 0 m}
        {y = fail (header_error elf elf_size) m}
        (load_segments-keeps (read_u16_le elf 44) 0 (read_u32_le elf 24) 0 m
          (λ j lt. confined j (omega arith)))
        refl
