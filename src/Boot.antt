-- ===== src/Boot.antt =====
-- The steps of the Linux boot that prepare memory (hw_bringup/ps_linux_boot.c): the copies of the boot
-- artifacts, the checks of the artifacts and of the scratch memory, and the counters that are cleared.
pub mod Copy
pub mod Checks
pub mod Words
pub mod Launch
pub mod Monitor
mod Tests
use zynq_cpu.Base.{
  ℕ, ◌+◌, ◌-◌, ◌*◌, ◌/◌, Store, update, add32, sub32, mul32, for_range, ltb, ◌==◌, not, ◌&&◌, ◌||◌,
  Bool,
}
use zynq_cpu.Bridge.{
  tx_scratch, ring_base, ring_head, ring_total, ring_bytes, in_char, in_valid, in_ring_base,
  in_ring_head, in_ring_tail, in_ring_bytes,
}

abbrev pub kernel_ps_addr : ℕ
kernel_ps_addr = 0x00400000

abbrev pub dtb_ps_addr : ℕ
dtb_ps_addr = 0x02000000

abbrev pub boot_backup_ps_addr : ℕ
boot_backup_ps_addr = 0x04100000

abbrev pub boot_blob_bytes : ℕ
boot_blob_bytes = 0x01300000

-- The address that the PS uses for an address of the PL CPU.
unfoldable pub cpu_ddr_to_ps_addr : ℕ → ℕ
cpu_ddr_to_ps_addr cpu_addr = add32 (sub32 cpu_addr 0x80000000) 0x00000000

-- for (off = 0; off < bytes; off += 4)
unfoldable pub copy_words_32 : ℕ → ℕ → ℕ → Store → Store
copy_words_32 dst src bytes =
    for_range ((bytes + 3) / 4) 0 (λ k m. update (add32 dst (k * 4)) (m (add32 src (k * 4))) m)

-- The copy of the artifacts before the first boot, and its way back before a restart.
unfoldable pub back_up_artifacts : Store → Store
back_up_artifacts = copy_words_32 boot_backup_ps_addr kernel_ps_addr boot_blob_bytes

unfoldable pub restore_artifacts : Store → Store
restore_artifacts = copy_words_32 kernel_ps_addr boot_backup_ps_addr boot_blob_bytes

-- The headers of the kernel image and of the device tree are as expected.
unfoldable pub artifacts_present : Store → Bool
artifacts_present m = not (
    not (m kernel_ps_addr == 0x0000106F)
    || (not (m (kernel_ps_addr + 8) == 0x00400000)
        || (not (m (kernel_ps_addr + 12) == 0)
            || (not (m (kernel_ps_addr + 48) == 0x43534952)
                || (not (m (kernel_ps_addr + 52) == 0x00000056)
                    || (not (m (kernel_ps_addr + 56) == 0x05435352)
                        || not (m dtb_ps_addr == 0xEDFE0DD0)))))))

-- The console ring lies in a scratch memory of this many words.
unfoldable pub ring_fits : ℕ → Bool
ring_fits scratch_words =
    let scratch_bytes = mul32 scratch_words 4 in
    let ring_offset = sub32 ring_base tx_scratch in
    not (ltb scratch_bytes ring_offset || ltb (sub32 scratch_bytes ring_offset) ring_bytes)

unfoldable pub clear_words : ℕ → ℕ → Store → Store
clear_words base n = for_range n 0 (λ i. update (base + i * 4) 0)

unfoldable pub clear_linux_console_mirror : Store → Store
clear_linux_console_mirror m =
    let m1 = update ring_total 0 (update ring_head 0 (clear_words ring_base 64 m)) in
    let m2 =
      clear_words in_ring_base (in_ring_bytes / 4) (update in_valid 0 (update in_char 0 m1)) in
    update in_ring_tail 0 (update in_ring_head 0 m2)

unfoldable pub clear_linux_sbi_counters : Store → Store
clear_linux_sbi_counters m =
    let m1 = clear_words (tx_scratch + 0x200) 8 m in
    let m2 = update (tx_scratch + 0x220) 0xFFFF_FFFF m1 in
    clear_linux_console_mirror (clear_words (tx_scratch + 0x224) 7 m2)
