-- ===== src/Boot/Tests.antt =====
-- The boot's theorems at concrete memories.
use zynq_cpu.Base.{◌+◌, ◌≤◌, ◌≡◌, refl, Store, arith, update, update_ne, sym, true}
use zynq_cpu.Boot.{
  kernel_ps_addr, dtb_ps_addr, boot_backup_ps_addr, boot_blob_bytes, back_up_artifacts,
  restore_artifacts, cpu_ddr_to_ps_addr, ring_fits,
}
use zynq_cpu.Boot.Copy.{restore_artifacts_lem, restore_artifacts-dtb}

-- Every word holds its address, and the same with another device tree.
abbrev addresses : Store
addresses a = a

abbrev other_dtb : Store
other_dtb = update dtb_ps_addr 0 addresses

restore_artifacts_lem_example :
    restore_artifacts (back_up_artifacts addresses) (kernel_ps_addr + 8)
    ≡ addresses (kernel_ps_addr + 8)
restore_artifacts_lem_example =
    restore_artifacts_lem addresses (back_up_artifacts addresses) (kernel_ps_addr + 8)
      (λ b lo hi. refl) (omega arith) (omega arith) refl

restore_artifacts-dtb_example :
    (restore_artifacts addresses dtb_ps_addr ≡ addresses dtb_ps_addr)
    × (kernel_ps_addr + boot_blob_bytes ≤ dtb_ps_addr)
    × (back_up_artifacts addresses boot_backup_ps_addr
        ≡ back_up_artifacts other_dtb boot_backup_ps_addr)
restore_artifacts-dtb_example =
    restore_artifacts-dtb addresses other_dtb addresses boot_backup_ps_addr
      (λ b h. sym (update_ne dtb_ps_addr 0 b addresses (omega arith))) (omega arith) (omega arith)
      refl

-- The kernel's address as the PL CPU has it.
kernel_address : cpu_ddr_to_ps_addr 0x80400000 ≡ kernel_ps_addr
unfolding cpu_ddr_to_ps_addr
kernel_address = refl

-- A scratch memory of 64 words is enough for the ring.
smallest_scratch : ring_fits 64 ≡ true
unfolding ring_fits
smallest_scratch = refl
