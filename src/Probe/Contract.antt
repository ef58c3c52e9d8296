-- ===== src/Probe/Contract.antt =====
-- The smoke tests of what Linux is promised (hw_bringup/ps_uart_probe_sbi.c): a payload with a device tree,
-- and the layout of the kernel image.
use zynq_cpu.Base.{
  ℕ, ◌+◌, ◌*◌, Store, add32, ◌==◌, leb, not, ◌||◌, if◌then◌else◌, Bool, false, List, [], ◌∷◌, ◌++◌,
  length, map, Option, none, some,
}
use zynq_cpu.Mailbox.{mail_status}
use zynq_cpu.Boot.Words.{cpu_ctrl, linux_entry, linux_dtb, kernel_cpu_addr, dtb_cpu_addr}
use zynq_cpu.Boot.{kernel_ps_addr, dtb_ps_addr}
use zynq_cpu.Probe.Registers.Linux.{
  linux_mcause, linux_mepc, linux_sbi_eid, linux_sbi_fid, linux_sbi_arg0, linux_sbi_retval,
  linux_cmp_lo, linux_cmp_hi, linux_hartid, linux_payload_dtb, linux_dtb_magic, linux_base_version,
  linux_scause, linux_sepc, linux_time0, linux_time1, linux_dtb_total, linux_dtb_struct,
  linux_dtb_strings, linux_fdt_root, linux_addr_cells, linux_size_cells, linux_fdt_memory,
  linux_reg_addr, linux_reg_size, linux_image_code0, linux_image_text_lo, linux_image_text_hi,
  linux_image_size_lo, linux_image_size_hi, linux_image_magic0, linux_image_magic1,
  linux_image_magic2, linux_alias_80000000, linux_alias_80100000, linux_alias_80200000,
  linux_alias_80300000, linux_alias_80400000, linux_alias_80500000, linux_alias_dtb,
}
use zynq_cpu.Probe.{
  Bench, Firmware, Check, is, nonzero, unchecked, or_read_again, zeros_at, words_at, nothing_else,
  run_check,
}
use zynq_cpu.Probe.Cpu.{cpu_addr}

abbrev pub dtb_word_offset : ℕ
dtb_word_offset = 512

abbrev pub linux_contract_words : ℕ
linux_contract_words = 1024

-- The words of the device tree, each with its place.
abbrev pub device_tree : List (ℕ × ℕ)
device_tree =
    (0, 0xEDFE0DD0)
    ∷ (1, 0x00010000)
    ∷ (2, 0x38000000)
    ∷ (3, 0xA0000000)
    ∷ (4, 0x28000000)
    ∷ (5, 0x11000000)
    ∷ (6, 0x10000000)
    ∷ (7, 0x00000000)
    ∷ (8, 0x40000000)
    ∷ (9, 0x5C000000)
    ∷ (14, 0x01000000)
    ∷ (15, 0x00000000)
    ∷ (16, 0x03000000)
    ∷ (17, 0x04000000)
    ∷ (18, 0x00000000)
    ∷ (19, 0x01000000)
    ∷ (20, 0x03000000)
    ∷ (21, 0x04000000)
    ∷ (22, 0x0F000000)
    ∷ (23, 0x01000000)
    ∷ (24, 0x01000000)
    ∷ (25, 0x6F6D656D)
    ∷ (26, 0x38407972)
    ∷ (27, 0x30303030)
    ∷ (28, 0x00303030)
    ∷ (29, 0x03000000)
    ∷ (30, 0x08000000)
    ∷ (31, 0x1B000000)
    ∷ (32, 0x00000080)
    ∷ (33, 0x00000040)
    ∷ (34, 0x02000000)
    ∷ (35, 0x02000000)
    ∷ (36, 0x09000000)
    ∷ (40, 0x64646123)
    ∷ (41, 0x73736572)
    ∷ (42, 0x6C65632D)
    ∷ (43, 0x2300736C)
    ∷ (44, 0x657A6973)
    ∷ (45, 0x6C65632D)
    ∷ (46, 0x7200736C)
    ∷ (47, 0x00006765)
    ∷ []

-- The payload, and the device tree behind it.
abbrev pub contract_memory : ℕ → List ℕ → List (ℕ × ℕ)
contract_memory at payload =
    zeros_at at linux_contract_words
    ++ (words_at at payload
        ++ map (λ (w : ℕ × ℕ). (at + (dtb_word_offset + w.0) * 4, w.1)) device_tree)

-- The mailbox before the firmware is loaded.
abbrev pub contract_mailbox : ℕ → List (ℕ × ℕ)
contract_mailbox at =
    (cpu_ctrl, 1)
    ∷ (linux_entry, cpu_addr at)
    ∷ (linux_dtb, add32 (cpu_addr at) (dtb_word_offset * 4))
    ∷ (linux_mcause, 0)
    ∷ (linux_mepc, 0)
    ∷ (linux_sbi_eid, 0)
    ∷ (linux_sbi_fid, 0xFFFF_FFFF)
    ∷ (linux_sbi_arg0, 0)
    ∷ (linux_sbi_retval, 0xFFFF_FFFF)
    ∷ (linux_cmp_lo, 0)
    ∷ (linux_cmp_hi, 0)
    ∷ (linux_hartid, 0xFFFF_FFFF)
    ∷ (linux_payload_dtb, 0)
    ∷ (linux_dtb_magic, 0)
    ∷ (linux_base_version, 0)
    ∷ (linux_scause, 0)
    ∷ (linux_sepc, 0)
    ∷ (linux_time0, 0)
    ∷ (linux_time1, 0)
    ∷ (linux_dtb_total, 0)
    ∷ (linux_dtb_struct, 0)
    ∷ (linux_dtb_strings, 0)
    ∷ (linux_fdt_root, 0)
    ∷ (linux_addr_cells, 0)
    ∷ (linux_size_cells, 0)
    ∷ (linux_fdt_memory, 0)
    ∷ (linux_reg_addr, 0)
    ∷ (linux_reg_size, 0)
    ∷ (mail_status, 0)
    ∷ []

abbrev pub linux_contract_smoke : ℕ → List ℕ → Firmware → Check
linux_contract_smoke at payload firmware = record {
  prepare = contract_memory at payload ++ contract_mailbox at;
  firmware = firmware;
  late = [];
  wait = or_read_again;
  wants =
      (linux_mcause, is 9)
      ∷ (linux_mepc, unchecked)
      ∷ (linux_sbi_eid, is 0x54494D45)
      ∷ (linux_sbi_fid, is 0)
      ∷ (linux_sbi_arg0, unchecked)
      ∷ (linux_sbi_retval, is 0)
      ∷ (linux_cmp_lo, unchecked)
      ∷ (linux_cmp_hi, unchecked)
      ∷ (linux_hartid, is 0)
      ∷ (linux_payload_dtb, is (add32 (cpu_addr at) (dtb_word_offset * 4)))
      ∷ (linux_dtb_magic, is 0xD00DFEED)
      ∷ (linux_base_version, is 2)
      ∷ (linux_scause, is 0x80000005)
      ∷ (linux_sepc, unchecked)
      ∷ (linux_time0, unchecked)
      ∷ (linux_time1, unchecked)
      ∷ (linux_dtb_total, is 0x100)
      ∷ (linux_dtb_struct, is 0x38)
      ∷ (linux_dtb_strings, is 0xA0)
      ∷ (linux_fdt_root, is 1)
      ∷ (linux_addr_cells, is 1)
      ∷ (linux_size_cells, is 1)
      ∷ (linux_fdt_memory, is 1)
      ∷ (linux_reg_addr, is 0x80000000)
      ∷ (linux_reg_size, is 0x40000000)
      ∷ [];
  also = nothing_else;
}

abbrev pub linux_image_layout_smoke : Firmware → Check
linux_image_layout_smoke firmware = record {
  prepare =
      (cpu_ctrl, 1)
      ∷ (linux_entry, kernel_cpu_addr)
      ∷ (linux_dtb, dtb_cpu_addr)
      ∷ (linux_dtb_magic, 0)
      ∷ (linux_image_code0, 0)
      ∷ (linux_image_text_lo, 0)
      ∷ (linux_image_text_hi, 0)
      ∷ (linux_image_size_lo, 0)
      ∷ (linux_image_size_hi, 0)
      ∷ (linux_image_magic0, 0)
      ∷ (linux_image_magic1, 0)
      ∷ (linux_image_magic2, 0)
      ∷ (linux_alias_80000000, 0)
      ∷ (linux_alias_80100000, 0)
      ∷ (linux_alias_80200000, 0)
      ∷ (linux_alias_80300000, 0)
      ∷ (linux_alias_80400000, 0)
      ∷ (linux_alias_80500000, 0)
      ∷ (linux_alias_dtb, 0)
      ∷ (mail_status, 0)
      ∷ [];
  firmware = firmware;
  late = [];
  wait = or_read_again;
  wants =
      (linux_image_code0, is 0x0000106F)
      ∷ (linux_image_text_lo, is 0x00400000)
      ∷ (linux_image_text_hi, is 0)
      ∷ (linux_image_size_lo, nonzero)
      ∷ (linux_image_size_hi, is 0)
      ∷ (linux_image_magic0, is 0x43534952)
      ∷ (linux_image_magic1, is 0x00000056)
      ∷ (linux_image_magic2, is 0x05435352)
      ∷ (linux_dtb_magic, is 0xEDFE0DD0)
      ∷ (linux_alias_80000000, unchecked)
      ∷ (linux_alias_80100000, unchecked)
      ∷ (linux_alias_80200000, unchecked)
      ∷ (linux_alias_80300000, unchecked)
      ∷ (linux_alias_80400000, unchecked)
      ∷ (linux_alias_80500000, unchecked)
      ∷ (linux_alias_dtb, unchecked)
      ∷ [];
  also = nothing_else;
}

-- The kernel and its device tree are seen in DDR.
unfoldable pub image_present : Store → Bool
image_present m = not (
    not (m kernel_ps_addr == 0x0000106F)
    || (not (m (kernel_ps_addr + 8) == 0x00400000)
        || (not (m (kernel_ps_addr + 12) == 0)
            || (not (m (kernel_ps_addr + 48) == 0x43534952)
                || (not (m (kernel_ps_addr + 52) == 0x00000056)
                    || (not (m (kernel_ps_addr + 56) == 0x05435352)
                        || not (m dtb_ps_addr == 0xEDFE0DD0)))))))

module _ {D : Type 0} (b : Bench D) where
  unfoldable pub run_cpu_linux_contract_smoke_test : ℕ → List ℕ → Firmware → Store → Bool × Store
  run_cpu_linux_contract_smoke_test at payload firmware m =
      if leb dtb_word_offset (length payload)
      then (false, m)
      else run_check b (linux_contract_smoke at payload firmware) m

  -- No answer is the code 1, with which the test is skipped.
  unfoldable pub run_cpu_linux_image_layout_smoke_test : Firmware → Store → Option Bool × Store
  run_cpu_linux_image_layout_smoke_test firmware m =
      let r = run_check b (linux_image_layout_smoke firmware) m in
      if image_present m then (some r.0, r.1) else (none, m)
