-- ===== src/Probe/Cpu.antt =====
-- The smoke tests of the core (hw_bringup/ps_uart_probe_cpu.c), each with the firmware of the build and
-- the addresses of the arrays in DDR as parameters.
use zynq_cpu.Base.{ℕ, ◌+◌, ◌*◌, add32, sub32, List, [], ◌∷◌, ◌++◌}
use zynq_cpu.Mailbox.{mail_status}
use zynq_cpu.Loader.{imem_base}
use zynq_cpu.Boot.Words.{cpu_ctrl}
use zynq_cpu.Probe.Registers.Mail.{
  mail_start, mail_src, mail_dst, mail_len, sup_sepc, sup_scause, sup_marker, sup_status,
  boot_hartid, boot_dtb, boot_cycle, boot_time, boot_instret,
}
use zynq_cpu.Probe.{
  Firmware, Check, is, nonzero, unchecked, or_fail, for_supervisor, for_load_test, for_trap,
  zeros_at, nothing_else,
}

-- The PL CPU's address of an address in DDR.
abbrev pub cpu_addr : ℕ → ℕ
cpu_addr phys = add32 (sub32 phys 0x00000000) 0x80000000

abbrev pub high_exec_cpu_addr : ℕ
high_exec_cpu_addr = 0x81700000

abbrev pub high_exec_ps_addr : ℕ
high_exec_ps_addr = 0x01700000

abbrev pub high_data_cpu_addr : ℕ
high_data_cpu_addr = 0x81710000

abbrev pub high_data_ps_addr : ℕ
high_data_ps_addr = 0x01710000

abbrev pub high_amo_cpu_addr : ℕ
high_amo_cpu_addr = 0x81720000

abbrev pub high_amo_ps_addr : ℕ
high_amo_ps_addr = 0x01720000

abbrev pub sup_trap_marker : ℕ
sup_trap_marker = 0x5A

abbrev pub boot_dtb_value : ℕ
boot_dtb_value = 0x20010000

abbrev pub diagnostics : List ℕ
diagnostics = mail_start ∷ mail_src ∷ mail_dst ∷ mail_len ∷ []

abbrev pub entry_smoke : Firmware → Check
entry_smoke firmware = record {
  prepare = (cpu_ctrl, 1) ∷ (mail_status, 0) ∷ [];
  firmware = firmware;
  late = [];
  wait = for_load_test;
  wants = [];
  also = nothing_else;
}

abbrev pub elf_load : Firmware → Check
elf_load firmware = record {
  prepare = (cpu_ctrl, 1) ∷ (mail_status, 0) ∷ [];
  firmware = firmware;
  late = (imem_base + 16 * 4, 0x12345678) ∷ (imem_base + 17 * 4, 0) ∷ [];
  wait = for_load_test;
  wants = [];
  also = nothing_else;
}

abbrev pub trap_smoke : Firmware → Check
trap_smoke firmware = record {
  prepare = (cpu_ctrl, 1) ∷ (mail_status, 0) ∷ [];
  firmware = firmware;
  late = (imem_base + 20 * 4, 0) ∷ (imem_base + 21 * 4, 0) ∷ (imem_base + 22 * 4, 0) ∷ [];
  wait = for_trap;
  wants = [];
  also = nothing_else;
}

abbrev pub ddr_access_smoke : ℕ → Firmware → Check
ddr_access_smoke probe firmware = record {
  prepare =
      zeros_at probe 32
      ++ ((cpu_ctrl, 1)
          ∷ (mail_start, 0)
          ∷ (mail_src, cpu_addr probe)
          ∷ (mail_dst, 0)
          ∷ (mail_len, 0)
          ∷ (mail_status, 0)
          ∷ []);
  firmware = firmware;
  late = [];
  wait = or_fail diagnostics;
  wants =
      (probe, is 0xDEADBEEF) ∷ (probe + 4, is 0xCAFEBABE) ∷ (probe + 16 * 4, is 0x13579BDF) ∷ [];
  also = nothing_else;
}

abbrev pub ddr_high_access_smoke : Firmware → Check
ddr_high_access_smoke firmware = record {
  prepare =
      zeros_at high_data_ps_addr 32
      ++ ((cpu_ctrl, 1)
          ∷ (mail_start, 0)
          ∷ (mail_src, high_data_cpu_addr)
          ∷ (mail_dst, 0)
          ∷ (mail_len, 0)
          ∷ (mail_status, 0)
          ∷ []);
  firmware = firmware;
  late = [];
  wait = or_fail diagnostics;
  wants =
      (high_data_ps_addr, is 0xDEADBEEF)
      ∷ (high_data_ps_addr + 4, is 0xCAFEBABE)
      ∷ (high_data_ps_addr + 16 * 4, is 0x13579BDF)
      ∷ [];
  also = nothing_else;
}

abbrev pub ddr_high_amo_smoke : Firmware → Check
ddr_high_amo_smoke firmware = record {
  prepare =
      (high_amo_ps_addr, 0xFFFF_FFFF)
      ∷ (cpu_ctrl, 1)
      ∷ (mail_start, 0)
      ∷ (mail_src, high_amo_cpu_addr)
      ∷ (mail_dst, 0)
      ∷ (mail_len, 0)
      ∷ (mail_status, 0)
      ∷ [];
  firmware = firmware;
  late = [];
  wait = or_fail (diagnostics ++ (high_amo_ps_addr ∷ []));
  wants =
      (mail_start, is 0)
      ∷ (mail_src, is 1)
      ∷ (mail_dst, is 3)
      ∷ (mail_len, is high_amo_cpu_addr)
      ∷ (high_amo_ps_addr, is 3)
      ∷ [];
  also = nothing_else;
}

abbrev pub supervisor_smoke : Firmware → Check
supervisor_smoke firmware = record {
  prepare =
      (cpu_ctrl, 1) ∷ (sup_sepc, 0) ∷ (sup_scause, 0) ∷ (sup_marker, 0) ∷ (sup_status, 0) ∷ [];
  firmware = firmware;
  late = [];
  wait = for_supervisor;
  wants = (sup_sepc, unchecked) ∷ (sup_scause, is 9) ∷ (sup_marker, is sup_trap_marker) ∷ [];
  also = nothing_else;
}

abbrev pub supervisor_timer_smoke : Firmware → Check
supervisor_timer_smoke firmware = record {
  prepare =
      (cpu_ctrl, 1) ∷ (sup_sepc, 0) ∷ (sup_scause, 0) ∷ (sup_marker, 0) ∷ (sup_status, 0) ∷ [];
  firmware = firmware;
  late = [];
  wait = for_supervisor;
  wants =
      (sup_sepc, unchecked) ∷ (sup_scause, is 0x80000005) ∷ (sup_marker, is sup_trap_marker) ∷ [];
  also = nothing_else;
}

abbrev pub boot_payload_smoke : Firmware → Check
boot_payload_smoke firmware = record {
  prepare =
      (cpu_ctrl, 1)
      ∷ (boot_hartid, 0xFFFF_FFFF)
      ∷ (boot_dtb, 0)
      ∷ (boot_cycle, 0)
      ∷ (boot_time, 0)
      ∷ (boot_instret, 0)
      ∷ (sup_sepc, 0)
      ∷ (sup_scause, 0)
      ∷ (sup_marker, 0)
      ∷ (sup_status, 0)
      ∷ [];
  firmware = firmware;
  late = [];
  wait = for_supervisor;
  wants =
      (boot_hartid, is 0)
      ∷ (boot_dtb, is boot_dtb_value)
      ∷ (boot_cycle, unchecked)
      ∷ (boot_time, unchecked)
      ∷ (boot_instret, unchecked)
      ∷ (sup_sepc, unchecked)
      ∷ (sup_scause, is 2)
      ∷ (sup_marker, is sup_trap_marker)
      ∷ [];
  also = nothing_else;
}

abbrev pub supervisor_counter_smoke : Firmware → Check
supervisor_counter_smoke firmware = record {
  prepare =
      (cpu_ctrl, 1) ∷ (boot_cycle, 0) ∷ (boot_time, 0) ∷ (boot_instret, 0) ∷ (sup_status, 0) ∷ [];
  firmware = firmware;
  late = [];
  wait = for_supervisor;
  wants = (boot_cycle, nonzero) ∷ (boot_time, nonzero) ∷ (boot_instret, nonzero) ∷ [];
  also = nothing_else;
}
