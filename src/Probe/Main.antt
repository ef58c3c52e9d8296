-- ===== src/Probe/Main.antt =====
-- The probe program (hw_bringup/ps_uart_probe.c, `main`): a check of the register block, then the tests one
-- after the other, each with a line that says how it ended.
use zynq_cpu.Base.{
  ℕ, ◌+◌, Store, ◌==◌, ◌&&◌, if◌then◌else◌, Bool, true, false, List, [], ◌∷◌, ◌++◌, Option, none,
  some,
}
use zynq_cpu.Probe.{Bench, Firmware, Check, run_check}
use zynq_cpu.Probe.Cpu.{
  entry_smoke, elf_load, trap_smoke, ddr_access_smoke, ddr_high_access_smoke, ddr_high_amo_smoke,
  supervisor_smoke, supervisor_timer_smoke, boot_payload_smoke, supervisor_counter_smoke,
}
use zynq_cpu.Probe.Exec.{
  run_cpu_ddr_exec_smoke_test, run_cpu_ddr_high_exec_smoke_test, run_cpu_bram_load_test,
}
use zynq_cpu.Probe.Sbi.{
  run_cpu_sbi_smoke_test, run_cpu_sbi_timer_smoke_test, run_cpu_linux_sbi_smoke_test,
}
use zynq_cpu.Probe.Contract.{
  run_cpu_linux_contract_smoke_test, run_cpu_linux_image_layout_smoke_test,
}
use zynq_cpu.Probe.Dma.{
  run_datamover_loopback, run_cpu_datamover_loopback, run_cpu_custom_datamover_test,
}

abbrev pub build_id : ℕ
build_id = 0x43C00000 + 0x00

abbrev pub pl_status : ℕ
pl_status = 0x43C00000 + 0x04

abbrev pub pl_scratch : ℕ
pl_scratch = 0x43C00000 + 0x08

pub data Report : Type 0 where
  pass : Report
  fails : Report
  skip : Report

abbrev pub report : Bool → Report
report true = pass
report false = fails

abbrev pub report_code : ℕ → Report
report_code code = if code == 0 then pass else fails

abbrev pub report_layout : Option Bool → Report
report_layout none = skip
report_layout (some ok) = report ok

-- The arrays of the program in DDR.
pub record Arrays : Type 0 where
  pub dma_src : ℕ
  pub dma_dst : ℕ
  pub cpu_dma_src : ℕ
  pub cpu_dma_dst : ℕ
  pub cpu_ddr_probe : ℕ
  pub cpu_ddr_exec : ℕ
  pub cpu_sbi_payload : ℕ
  pub cpu_linux_contract : ℕ

-- The programs and payloads of the build.
pub record Programs : Type 0 where
  pub bram_load : List ℕ
  pub xcpyw_check : List ℕ
  pub ddr_exec : List ℕ
  pub ddr_high_exec : List ℕ
  pub sbi_payload : List ℕ
  pub sbi_timer_payload : List ℕ
  pub linux_sbi_payload : List ℕ
  pub contract_payload : List ℕ

-- The firmwares of the build, by the tests that load them.
pub record Firmwares : Type 0 where
  pub elf_load_firmware : Firmware
  pub entry_firmware : Firmware
  pub trap_firmware : Firmware
  pub supervisor_firmware : Firmware
  pub timer_firmware : Firmware
  pub boot_payload_firmware : Firmware
  pub counter_firmware : Firmware
  pub custom_datamover_firmware : Firmware
  pub ddr_access_firmware : Firmware
  pub high_access_firmware : Firmware
  pub high_amo_firmware : Firmware
  pub sbi_firmware : Firmware
  pub sbi_timer_firmware : Firmware
  pub contract_firmware : Firmware
  pub linux_sbi_firmware : Firmware
  pub image_layout_firmware : Firmware

-- One test after the other, each on what the ones before it leave.
unfoldable pub run_tests : List (Store → Report × Store) → Store → List Report × Store
run_tests [] m = ([], m)
run_tests (test ∷ tests) m =
    let r = test m in let rest = run_tests tests r.1 in (r.0 ∷ rest.0, rest.1)

module _ {D : Type 0} (b : Bench D) (out32 : ℕ → ℕ → D → D) (arrays : Arrays) (programs : Programs)
    (fw : Firmwares) where
  -- The register block answers.
  unfoldable pub axi_probe : D → Report × D
  axi_probe d =
      let id = b.in32 build_id d in
      let status = b.in32 pl_status id.1 in
      let scratch = b.in32 pl_scratch (out32 pl_scratch 0x13579BDF status.1) in
      (report (id.0 == 0x26051001 && (status.0 == 1 && scratch.0 == 0x13579BDF)), scratch.1)

  abbrev checks : Check → Store → Report × Store
  checks c m = let r = run_check b c m in (report r.0, r.1)

  abbrev reports : (Store → Bool × Store) → Store → Report × Store
  reports test m = let r = test m in (report r.0, r.1)

  abbrev reports_code : (Store → ℕ × Store) → Store → Report × Store
  reports_code test m = let r = test m in (report_code r.0, r.1)

  abbrev reports_layout : (Store → Option Bool × Store) → Store → Report × Store
  reports_layout test m = let r = test m in (report_layout r.0, r.1)

  -- The tests that hold the PL CPU before they start it, but for the last.
  abbrev pub core_tests : List (Store → Report × Store)
  core_tests =
      reports (run_cpu_bram_load_test b programs.bram_load programs.xcpyw_check)
      ∷ checks (elf_load fw.elf_load_firmware)
      ∷ checks (entry_smoke fw.entry_firmware)
      ∷ checks (trap_smoke fw.trap_firmware)
      ∷ checks (supervisor_smoke fw.supervisor_firmware)
      ∷ checks (supervisor_timer_smoke fw.timer_firmware)
      ∷ checks (boot_payload_smoke fw.boot_payload_firmware)
      ∷ checks (supervisor_counter_smoke fw.counter_firmware)
      ∷ reports_code (
          run_cpu_custom_datamover_test b out32 fw.custom_datamover_firmware arrays.cpu_dma_src
            arrays.cpu_dma_dst)
      ∷ checks (ddr_access_smoke arrays.cpu_ddr_probe fw.ddr_access_firmware)
      ∷ reports (run_cpu_ddr_exec_smoke_test b arrays.cpu_ddr_exec programs.ddr_exec)
      ∷ checks (ddr_high_access_smoke fw.high_access_firmware)
      ∷ reports (run_cpu_ddr_high_exec_smoke_test b programs.ddr_high_exec)
      ∷ checks (ddr_high_amo_smoke fw.high_amo_firmware)
      ∷ reports
          (run_cpu_sbi_smoke_test b arrays.cpu_sbi_payload programs.sbi_payload fw.sbi_firmware)
      ∷ reports (
          run_cpu_sbi_timer_smoke_test b arrays.cpu_sbi_payload programs.sbi_timer_payload
            fw.sbi_timer_firmware)
      ∷ reports (
          run_cpu_linux_contract_smoke_test b arrays.cpu_linux_contract programs.contract_payload
            fw.contract_firmware)
      ∷ reports (
          run_cpu_linux_sbi_smoke_test b arrays.cpu_sbi_payload programs.linux_sbi_payload
            fw.linux_sbi_firmware)
      ∷ []

  abbrev pub layout_test : Store → Report × Store
  layout_test = reports_layout (run_cpu_linux_image_layout_smoke_test b fw.image_layout_firmware)

  -- The lines that the program prints, in order, and the memory at the end.
  unfoldable pub probe_main : D → List Report × Store
  probe_main d =
      let probe = axi_probe d in
      let loopback = run_datamover_loopback b.in32 out32 arrays.dma_src arrays.dma_dst probe.1 in
      let by_cpu =
        run_cpu_datamover_loopback b.in32 out32 arrays.cpu_dma_src arrays.cpu_dma_dst loopback.1 in
      let held = run_tests (core_tests ++ (layout_test ∷ [])) (b.halt by_cpu.1) in
      (probe.0 ∷ report_code loopback.0 ∷ report_code by_cpu.0 ∷ held.0, held.1)
