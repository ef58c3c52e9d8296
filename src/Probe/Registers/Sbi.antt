-- ===== src/Probe/Registers/Sbi.antt =====
-- The mailbox words of the SBI tests
-- (hw_bringup/ps_uart_probe.h).
use zynq_cpu.Base.{ℕ, ◌+◌}
use zynq_cpu.Bridge.{tx_scratch}

abbrev pub sbi_payload_entry : ℕ
sbi_payload_entry = tx_scratch + 0x380

abbrev pub sbi_dtb_addr : ℕ
sbi_dtb_addr = tx_scratch + 0x384

abbrev pub sbi_mcause : ℕ
sbi_mcause = tx_scratch + 0x38C

abbrev pub sbi_mepc : ℕ
sbi_mepc = tx_scratch + 0x390

abbrev pub sbi_eid : ℕ
sbi_eid = tx_scratch + 0x394

abbrev pub sbi_arg0 : ℕ
sbi_arg0 = tx_scratch + 0x398

abbrev pub sbi_marker : ℕ
sbi_marker = tx_scratch + 0x39C

abbrev pub sbi_hartid : ℕ
sbi_hartid = tx_scratch + 0x3A0

abbrev pub sbi_payload_dtb : ℕ
sbi_payload_dtb = tx_scratch + 0x3A4

abbrev pub sbi_retval : ℕ
sbi_retval = tx_scratch + 0x3A8

abbrev pub sbi_timer_entry : ℕ
sbi_timer_entry = tx_scratch + 0x340

abbrev pub sbi_timer_dtb : ℕ
sbi_timer_dtb = tx_scratch + 0x344

abbrev pub sbi_timer_mcause : ℕ
sbi_timer_mcause = tx_scratch + 0x34C

abbrev pub sbi_timer_mepc : ℕ
sbi_timer_mepc = tx_scratch + 0x350

abbrev pub sbi_timer_eid : ℕ
sbi_timer_eid = tx_scratch + 0x354

abbrev pub sbi_timer_fid : ℕ
sbi_timer_fid = tx_scratch + 0x358

abbrev pub sbi_timer_arg0 : ℕ
sbi_timer_arg0 = tx_scratch + 0x35C

abbrev pub sbi_timer_cmp_lo : ℕ
sbi_timer_cmp_lo = tx_scratch + 0x360

abbrev pub sbi_timer_cmp_hi : ℕ
sbi_timer_cmp_hi = tx_scratch + 0x364

abbrev pub sbi_timer_hartid : ℕ
sbi_timer_hartid = tx_scratch + 0x380

abbrev pub sbi_timer_pay_dtb : ℕ
sbi_timer_pay_dtb = tx_scratch + 0x384

abbrev pub sbi_timer_retval : ℕ
sbi_timer_retval = tx_scratch + 0x388

abbrev pub sbi_timer_scause : ℕ
sbi_timer_scause = tx_scratch + 0x38C

abbrev pub sbi_timer_sepc : ℕ
sbi_timer_sepc = tx_scratch + 0x390

abbrev pub sbi_timer_sie : ℕ
sbi_timer_sie = tx_scratch + 0x394

abbrev pub sbi_timer_sip : ℕ
sbi_timer_sip = tx_scratch + 0x398

abbrev pub sbi_timer_sstatus : ℕ
sbi_timer_sstatus = tx_scratch + 0x39C

abbrev pub sbi_timer_time0 : ℕ
sbi_timer_time0 = tx_scratch + 0x3A0

abbrev pub sbi_timer_time1 : ℕ
sbi_timer_time1 = tx_scratch + 0x3A4

abbrev pub linux_sbi_entry : ℕ
linux_sbi_entry = tx_scratch + 0x280

abbrev pub linux_sbi_dtb : ℕ
linux_sbi_dtb = tx_scratch + 0x284

abbrev pub linux_sbi_mcause : ℕ
linux_sbi_mcause = tx_scratch + 0x288

abbrev pub linux_sbi_mepc : ℕ
linux_sbi_mepc = tx_scratch + 0x28C

abbrev pub linux_sbi_last_eid : ℕ
linux_sbi_last_eid = tx_scratch + 0x290

abbrev pub linux_sbi_last_fid : ℕ
linux_sbi_last_fid = tx_scratch + 0x294

abbrev pub linux_sbi_last_arg0 : ℕ
linux_sbi_last_arg0 = tx_scratch + 0x298

abbrev pub linux_sbi_last_err : ℕ
linux_sbi_last_err = tx_scratch + 0x29C

abbrev pub linux_sbi_last_value : ℕ
linux_sbi_last_value = tx_scratch + 0x2A0

abbrev pub linux_sbi_hartid : ℕ
linux_sbi_hartid = tx_scratch + 0x2A4

abbrev pub linux_sbi_payload_dtb : ℕ
linux_sbi_payload_dtb = tx_scratch + 0x2A8

abbrev pub linux_sbi_spec_err : ℕ
linux_sbi_spec_err = tx_scratch + 0x2AC

abbrev pub linux_sbi_spec_value : ℕ
linux_sbi_spec_value = tx_scratch + 0x2B0

abbrev pub linux_sbi_probe_err : ℕ
linux_sbi_probe_err = tx_scratch + 0x2B4

abbrev pub linux_sbi_probe_value : ℕ
linux_sbi_probe_value = tx_scratch + 0x2B8

abbrev pub linux_sbi_console_char : ℕ
linux_sbi_console_char = tx_scratch + 0x2BC

abbrev pub linux_sbi_timer_err : ℕ
linux_sbi_timer_err = tx_scratch + 0x2C0

abbrev pub linux_sbi_timer_value : ℕ
linux_sbi_timer_value = tx_scratch + 0x2C4

abbrev pub linux_sbi_cmp_lo : ℕ
linux_sbi_cmp_lo = tx_scratch + 0x2C8

abbrev pub linux_sbi_cmp_hi : ℕ
linux_sbi_cmp_hi = tx_scratch + 0x2CC

abbrev pub linux_sbi_scause : ℕ
linux_sbi_scause = tx_scratch + 0x2D0

abbrev pub linux_sbi_sepc : ℕ
linux_sbi_sepc = tx_scratch + 0x2D4

abbrev pub linux_sbi_sie : ℕ
linux_sbi_sie = tx_scratch + 0x2D8

abbrev pub linux_sbi_sip : ℕ
linux_sbi_sip = tx_scratch + 0x2DC

abbrev pub linux_sbi_sstatus : ℕ
linux_sbi_sstatus = tx_scratch + 0x2E0

abbrev pub linux_sbi_time0 : ℕ
linux_sbi_time0 = tx_scratch + 0x2E4

abbrev pub linux_sbi_time1 : ℕ
linux_sbi_time1 = tx_scratch + 0x2E8
