-- ===== src/Probe/Registers/Mail.antt =====
-- The mailbox words of the load, trap, boot and DDR tests
-- (hw_bringup/ps_uart_probe.h).
use zynq_cpu.Base.{ℕ, ◌+◌}
use zynq_cpu.Bridge.{tx_scratch}

abbrev pub mail_start : ℕ
mail_start = tx_scratch + 0x3E0

abbrev pub mail_src : ℕ
mail_src = tx_scratch + 0x3E4

abbrev pub mail_dst : ℕ
mail_dst = tx_scratch + 0x3E8

abbrev pub mail_len : ℕ
mail_len = tx_scratch + 0x3EC

abbrev pub mail_mm2s_status : ℕ
mail_mm2s_status = tx_scratch + 0x3F4

abbrev pub mail_s2mm_status : ℕ
mail_s2mm_status = tx_scratch + 0x3F8

abbrev pub mail_copied : ℕ
mail_copied = tx_scratch + 0x3FC

abbrev pub sup_sepc : ℕ
sup_sepc = tx_scratch + 0x3E0

abbrev pub sup_scause : ℕ
sup_scause = tx_scratch + 0x3E4

abbrev pub sup_marker : ℕ
sup_marker = tx_scratch + 0x3E8

abbrev pub sup_status : ℕ
sup_status = tx_scratch + 0x3F0

abbrev pub boot_hartid : ℕ
boot_hartid = tx_scratch + 0x3C0

abbrev pub boot_dtb : ℕ
boot_dtb = tx_scratch + 0x3C4

abbrev pub boot_cycle : ℕ
boot_cycle = tx_scratch + 0x3C8

abbrev pub boot_time : ℕ
boot_time = tx_scratch + 0x3CC

abbrev pub boot_instret : ℕ
boot_instret = tx_scratch + 0x3D0

abbrev pub ddr_exec_pc : ℕ
ddr_exec_pc = tx_scratch + 0x3C0

abbrev pub ddr_exec_marker : ℕ
ddr_exec_marker = tx_scratch + 0x3C4

abbrev pub ddr_exec_count : ℕ
ddr_exec_count = tx_scratch + 0x3C8
