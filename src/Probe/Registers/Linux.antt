-- ===== src/Probe/Registers/Linux.antt =====
-- The mailbox words of the Linux contract and image tests
-- (hw_bringup/ps_uart_probe.h).
use zynq_cpu.Base.{ℕ, ◌+◌}
use zynq_cpu.Bridge.{tx_scratch}

abbrev pub linux_mcause : ℕ
linux_mcause = tx_scratch + 0x308

abbrev pub linux_mepc : ℕ
linux_mepc = tx_scratch + 0x30C

abbrev pub linux_sbi_eid : ℕ
linux_sbi_eid = tx_scratch + 0x310

abbrev pub linux_sbi_fid : ℕ
linux_sbi_fid = tx_scratch + 0x314

abbrev pub linux_sbi_arg0 : ℕ
linux_sbi_arg0 = tx_scratch + 0x318

abbrev pub linux_sbi_retval : ℕ
linux_sbi_retval = tx_scratch + 0x31C

abbrev pub linux_cmp_lo : ℕ
linux_cmp_lo = tx_scratch + 0x320

abbrev pub linux_cmp_hi : ℕ
linux_cmp_hi = tx_scratch + 0x324

abbrev pub linux_hartid : ℕ
linux_hartid = tx_scratch + 0x328

abbrev pub linux_payload_dtb : ℕ
linux_payload_dtb = tx_scratch + 0x32C

abbrev pub linux_dtb_magic : ℕ
linux_dtb_magic = tx_scratch + 0x330

abbrev pub linux_base_version : ℕ
linux_base_version = tx_scratch + 0x334

abbrev pub linux_scause : ℕ
linux_scause = tx_scratch + 0x338

abbrev pub linux_sepc : ℕ
linux_sepc = tx_scratch + 0x33C

abbrev pub linux_time0 : ℕ
linux_time0 = tx_scratch + 0x340

abbrev pub linux_time1 : ℕ
linux_time1 = tx_scratch + 0x344

abbrev pub linux_dtb_total : ℕ
linux_dtb_total = tx_scratch + 0x348

abbrev pub linux_dtb_struct : ℕ
linux_dtb_struct = tx_scratch + 0x34C

abbrev pub linux_dtb_strings : ℕ
linux_dtb_strings = tx_scratch + 0x350

abbrev pub linux_fdt_root : ℕ
linux_fdt_root = tx_scratch + 0x354

abbrev pub linux_addr_cells : ℕ
linux_addr_cells = tx_scratch + 0x358

abbrev pub linux_size_cells : ℕ
linux_size_cells = tx_scratch + 0x35C

abbrev pub linux_fdt_memory : ℕ
linux_fdt_memory = tx_scratch + 0x360

abbrev pub linux_reg_addr : ℕ
linux_reg_addr = tx_scratch + 0x364

abbrev pub linux_reg_size : ℕ
linux_reg_size = tx_scratch + 0x368

abbrev pub linux_image_code0 : ℕ
linux_image_code0 = tx_scratch + 0x36C

abbrev pub linux_image_text_lo : ℕ
linux_image_text_lo = tx_scratch + 0x370

abbrev pub linux_image_text_hi : ℕ
linux_image_text_hi = tx_scratch + 0x374

abbrev pub linux_image_size_lo : ℕ
linux_image_size_lo = tx_scratch + 0x378

abbrev pub linux_image_size_hi : ℕ
linux_image_size_hi = tx_scratch + 0x37C

abbrev pub linux_image_magic0 : ℕ
linux_image_magic0 = tx_scratch + 0x380

abbrev pub linux_image_magic1 : ℕ
linux_image_magic1 = tx_scratch + 0x384

abbrev pub linux_image_magic2 : ℕ
linux_image_magic2 = tx_scratch + 0x388

abbrev pub linux_alias_80000000 : ℕ
linux_alias_80000000 = tx_scratch + 0x38C

abbrev pub linux_alias_80100000 : ℕ
linux_alias_80100000 = tx_scratch + 0x390

abbrev pub linux_alias_80200000 : ℕ
linux_alias_80200000 = tx_scratch + 0x394

abbrev pub linux_alias_80300000 : ℕ
linux_alias_80300000 = tx_scratch + 0x398

abbrev pub linux_alias_80400000 : ℕ
linux_alias_80400000 = tx_scratch + 0x39C

abbrev pub linux_alias_80500000 : ℕ
linux_alias_80500000 = tx_scratch + 0x3A0

abbrev pub linux_alias_dtb : ℕ
linux_alias_dtb = tx_scratch + 0x3A4
