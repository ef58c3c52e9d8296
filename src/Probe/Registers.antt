-- ===== src/Probe/Registers.antt =====
-- The words of the scratch memory that the smoke tests share with their firmware
-- (hw_bringup/ps_uart_probe.h).
pub mod Mail
pub mod Sbi
pub mod Linux
