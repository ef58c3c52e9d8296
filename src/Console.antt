-- ===== src/Console.antt =====
-- The text consoles of hw_bringup/ps_linux_boot.c.
pub mod Panel
pub mod Grid
pub mod Screen
pub mod Csi
pub mod Putc
pub mod Terminal
pub mod Writer
pub mod Lcd
pub mod Panels
pub mod Init
mod Tests
