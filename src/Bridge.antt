-- ===== src/Bridge.antt =====
-- The Linux console between the PL CPU and the PS (hw_bringup/ps_linux_boot.c): the mirror of what
-- Linux prints and the ring of what the user types. `scratch` is the scratch memory that both sides
-- use, as it stands during one call. The sink is what takes the output: the HDMI console, whose bytes
-- `hdmi_putc` takes, and the UART.
pub mod Markers
pub mod Mirror
pub mod Input
mod Tests
use zynq_cpu.Base.{ℕ, ◌+◌}

-- ZYNQ_CPU_TX_SCRATCH
abbrev pub tx_scratch : ℕ
tx_scratch = 0x43C20000 + 0x2000

abbrev pub ring_base : ℕ
ring_base = tx_scratch + 0x000

abbrev pub ring_head : ℕ
ring_head = tx_scratch + 0x100

abbrev pub ring_total : ℕ
ring_total = tx_scratch + 0x104

abbrev pub ring_bytes : ℕ
ring_bytes = 256

abbrev pub in_char : ℕ
in_char = tx_scratch + 0x108

abbrev pub in_valid : ℕ
in_valid = tx_scratch + 0x10C

abbrev pub in_ring_base : ℕ
in_ring_base = tx_scratch + 0x110

abbrev pub in_ring_head : ℕ
in_ring_head = tx_scratch + 0x190

abbrev pub in_ring_tail : ℕ
in_ring_tail = tx_scratch + 0x194

abbrev pub in_ring_bytes : ℕ
in_ring_bytes = 128
