-- ===== src/Boot/Words.antt =====
-- The words that a boot sets and compares: the registers of the PL CPU, the mailbox of the firmware and
-- instruction memory (hw_bringup/ps_linux_boot.c, `main`; hw_bringup/ps_uart_probe.h).
use zynq_cpu.Base.{ℕ, ◌+◌, ◌*◌, Store, update, add32, ◌==◌, if◌then◌else◌, List, [], ◌∷◌}
use zynq_cpu.Bridge.{tx_scratch}
use zynq_cpu.Temperature.{ctrl_base}
use zynq_cpu.Mailbox.{mail_status}
use zynq_cpu.Loader.{imem_base}
use zynq_cpu.Boot.{clear_linux_sbi_counters}

-- ZYNQ_CPU_CPU_CTRL: 1 holds the PL CPU in reset.
abbrev pub cpu_ctrl : ℕ
cpu_ctrl = ctrl_base + 0x00

abbrev pub scratch_words : ℕ
scratch_words = ctrl_base + 0x0C

abbrev pub reset_vector : ℕ
reset_vector = ctrl_base + 0x10

abbrev pub linux_entry : ℕ
linux_entry = tx_scratch + 0x300

abbrev pub linux_dtb : ℕ
linux_dtb = tx_scratch + 0x304

abbrev pub reset_type : ℕ
reset_type = tx_scratch + 0x258

abbrev pub reset_reason : ℕ
reset_reason = tx_scratch + 0x25C

abbrev pub reset_magic : ℕ
reset_magic = tx_scratch + 0x260

abbrev pub kernel_cpu_addr : ℕ
kernel_cpu_addr = 0x80400000

abbrev pub dtb_cpu_addr : ℕ
dtb_cpu_addr = 0x82000000

-- Writes in order.
unfoldable pub write_all : List (ℕ × ℕ) → Store → Store
write_all [] m = m
write_all ((a, v) ∷ ws) m = write_all ws (update a v m)

-- The mailbox of the boot firmware before its counters are cleared.
abbrev pub mailbox_words : List (ℕ × ℕ)
mailbox_words =
    (cpu_ctrl, 1)
    ∷ (linux_entry, kernel_cpu_addr)
    ∷ (linux_dtb, dtb_cpu_addr)
    ∷ (tx_scratch + 0x308, 0)
    ∷ (tx_scratch + 0x30C, 0)
    ∷ (tx_scratch + 0x310, 0)
    ∷ (tx_scratch + 0x314, 0xFFFF_FFFF)
    ∷ (tx_scratch + 0x318, 0)
    ∷ (tx_scratch + 0x31C, 0xFFFF_FFFF)
    ∷ (tx_scratch + 0x320, 0)
    ∷ (tx_scratch + 0x324, 0)
    ∷ (tx_scratch + 0x334, 0)
    ∷ (tx_scratch + 0x240, 0)
    ∷ (tx_scratch + 0x244, 0)
    ∷ (tx_scratch + 0x248, 0)
    ∷ (tx_scratch + 0x24C, 0xFFFF_FFFF)
    ∷ (tx_scratch + 0x250, 0)
    ∷ (tx_scratch + 0x254, 0)
    ∷ (reset_type, 0)
    ∷ (reset_reason, 0)
    ∷ (reset_magic, 0)
    ∷ []

unfoldable pub prepare_mailbox : Store → Store
prepare_mailbox m = update mail_status 0 (clear_linux_sbi_counters (write_all mailbox_words m))

-- The words of instruction memory that differ from the program, from word `i` on, added to `errors`.
unfoldable pub count_errors : List ℕ → ℕ → Store → ℕ → ℕ
count_errors [] i m errors = errors
count_errors (w ∷ ws) i m errors =
    count_errors ws (i + 1) m (if m (imem_base + i * 4) == w then errors else add32 errors 1)
