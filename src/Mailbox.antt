-- ===== src/Mailbox.antt =====
-- Waiting for the DMA engine and for the PL CPU (hw_bringup/ps_uart_probe_common.c, `wait_for_dma` and
-- `wait_for_cpu`), over any device: `in32` is what `Xil_In32` reads, and the device after the read.
pub mod Waits
mod Tests
use zynq_cpu.Base.{ℕ, zero, suc, ◌+◌, bit_and, ◌==◌, not, if◌then◌else◌, Option, none, some}
use zynq_cpu.Bridge.{tx_scratch}

-- ZYNQ_CPU_DMA_STATUS
abbrev pub dma_status : ℕ
dma_status = 0x43C20000 + 0x04

-- CPU_MAIL_STATUS
abbrev pub mail_status : ℕ
mail_status = tx_scratch + 0x3F0

-- What a status means: the negated result code, or none to poll again.
unfoldable pub judge_dma : ℕ → ℕ → ℕ → Option ℕ
judge_dma done_mask err_mask status =
    if not (bit_and status err_mask == 0)
    then some 1
    else if not (bit_and status done_mask == 0)
    then some 0
    else none

unfoldable pub judge_cpu : ℕ → Option ℕ
judge_cpu status = if status == 0x222 then some 0 else if status == 0x333 then some 1 else none

module _ {D : Type 0} (in32 : ℕ → D → ℕ × D) where
  -- `n` polls of the register at most, from a last status and a device: the negated result code, the
  -- last status, and the device afterwards.
  unfoldable pub poll_loop : ℕ → (ℕ → Option ℕ) → ℕ → ℕ → D → ℕ × ℕ × D
  poll_loop addr judge zero status d = (2, status, d)
  poll_loop addr judge (suc n) status d =
      let r = in32 addr d in
      elim (judge r.0) [ none ↦ poll_loop addr judge n r.0 r.1 | some code ↦ (code, r.0, r.1) ]

  unfoldable pub wait_for_dma : ℕ → ℕ → D → ℕ × ℕ × D
  wait_for_dma done_mask err_mask = poll_loop dma_status (judge_dma done_mask err_mask) 1000000 0

  unfoldable pub wait_for_cpu : D → ℕ × ℕ × D
  wait_for_cpu = poll_loop mail_status judge_cpu 2000000 0
