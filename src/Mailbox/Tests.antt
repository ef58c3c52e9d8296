-- ===== src/Mailbox/Tests.antt =====
-- The waits at concrete devices.
use zynq_cpu.Base.{ℕ, ◌+◌, ◌≡◌, bit_and, ◌==◌, if◌then◌else◌, arith}
use zynq_cpu.Mailbox.{dma_status, wait_for_dma}
use zynq_cpu.Mailbox.Waits.{after, status_at, wait_for_dma_lem}

-- A device that counts the reads and gives 0 at the first, and then the status it is made with.
abbrev device : ℕ → ℕ → ℕ → ℕ × ℕ
device status addr reads = (if reads == 0 then 0 else status, reads + 1)

wait_for_dma_lem_example : wait_for_dma (device 4) 4 16 1 ≡ (
  if bit_and (status_at (device 4) dma_status 0 1) 16 == 0 then 0 else 1,
  status_at (device 4) dma_status 0 1,
  after (device 4) dma_status 1 1,
)
unfolding after
wait_for_dma_lem_example =
    wait_for_dma_lem (device 4) 4 16 0 1 (omega arith) (λ j lt. absurd (omega arith))
      (λ j lt. absurd (omega arith)) (λ e d. absurd (omega arith))
