-- ===== src/Mailbox/Waits.antt =====
-- When a wait ends, and with what (hw_bringup/ps_uart_probe_common.c).
use zynq_cpu.Base.{
  ℕ, zero, suc, ◌<◌, ◌≡◌, refl, ◌⊎◌, bit_and, ◌==◌, if◌then◌else◌, Option, none, some, arith,
}
use zynq_cpu.Mailbox.{
  dma_status, mail_status, judge_dma, judge_cpu, poll_loop, wait_for_dma, wait_for_cpu,
}

module _ {D : Type 0} (in32 : ℕ → D → ℕ × D) where
  -- The device after `k` reads of a register, and the status that the next read gives.
  unfoldable pub after : ℕ → ℕ → D → D
  after addr zero d = d
  after addr (suc k) d = after addr k (in32 addr d).1

  abbrev pub status_at : ℕ → ℕ → D → ℕ
  status_at addr k d = (in32 addr (after addr k d)).0

  pub poll_loop-decides :
      (addr : ℕ) (judge : ℕ → Option ℕ) (code k n status : ℕ) (d : D)
      → k < n
      → ((j : ℕ) → j < k → judge (status_at addr j d) ≡ none)
      → judge (status_at addr k d) ≡ some code
      → poll_loop in32 addr judge n status d ≡ (code, status_at addr k d, after addr (suc k) d)
  unfolding poll_loop after
  poll_loop-decides addr judge code k zero status d h open_ e = absurd (omega arith)
  poll_loop-decides addr judge code zero (suc n) status d h open_ e = rw (e, poll_loop) refl
  poll_loop-decides addr judge code (suc k) (suc n) status d h open_ e =
      rw (open_ 0 (omega arith), poll_loop)
        (poll_loop-decides addr judge code k n (in32 addr d).0 (in32 addr d).1 (omega arith)
          (λ j lt. open_ (suc j) (omega arith)) e)

  poll_loop-expires :
      (addr : ℕ) (judge : ℕ → Option ℕ) (n status : ℕ) (d : D)
      → ((j : ℕ) → j < suc n → judge (status_at addr j d) ≡ none)
      → poll_loop in32 addr judge (suc n) status d ≡ (2, status_at addr n d, after addr (suc n) d)
  unfolding poll_loop after
  poll_loop-expires addr judge zero status d open_ = rw (open_ 0 (omega arith), poll_loop) refl
  poll_loop-expires addr judge (suc n) status d open_ =
      rw (open_ 0 (omega arith), poll_loop)
        (poll_loop-expires addr judge n (in32 addr d).0 (in32 addr d).1
          (λ j lt. open_ (suc j) (omega arith)))

  -- The wait for the DMA engine ends at the first status with an error bit or a done bit among the
  -- first million, with an error where the error bit is set, whatever the done bit; the status is
  -- handed out, and nothing more is read.
  pub wait_for_dma_lem :
      (done_mask err_mask k : ℕ) (d : D)
      → k < 1000000
      → ((j : ℕ) → j < k → bit_and (status_at dma_status j d) err_mask ≡ 0)
      → ((j : ℕ) → j < k → bit_and (status_at dma_status j d) done_mask ≡ 0)
      → (bit_and (status_at dma_status k d) err_mask ≡ 0
          → bit_and (status_at dma_status k d) done_mask ≡ 0
          → ⊥)
      → wait_for_dma in32 done_mask err_mask d ≡ (
        if bit_and (status_at dma_status k d) err_mask == 0 then 0 else 1,
        status_at dma_status k d,
        after dma_status (suc k) d,
      )
  unfolding wait_for_dma judge_dma
  wait_for_dma_lem done_mask err_mask k d h no_err no_done some_bit =
      poll_loop-decides dma_status (judge_dma done_mask err_mask)
        (if bit_and (status_at dma_status k d) err_mask == 0 then 0 else 1) k 1000000 0 d h
        (λ j lt. ground (arith, no_err j lt, no_done j lt)) (ground (arith, some_bit))

  -- The wait for the PL CPU ends with success exactly at a PASS and with an error exactly at a FAIL,
  -- at the first of them among the first two million statuses.
  wait_for_cpu_lem :
      (k : ℕ) (d : D)
      → k < 2000000
      → ((j : ℕ) → j < k → judge_cpu (status_at mail_status j d) ≡ none)
      → (status_at mail_status k d ≡ 0x222) ⊎ (status_at mail_status k d ≡ 0x333)
      → wait_for_cpu in32 d ≡ (
        if status_at mail_status k d == 0x222 then 0 else 1,
        status_at mail_status k d,
        after mail_status (suc k) d,
      )
  unfolding wait_for_cpu judge_cpu
  wait_for_cpu_lem k d h pending ends =
      poll_loop-decides mail_status judge_cpu (if status_at mail_status k d == 0x222 then 0 else 1)
        k 2000000 0 d h (λ j lt. unfold judge_cpu in pending j lt) (ground (arith, ends))

  -- Without such a status the wait for the PL CPU gives up after two million reads, with the last
  -- status.
  pub wait_for_cpu-expires :
      (d : D)
      → ((j : ℕ) → j < 2000000 → judge_cpu (status_at mail_status j d) ≡ none)
      → wait_for_cpu in32 d ≡ (2, status_at mail_status 1999999 d, after mail_status 2000000 d)
  unfolding wait_for_cpu
  wait_for_cpu-expires d pending = poll_loop-expires mail_status judge_cpu 1999999 0 d pending
