-- ===== src/Probe/Loopback.antt =====
-- The loopback over a DataMover that works (hw_bringup/ps_uart_probe_dma.c, `run_datamover_loopback`).
use zynq_cpu.Base.{
  ℕ, zero, suc, ◌+◌, ◌*◌, ◌≤◌, ◌<◌, ◌≡◌, ◌⊎◌, inl, inr, refl, ap, ◌∙◌, Store, update, for_range,
  for_range_inv, ◌==◌, true, arith,
}
use native.Mathlib.Decide.{ℕ_discrete}
use zynq_cpu.Bridge.{tx_scratch}
use zynq_cpu.Mailbox.{wait_for_dma}
use zynq_cpu.Probe.Dma.{
  dma_ctrl, dma_ddr_addr, dma_local, rx_scratch, mm2s_done, s2mm_done, mm2s_err, s2mm_err, pattern,
  fill_writes, out_all, count_mismatches, copy_word, after_s2mm, after_mm2s, run_datamover_loopback,
}
use zynq_cpu.Probe.Engine.{
  DataMover, TwoArrays, fill_writes-src, fill_writes-AllBelow, out_all-view, set_up, set_up-kept,
  set_up-clear, set_up-asks,
}

module _ {D : Type 0} (in32 : ℕ → D → ℕ × D) (out32 : ℕ → ℕ → D → D) (view : D → Store)
    (engine : DataMover in32 out32 view) (src dst : ℕ) (apart : TwoArrays src dst) where
  -- The first `n` words at an address are the pattern of the test.
  abbrev Holds : ℕ → ℕ → D → Type 0
  Holds base n d = (k : ℕ) → k < n → view d (base + k * 4) ≡ pattern 0x5A000000 k

  unfoldable filled : D → D
  filled d = out_all in32 out32 (fill_writes 0x5A000000 src dst 0 16) d

  filled-Holds : (d : D) → Holds src 16 (filled d)
  unfolding filled
  filled-Holds d k lt =
      out_all-view in32 out32 view engine (fill_writes 0x5A000000 src dst 0 16) d (view d)
        (src + k * 4) (λ b. refl) (fill_writes-AllBelow 0x5A000000 src dst 0 16 apart (omega arith))
      ∙ fill_writes-src 0x5A000000 src dst 0 16 k (view d) apart (omega arith) (omega arith)
          (omega arith)

  -- The wait after a transfer to the receive memory, from a machine with the pattern in the source.
  module _ (d : D) (source : Holds src 16 d) where
    abbrev asked : D
    asked = set_up in32 out32 view engine src 1 d

    abbrev moved : ℕ × ℕ × D
    moved = wait_for_dma in32 mm2s_done mm2s_err (out32 dma_ctrl 1 asked)

    moved-Holds : (moved.0 ≡ 0) × Holds rx_scratch 16 moved.2 × Holds src 16 moved.2
    moved-Holds =
        let asks = set_up-asks in32 out32 view engine src 1 d in
        let done = engine.mm2s asked (set_up-clear in32 out32 view engine src 1 d) in
        let stays : (k : ℕ) → k < 16 → view asked (src + k * 4) ≡ pattern 0x5A000000 k = λ k lt.
          set_up-kept in32 out32 view engine src 1 (src + k * 4) d (inl (omega arith))
          ∙ source k lt in
        (
          done.0,
          λ k lt.
              let to : rx_scratch + k * 4 ≡ rx_scratch + view asked dma_local + k * 4 =
                omega (arith, asks.1) in
              let from : view asked dma_ddr_addr + k * 4 ≡ src + k * 4 = omega (arith, asks.0) in
              ap (view moved.2) to
              ∙ done.1 k (omega (arith, asks.2))
              ∙ ap (view asked) from
              ∙ stays k lt,
          λ k lt. done.2 (src + k * 4) (omega arith) ∙ stays k lt,
        )

  -- A round of the copy from the receive memory to the transmit memory.
  abbrev Copied : ℕ → D → Type 0
  Copied i d = Holds tx_scratch i d × Holds rx_scratch 16 d × Holds src 16 d

  copy_word-view :
      (i b : ℕ) (d : D)
      → i < 16
      → view (copy_word in32 out32 i d) b
        ≡ update (tx_scratch + i * 4) (view d (rx_scratch + i * 4)) (view d) b
  unfolding copy_word update
  copy_word-view i b d lt =
      let r = in32 (rx_scratch + i * 4) d in
      let read : r.0 ≡ view d (rx_scratch + i * 4) =
        engine.reads (rx_scratch + i * 4) d (omega arith) in
      let kept : view r.1 b ≡ view d b = engine.keeps (rx_scratch + i * 4) b d (omega arith) in
      engine.writes (tx_scratch + i * 4) r.0 b r.1 (omega arith) (omega arith)
      ∙ ground (arith, read, kept)

  copy_word-Copied :
      (i : ℕ) (d : D) → i < 16 → Copied i d → Copied (i + 1) (copy_word in32 out32 i d)
  unfolding update
  copy_word-Copied i d small (sent, received, source) = (
    λ k lt. elim (ℕ_discrete k i) [
      | yes now ↦
          let here : tx_scratch + k * 4 ≡ tx_scratch + i * 4 = omega (arith, now) in
          copy_word-view i (tx_scratch + k * 4) d small
          ∙ ground (arith, here, now, received i small)
      | no before ↦
          copy_word-view i (tx_scratch + k * 4) d small
          ∙ ground (arith, before, sent k (omega arith))
    ],
    λ k lt. copy_word-view i (rx_scratch + k * 4) d small ∙ ground (arith, received k lt),
    λ k lt. copy_word-view i (src + k * 4) d small ∙ ground (arith, apart.0, source k lt),
  )

  for_range-Copied :
      (d : D)
      → Holds rx_scratch 16 d
      → Holds src 16 d
      → Copied 16 (for_range 16 0 (copy_word in32 out32) d)
  for_range-Copied d received source =
      for_range_inv Copied (copy_word in32 out32) 0 16
        (λ i d' low high c. copy_word-Copied i d' high c) 16 0 d (omega arith) (omega arith)
        (λ k lt. absurd (omega arith), received, source)

  -- The wait after a transfer from the transmit memory.
  module _ (d : D) (sent : Holds tx_scratch 16 d) (source : Holds src 16 d) where
    abbrev asked_back : D
    asked_back = set_up in32 out32 view engine dst 2 d

    abbrev moved_back : ℕ × ℕ × D
    moved_back = wait_for_dma in32 s2mm_done s2mm_err (out32 dma_ctrl 2 asked_back)

    moved_back-Holds : (moved_back.0 ≡ 0) × Holds dst 16 moved_back.2 × Holds src 16 moved_back.2
    moved_back-Holds =
        let asks = set_up-asks in32 out32 view engine dst 2 d in
        let done =
          engine.s2mm asked_back (set_up-clear in32 out32 view engine dst 2 d)
            (omega (arith, asks.0, asks.2, apart.1)) in
        let kept : (b : ℕ) → (b < dma_ctrl) ⊎ (dma_ctrl + 0x18 ≤ b) → view asked_back b ≡ view d b =
          λ b. set_up-kept in32 out32 view engine dst 2 b d in
        (
          done.0,
          λ k lt.
              let to : dst + k * 4 ≡ view asked_back dma_ddr_addr + k * 4 = omega (arith, asks.0) in
              let from : tx_scratch + view asked_back dma_local + k * 4 ≡ tx_scratch + k * 4 =
                omega (arith, asks.1) in
              ap (view moved_back.2) to
              ∙ done.1 k (omega (arith, asks.2))
              ∙ ap (view asked_back) from
              ∙ kept (tx_scratch + k * 4) (inr (omega arith))
              ∙ sent k lt,
          λ k lt.
              done.2 (src + k * 4) (omega (arith, apart.0)) (ground (arith, apart, asks.0, asks.2))
              ∙ kept (src + k * 4) (inl (omega (arith, apart.0)))
              ∙ source k lt,
        )

  -- Two arrays with the same words have no mismatch.
  count_mismatches-none :
      (i n : ℕ) (d : D)
      → i + n ≤ 16
      → Holds dst 16 d
      → Holds src 16 d
      → (count_mismatches in32 out32 src dst i n 0 d).0 ≡ 0
  unfolding count_mismatches
  count_mismatches-none i zero d end to from = refl
  count_mismatches-none i (suc n) d end to from =
      let w = in32 (dst + i * 4) d in
      let v = in32 (src + i * 4) w.1 in
      let kept : (b : ℕ) → view v.1 b ≡ view d b = λ b.
        engine.keeps (src + i * 4) b w.1 (omega (arith, apart.0))
        ∙ engine.keeps (dst + i * 4) b d (omega (arith, apart.1)) in
      let value_to : w.0 ≡ pattern 0x5A000000 i =
        engine.reads (dst + i * 4) d (omega (arith, apart.1)) ∙ to i (omega arith) in
      let value_from : v.0 ≡ pattern 0x5A000000 i =
        engine.reads (src + i * 4) w.1 (omega (arith, apart.0))
        ∙ engine.keeps (dst + i * 4) (src + i * 4) d (omega (arith, apart.1))
        ∙ from i (omega arith) in
      let same : (w.0 == v.0) ≡ true = ground (arith, value_to, value_from) in
      let rest =
        count_mismatches-none (i + 1) n v.1 (omega arith) (λ k lt. kept (dst + k * 4) ∙ to k lt)
          (λ k lt. kept (src + k * 4) ∙ from k lt) in
      rw (count_mismatches, same) rest

  after_s2mm-zero :
      (r : ℕ × ℕ × D)
      → (r.0 ≡ 0) × Holds dst 16 r.2 × Holds src 16 r.2
      → (after_s2mm in32 out32 src dst r).0 ≡ 0
  after_s2mm-zero (code, status, d) (ok, to, from) =
      let none = count_mismatches-none 0 16 d (omega arith) to from in rw (ok, none) refl

  after_mm2s-zero :
      (r : ℕ × ℕ × D)
      → (r.0 ≡ 0) × Holds rx_scratch 16 r.2 × Holds src 16 r.2
      → (after_mm2s in32 out32 src dst r).0 ≡ 0
  unfolding out_all
  after_mm2s-zero (code, status, d) (ok, received, source) =
      let c = for_range-Copied d received source in
      let d' = for_range 16 0 (copy_word in32 out32) d in
      let back = moved_back-Holds d' c.0 c.2 in rw ok (after_s2mm-zero (moved_back d' c.0 c.2) back)

  -- With a DataMover that works, and two arrays of 16 words in DDR that do not overlap, the loopback ends
  -- with the code 0.
  pub run_datamover_loopback-works : (d : D) → (run_datamover_loopback in32 out32 src dst d).0 ≡ 0
  unfolding run_datamover_loopback out_all filled
  run_datamover_loopback-works d =
      after_mm2s-zero (moved (filled d) (filled-Holds d)) (moved-Holds (filled d) (filled-Holds d))
