-- ===== src/Probe/Tests.antt =====
-- The theorems on the smoke tests at a concrete board, and runs of a test on it.
use zynq_cpu.Base.{
  ℕ, zero, suc, ◌+◌, ◌-◌, ◌*◌, ◌≤◌, ◌<◌, ◌≡◌, ◌≢◌, ◌⊎◌, ◌↔◌, inl, inr, refl, ap, ◌∙◌, Store, update,
  update_ne, for_range, leb, ltb, ◌==◌, ◌&&◌, if◌then◌else◌, true, false, [], ◌∷◌, arith,
}
use zynq_cpu.Bridge.{tx_scratch}
use zynq_cpu.Mailbox.{dma_status, mail_status, judge_dma, poll_loop, wait_for_dma}
use zynq_cpu.Loader.{
  read_u16_le, read_u32_le, read_segment, header_error, load_segments, load_zx32_elf_into_imem,
  segment_error, write_segment, segment_word,
}
use zynq_cpu.Loader.Tests.{elf, zeros}
use zynq_cpu.Boot.Words.{write_all, count_errors}
use zynq_cpu.Boot.Launch.Keeps.{Confined}
use zynq_cpu.Probe.{
  Bench, Firmware, run_check, run_loaded, run_started, wait_end, judge_load, read_all, all_wanted,
}
use zynq_cpu.Probe.Cpu.{entry_smoke, elf_load}
use zynq_cpu.Probe.Verdict.{Passes, run_check_lem}
use zynq_cpu.Probe.Started.{Releases, Refuses, run_check-Releases}
use zynq_cpu.Probe.Contract.{run_cpu_linux_contract_smoke_test}
use zynq_cpu.Probe.Payload.{HandsOver, run_cpu_linux_contract_smoke_test_lem}
use zynq_cpu.Probe.Dma.{
  dma_ctrl, dma_ddr_addr, dma_local, dma_len, rx_scratch, mm2s_done, mm2s_err, s2mm_done, s2mm_err,
  run_datamover_loopback,
}
use zynq_cpu.Probe.Engine.{DataMover}
use zynq_cpu.Probe.Loopback.{run_datamover_loopback-works}
use zynq_cpu.Probe.Main.{Arrays, Programs, Firmwares}
use zynq_cpu.Probe.Reports.{Lines, probe_main-Lines}

-- A board whose CPU reports that it passes as soon as it is released.
abbrev read_word : ℕ → Store → ℕ × Store
read_word a m = (m a, m)

abbrev board : Bench Store
board = record { start = λ m. update mail_status 0xABCD1234 m; in32 = read_word; halt = λ m. m }

abbrev firmware : Firmware
firmware = record { elf = elf; elf_size = 88; program = 0 ∷ 0 ∷ 0 ∷ 0 ∷ 0x04030201 ∷ 0 ∷ [] }

elf-Confined : Confined elf
unfolding read_u16_le read_u32_le read_segment
elf-Confined zero lt load = omega arith
elf-Confined (suc j) lt load = absurd (omega arith)

run_check_lem_example :
    ((run_check board (entry_smoke firmware) zeros).0 ≡ true)
    ↔ Passes board (entry_smoke firmware) zeros
run_check_lem_example = run_check_lem board (entry_smoke firmware) zeros (omega arith)

run_check-Releases_example :
    Releases board (elf_load firmware) zeros ⊎ Refuses board (elf_load firmware) zeros
run_check-Releases_example = run_check-Releases board (elf_load firmware) zeros elf-Confined

run_cpu_linux_contract_smoke_test_lem_example :
    HandsOver board 0x100000 (1 ∷ 2 ∷ 3 ∷ []) firmware zeros
    ⊎ ((run_cpu_linux_contract_smoke_test board 0x100000 (1 ∷ 2 ∷ 3 ∷ []) firmware zeros).0 ≡ false)
run_cpu_linux_contract_smoke_test_lem_example =
    run_cpu_linux_contract_smoke_test_lem board 0x100000 (1 ∷ 2 ∷ 3 ∷ []) firmware zeros
      (omega arith) elf-Confined

-- The firmware loads, its words are verified, and the first poll ends the wait.
entry_smoke_passes : (run_check board (entry_smoke firmware) zeros).0 ≡ true
unfolding run_check run_loaded run_started wait_end poll_loop judge_load read_all all_wanted
    write_all count_errors load_zx32_elf_into_imem header_error read_u16_le read_u32_le
    load_segments read_segment segment_error write_segment segment_word for_range update
entry_smoke_passes = refl

-- A window of memory, at a word of it and outside.
abbrev window : ℕ → ℕ → ℕ → (ℕ → ℕ) → Store → Store
window status base len inside m b =
    if b == dma_status
    then status
    else if leb base b && ltb b (base + len)
    then inside (b - base)
    else m b

-- A DataMover that is done at once.
abbrev receive : Store → Store
receive m =
    window mm2s_done (rx_scratch + m dma_local) (m dma_len) (λ off. m (m dma_ddr_addr + off)) m

abbrev send : Store → Store
send m = window s2mm_done (m dma_ddr_addr) (m dma_len) (λ off. m (tx_scratch + m dma_local + off)) m

abbrev engine_write : ℕ → ℕ → Store → Store
engine_write a v m =
    if a == dma_ctrl
    then if v == 1 then receive m else send m
    else if a == dma_status
    then update dma_status 0 m
    else update a v m

received :
    (m : Store) → wait_for_dma read_word mm2s_done mm2s_err (receive m) ≡ (0, mm2s_done, receive m)
unfolding wait_for_dma poll_loop judge_dma
received m = refl

sent : (m : Store) → wait_for_dma read_word s2mm_done s2mm_err (send m) ≡ (0, s2mm_done, send m)
unfolding wait_for_dma poll_loop judge_dma
sent m = refl

written :
    (a v b : ℕ) (m : Store) → a ≢ dma_ctrl → a ≢ dma_status → engine_write a v m b ≡ update a v m b
unfolding update
written a v b m no_ctrl no_status = ground arith

window-inside :
    (status base len k : ℕ) (inside : ℕ → ℕ) (m : Store)
    → k * 4 < len
    → (base + len ≤ dma_ctrl) ⊎ (rx_scratch ≤ base)
    → window status base len inside m (base + k * 4) ≡ inside (k * 4)
window-inside status base len k inside m lt apart =
    let other : (base + k * 4 == dma_status) ≡ false = ground (arith, apart) in
    let within : (leb base (base + k * 4) && ltb (base + k * 4) (base + len)) ≡ true =
      ground arith in
    let offset : base + k * 4 - base ≡ k * 4 = omega arith in rw (other, within) (ap inside offset)

window-outside :
    (status base len b : ℕ) (inside : ℕ → ℕ) (m : Store)
    → b < dma_ctrl
    → (b < base) ⊎ (base + len ≤ b)
    → window status base len inside m b ≡ m b
window-outside status base len b inside m low out =
    let other : (b == dma_status) ≡ false = ground arith in
    let without : (leb base b && ltb b (base + len)) ≡ false = ground (arith, out) in
    rw (other, without) refl

simple : DataMover read_word engine_write (λ m. m)
unfolding update
simple = record {
  reads = λ a d other. refl;
  keeps = λ a b d other. refl;
  writes = written;
  clears = λ b d other. update_ne dma_status 0 b d other;
  cleared = λ d. refl;
  mm2s = λ d clear. (
    ap (λ (r : ℕ × ℕ × Store). r.0) (received d),
    λ k lt.
        ap (λ (r : ℕ × ℕ × Store). r.2 (rx_scratch + d dma_local + k * 4)) (received d)
        ∙ window-inside mm2s_done (rx_scratch + d dma_local) (d dma_len) k
            (λ off. d (d dma_ddr_addr + off)) d lt (inr (omega arith)),
    λ b low.
        ap (λ (r : ℕ × ℕ × Store). r.2 b) (received d)
        ∙ window-outside mm2s_done (rx_scratch + d dma_local) (d dma_len) b
            (λ off. d (d dma_ddr_addr + off)) d low (inl (omega arith)),
  );
  s2mm = λ d clear fits. (
    ap (λ (r : ℕ × ℕ × Store). r.0) (sent d),
    λ k lt.
        ap (λ (r : ℕ × ℕ × Store). r.2 (d dma_ddr_addr + k * 4)) (sent d)
        ∙ window-inside s2mm_done (d dma_ddr_addr) (d dma_len) k
            (λ off. d (tx_scratch + d dma_local + off)) d lt (inl fits),
    λ b low out.
        ap (λ (r : ℕ × ℕ × Store). r.2 b) (sent d)
        ∙ window-outside s2mm_done (d dma_ddr_addr) (d dma_len) b
            (λ off. d (tx_scratch + d dma_local + off)) d low out,
  );
}

run_datamover_loopback-works_example :
    (run_datamover_loopback read_word engine_write 0x100000 0x200000 zeros).0 ≡ 0
run_datamover_loopback-works_example =
    run_datamover_loopback-works read_word engine_write (λ m. m) simple 0x100000 0x200000
      (omega arith, omega arith, inl (omega arith)) zeros

abbrev arrays : Arrays
arrays = record {
  dma_src = 0x100000;
  dma_dst = 0x200000;
  cpu_dma_src = 0x300000;
  cpu_dma_dst = 0x400000;
  cpu_ddr_probe = 0x500000;
  cpu_ddr_exec = 0x600000;
  cpu_sbi_payload = 0x700000;
  cpu_linux_contract = 0x800000;
}

abbrev programs : Programs
programs = record {
  bram_load = 1 ∷ 2 ∷ [];
  xcpyw_check = 1 ∷ 2 ∷ [];
  ddr_exec = 1 ∷ 2 ∷ [];
  ddr_high_exec = 1 ∷ 2 ∷ [];
  sbi_payload = 1 ∷ 2 ∷ [];
  sbi_timer_payload = 1 ∷ 2 ∷ [];
  linux_sbi_payload = 1 ∷ 2 ∷ [];
  contract_payload = 1 ∷ 2 ∷ [];
}

abbrev firmwares : Firmwares
firmwares = record {
  elf_load_firmware = firmware;
  entry_firmware = firmware;
  trap_firmware = firmware;
  supervisor_firmware = firmware;
  timer_firmware = firmware;
  boot_payload_firmware = firmware;
  counter_firmware = firmware;
  custom_datamover_firmware = firmware;
  ddr_access_firmware = firmware;
  high_access_firmware = firmware;
  high_amo_firmware = firmware;
  sbi_firmware = firmware;
  sbi_timer_firmware = firmware;
  contract_firmware = firmware;
  linux_sbi_firmware = firmware;
  image_layout_firmware = firmware;
}

probe_main-Lines_example : Lines board engine_write arrays programs firmwares zeros
probe_main-Lines_example = probe_main-Lines board engine_write arrays programs firmwares zeros
