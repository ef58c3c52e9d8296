-- ===== src/Probe/Dma.antt =====
-- The tests of the DataMover (hw_bringup/ps_uart_probe_dma.c): a loopback that the PS drives itself, one by
-- the program that the PL CPU comes up with, and one by a program that is loaded. A word of an array in DDR
-- is read and written like a register.
use zynq_cpu.Base.{
  ℕ, zero, suc, ◌+◌, ◌*◌, Store, update, add32, mul32, for_range, bit_or, ◌==◌, ◌&&◌, if◌then◌else◌,
  Bool, true, List, [], ◌∷◌, ◌++◌,
}
use zynq_cpu.Bridge.{tx_scratch}
use zynq_cpu.Mailbox.{dma_status, mail_status, wait_for_dma, wait_for_cpu}
use zynq_cpu.Loader.{load_zx32_elf_into_imem, Loaded, fail, loaded}
use zynq_cpu.Boot.Words.{cpu_ctrl, reset_vector, write_all, count_errors}
use zynq_cpu.Probe.Registers.Mail.{
  mail_start, mail_src, mail_dst, mail_len, mail_mm2s_status, mail_s2mm_status, mail_copied,
}
use zynq_cpu.Probe.{Bench, Firmware, status_pass}

abbrev pub dma_ctrl : ℕ
dma_ctrl = 0x43C20000 + 0x00

abbrev pub dma_ddr_addr : ℕ
dma_ddr_addr = 0x43C20000 + 0x08

abbrev pub dma_local : ℕ
dma_local = 0x43C20000 + 0x0C

abbrev pub dma_len : ℕ
dma_len = 0x43C20000 + 0x10

abbrev pub dma_tag : ℕ
dma_tag = 0x43C20000 + 0x14

abbrev pub rx_scratch : ℕ
rx_scratch = 0x43C20000 + 0x1000

abbrev pub dma_words : ℕ
dma_words = 16

abbrev pub mm2s_done : ℕ
mm2s_done = 0x00000004

abbrev pub s2mm_done : ℕ
s2mm_done = 0x00000008

abbrev pub mm2s_err : ℕ
mm2s_err = 0x00000010

abbrev pub s2mm_err : ℕ
s2mm_err = 0x00000020

abbrev pub clear_done_err : ℕ
clear_done_err = 0x0000003C

abbrev pub start_magic : ℕ
start_magic = 0x43505521

-- The word that an array of a test has at `i`, by the top byte of the test.
abbrev pub pattern : ℕ → ℕ → ℕ
pattern top i = bit_or (bit_or top (mul32 i 0x00010101)) i

-- The writes of the pattern to a source, and of zeros to a destination.
abbrev pub fill_writes : ℕ → ℕ → ℕ → ℕ → ℕ → List (ℕ × ℕ)
fill_writes top src dst i zero = []
fill_writes top src dst i (suc n) =
    (src + i * 4, pattern top i) ∷ (dst + i * 4, 0) ∷ fill_writes top src dst (i + 1) n

-- The writes that set a transfer off: the array in DDR, and the direction with its tag.
abbrev pub transfer : ℕ → ℕ → ℕ → List (ℕ × ℕ)
transfer ddr tag ctrl =
    (dma_status, clear_done_err)
    ∷ (dma_ddr_addr, ddr)
    ∷ (dma_local, 0)
    ∷ (dma_len, dma_words * 4)
    ∷ (dma_tag, tag)
    ∷ (dma_ctrl, ctrl)
    ∷ []

-- What the mailbox asks of the PL CPU: the two arrays and their length.
abbrev pub request : ℕ → ℕ → List (ℕ × ℕ)
request src dst =
    (mail_start, 0)
    ∷ (mail_status, 0)
    ∷ (mail_mm2s_status, 0)
    ∷ (mail_s2mm_status, 0)
    ∷ (mail_copied, 0)
    ∷ (mail_src, src)
    ∷ (mail_dst, dst)
    ∷ (mail_len, dma_words * 4)
    ∷ []

module _ {D : Type 0} (in32 : ℕ → D → ℕ × D) (out32 : ℕ → ℕ → D → D) where
  unfoldable pub out_all : List (ℕ × ℕ) → D → D
  out_all [] d = d
  out_all ((a, v) ∷ writes) d = out_all writes (out32 a v d)

  -- The words from number `i` on that differ, added to `mismatches`.
  unfoldable pub count_mismatches : ℕ → ℕ → ℕ → ℕ → ℕ → D → ℕ × D
  count_mismatches src dst i zero mismatches d = (mismatches, d)
  count_mismatches src dst i (suc n) mismatches d =
      let w = in32 (dst + i * 4) d in
      let v = in32 (src + i * 4) w.1 in
      count_mismatches src dst (i + 1) n (if w.0 == v.0 then mismatches else add32 mismatches 1) v.1

  -- A word of the received data is sent back.
  unfoldable pub copy_word : ℕ → D → D
  copy_word i d = let r = in32 (rx_scratch + i * 4) d in out32 (tx_scratch + i * 4) r.0 r.1

  -- The negated result code, and the machine afterwards.
  abbrev pub judge_copy : ℕ × D → ℕ × D
  judge_copy (mismatches, d) = (if mismatches == 0 then 0 else 3, d)

  abbrev pub after_s2mm : ℕ → ℕ → ℕ × ℕ × D → ℕ × D
  after_s2mm src dst (code, status, d) =
      let r = count_mismatches src dst 0 dma_words 0 d in if code == 0 then judge_copy r else (2, d)

  abbrev pub after_mm2s : ℕ → ℕ → ℕ × ℕ × D → ℕ × D
  after_mm2s src dst (code, status, d) =
      let d1 = out_all (transfer dst 2 2) (for_range dma_words 0 copy_word d) in
      let r = after_s2mm src dst (wait_for_dma in32 s2mm_done s2mm_err d1) in
      if code == 0 then r else (1, d)

  unfoldable pub run_datamover_loopback : ℕ → ℕ → D → ℕ × D
  run_datamover_loopback src dst d =
      let d1 = out_all (fill_writes 0x5A000000 src dst 0 dma_words) d in
      let d2 = out_all (transfer src 1 1) d1 in
      after_mm2s src dst (wait_for_dma in32 mm2s_done mm2s_err d2)

  -- What the PL CPU reports in the end: the words copied, and the mismatches that the PS finds.
  unfoldable pub read_report : ℕ → ℕ → D → ℕ × ℕ × D
  read_report src dst d =
      let mm2s = in32 mail_mm2s_status d in
      let s2mm = in32 mail_s2mm_status mm2s.1 in
      let copied = in32 mail_copied s2mm.1 in
      let r = count_mismatches src dst 0 dma_words 0 copied.1 in (copied.0, r.0, r.1)

  abbrev pub judge_report : ℕ → Bool → ℕ × ℕ × D → ℕ × D
  judge_report code verified (copied, mismatches, d) =
      (if copied == dma_words && (mismatches == 0 && verified) then 0 else code, d)

  abbrev pub after_cpu : ℕ → ℕ → ℕ → (ℕ → Bool) → ℕ × ℕ × D → ℕ × D
  after_cpu src dst code verified (failed, status, d) =
      let r = read_report src dst d in
      if failed == 0 then judge_report code (verified status) r else (1, d)

  unfoldable pub run_cpu_datamover_loopback : ℕ → ℕ → D → ℕ × D
  run_cpu_datamover_loopback src dst d =
      let d1 = out_all (fill_writes 0xC5000000 src dst 0 dma_words) d in
      let d2 = out_all (request src dst ++ ((mail_start, start_magic) ∷ [])) d1 in
      after_cpu src dst 2 (λ status. true) (wait_for_cpu in32 d2)

module _ {D : Type 0} (b : Bench D) (out32 : ℕ → ℕ → D → D) (firmware : Firmware)
    (src dst : ℕ) where
  -- The CPU is released, and then told to start. It is held again for the test after this one.
  unfoldable pub run_custom_loaded : Loaded → ℕ × Store
  run_custom_loaded (fail code m) = (1, m)
  run_custom_loaded (loaded words entry m) =
      let m' = update reset_vector entry m in
      let errors = count_errors firmware.program 0 m' 0 in
      let d = out32 mail_start start_magic (b.start (update cpu_ctrl 0 m')) in
      let verified = λ (status : ℕ). status == status_pass && errors == 0 in
      let r = after_cpu b.in32 out32 src dst 1 verified (wait_for_cpu b.in32 d) in (r.0, b.halt r.1)

  unfoldable pub run_cpu_custom_datamover_test : Store → ℕ × Store
  run_cpu_custom_datamover_test m =
      let m1 = write_all (fill_writes 0x6B000000 src dst 0 dma_words) m in
      let m2 = write_all ((cpu_ctrl, 1) ∷ request src dst) m1 in
      run_custom_loaded (load_zx32_elf_into_imem firmware.elf firmware.elf_size m2)
