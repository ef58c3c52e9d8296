-- ===== src/Probe.antt =====
-- The smoke tests of the PL CPU (hw_bringup/ps_uart_probe_cpu.c, ps_uart_probe_sbi.c): what they have in
-- common. While the CPU is held in reset, the registers, the scratch memory, instruction memory and DDR
-- are one memory. A `Bench` is the board with the CPU running: any machine that starts from a memory,
-- answers reads and may change with each of them, and is a memory again when the CPU is held. What the
-- tests read for their messages alone is left out.
pub mod Registers
pub mod Cpu
pub mod Exec
pub mod Sbi
pub mod Contract
pub mod Polls
pub mod Verdict
mod Tests
pub mod Loopback
pub mod Engine
pub mod Reports
pub mod Main
pub mod Dma
pub mod Payload
pub mod Arrays
pub mod DeviceTree
pub mod Started
use zynq_cpu.Base.{
  ℕ, zero, suc, ◌+◌, ◌*◌, Store, update, bit_and, ltb, ◌==◌, not, ◌&&◌, if◌then◌else◌, Bool, true,
  false, List, [], ◌∷◌, ◌++◌, Option, none, some, map,
}
use zynq_cpu.Mailbox.{mail_status, judge_cpu, poll_loop, wait_for_cpu}
use zynq_cpu.Loader.{imem_base, load_zx32_elf_into_imem, Loaded, fail, loaded}
use zynq_cpu.Boot.Words.{cpu_ctrl, reset_vector, write_all, count_errors}
use zynq_cpu.Probe.Registers.Mail.{sup_status}

pub record Bench (D : Type 0) : Type 0 where
  pub start : Store → D
  pub in32 : ℕ → D → ℕ × D
  pub halt : D → Store

-- A firmware of the build: the ELF file and the words that it has in instruction memory.
pub record Firmware : Type 0 where
  pub elf : Store
  pub elf_size : ℕ
  pub program : List ℕ

abbrev pub status_pass : ℕ
status_pass = 0x222

abbrev pub load_test_pass : ℕ
load_test_pass = 0xABCD1234

-- Writes of zeros, and of words, to an array.
abbrev pub zeros_at : ℕ → ℕ → List (ℕ × ℕ)
zeros_at base zero = []
zeros_at base (suc n) = (base, 0) ∷ zeros_at (base + 4) n

abbrev pub words_at : ℕ → List ℕ → List (ℕ × ℕ)
words_at base [] = []
words_at base (w ∷ ws) = (base, w) ∷ words_at (base + 4) ws

-- What a test compares a word with at the end.
pub data Want : Type 0 where
  is : ℕ → Want
  nonzero : Want
  has_bits : ℕ → Want
  unchecked : Want

abbrev pub wanted : Want → ℕ → Bool
wanted (is value) w = w == value
wanted nonzero w = not (w == 0)
wanted (has_bits mask) w = not (bit_and w mask == 0)
wanted unchecked w = true

unfoldable pub all_wanted : List (ℕ × Want) → List ℕ → Bool
all_wanted ((a, want) ∷ wants) (w ∷ ws) = wanted want w && all_wanted wants ws
all_wanted _ _ = true

-- How a test waits for its firmware: `wait_for_cpu`, whose failure ends the test after reads of
-- diagnostic words or only has the status read again, or a loop of the test's own.
pub data Wait : Type 0 where
  or_fail : List ℕ → Wait
  or_read_again : Wait
  for_supervisor : Wait
  for_load_test : Wait
  for_trap : Wait

abbrev pub pass_value : Wait → ℕ
pass_value (or_fail diag) = status_pass
pass_value or_read_again = status_pass
pass_value for_supervisor = status_pass
pass_value for_load_test = load_test_pass
pass_value for_trap = load_test_pass

unfoldable pub judge_load : ℕ → Option ℕ
judge_load status = if status == load_test_pass then some 0 else none

-- A test with a firmware in instruction memory: the writes before it is loaded and after it is verified,
-- the wait, and the words that are compared at the end.
pub record Check : Type 0 where
  pub prepare : List (ℕ × ℕ)
  pub firmware : Firmware
  pub late : List (ℕ × ℕ)
  pub wait : Wait
  pub wants : List (ℕ × Want)
  pub also : List ℕ → Bool

module _ {D : Type 0} (b : Bench D) where
  unfoldable pub read_all : List ℕ → D → List ℕ × D
  read_all [] d = ([], d)
  read_all (a ∷ later) d =
      let r = b.in32 a d in let rest = read_all later r.1 in (r.0 ∷ rest.0, rest.1)

  -- The three words that the trap handler leaves in instruction memory; a word is read only where the
  -- ones before it are as expected.
  unfoldable pub trap_status : D → ℕ × D
  trap_status d =
      let r0 = b.in32 (imem_base + 20 * 4) d in
      let r1 = b.in32 (imem_base + 21 * 4) r0.1 in
      let r2 = b.in32 (imem_base + 22 * 4) r1.1 in
      if not (r0.0 == 0x0C)
      then (0, r0.1)
      else if not (r1.0 == 0x99)
      then (0, r1.1)
      else if not (r2.0 == 0x0B)
      then (0, r2.1)
      else (load_test_pass, r2.1)

  abbrev pub fail_after : List ℕ → ℕ × ℕ × D → Bool × ℕ × D
  fail_after diag (code, status, d) =
      if code == 0 then (true, status, d) else (false, status, (read_all diag d).1)

  abbrev pub read_again : ℕ × ℕ × D → Bool × ℕ × D
  read_again (code, status, d) =
      let r = b.in32 mail_status d in if code == 0 then (true, status, d) else (true, r.0, r.1)

  abbrev pub in_any_case : ℕ × ℕ × D → Bool × ℕ × D
  in_any_case (code, status, d) = (true, status, d)

  -- Whether the test goes on, with the last status and the board.
  unfoldable pub wait_end : Wait → D → Bool × ℕ × D
  wait_end (or_fail diag) d = fail_after diag (wait_for_cpu b.in32 d)
  wait_end or_read_again d = read_again (wait_for_cpu b.in32 d)
  wait_end for_supervisor d = in_any_case (poll_loop b.in32 sup_status judge_cpu 1000000 0 d)
  wait_end for_load_test d = in_any_case (poll_loop b.in32 mail_status judge_load 1000000 0 d)
  wait_end for_trap d = in_any_case (poll_loop (λ a. trap_status) 0 judge_load 1000000 0 d)

  abbrev pub verdict : ℕ → Bool → List (ℕ × Want) → (List ℕ → Bool) → Bool × ℕ × D → Bool × Store
  verdict pass verified wants also (goes_on, status, d) =
      let (words, d') = read_all (map (λ (w : ℕ × Want). w.0) wants) d in
      if goes_on
      then (verified && (status == pass && (all_wanted wants words && also words)), b.halt d')
      else (false, b.halt d)

  -- From the release of the CPU on: the wait, the words that are read, and whether the test passes.
  unfoldable pub run_started :
      Wait → Bool → List (ℕ × Want) → (List ℕ → Bool) → Store → Bool × Store
  run_started wait verified wants also m =
      verdict (pass_value wait) verified wants also (wait_end wait (b.start m))

  unfoldable pub run_loaded : Check → Loaded → Bool × Store
  run_loaded c (fail code m) = (false, m)
  run_loaded c (loaded words entry m) =
      let m' = update reset_vector entry m in
      let errors = count_errors c.firmware.program 0 m' 0 in
      run_started c.wait (errors == 0) c.wants c.also (update cpu_ctrl 0 (write_all c.late m'))

  -- Whether the test passes, and the memory after it.
  unfoldable pub run_check : Check → Store → Bool × Store
  run_check c m =
      run_loaded c
        (load_zx32_elf_into_imem c.firmware.elf c.firmware.elf_size (write_all c.prepare m))

  -- A test whose program lies in DDR: the writes up to the release of the CPU.
  unfoldable pub run_written : List (ℕ × ℕ) → Wait → List (ℕ × Want) → Store → Bool × Store
  run_written writes wait wants m = run_started wait true wants (λ words. true) (write_all writes m)

abbrev pub nothing_else : List ℕ → Bool
nothing_else words = true
