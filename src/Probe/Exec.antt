-- ===== src/Probe/Exec.antt =====
-- The smoke tests of programs that the PS puts in place itself (hw_bringup/ps_uart_probe_cpu.c): in DDR, and
-- in instruction memory.
use zynq_cpu.Base.{
  ℕ, ◌+◌, ◌-◌, ◌*◌, Store, update, ltb, ◌==◌, if◌then◌else◌, Bool, true, false, List, [], ◌∷◌, ◌++◌,
  length,
}
use zynq_cpu.Mailbox.{mail_status}
use zynq_cpu.Loader.{imem_base}
use zynq_cpu.Boot.Words.{cpu_ctrl, reset_vector, write_all, count_errors}
use zynq_cpu.Probe.Registers.Mail.{ddr_exec_pc, ddr_exec_marker, ddr_exec_count}
use zynq_cpu.Probe.{
  Bench, Want, is, or_fail, for_load_test, zeros_at, words_at, nothing_else, run_started,
  run_written,
}
use zynq_cpu.Probe.Cpu.{cpu_addr, high_exec_cpu_addr, high_exec_ps_addr}

abbrev pub ddr_exec_words : ℕ
ddr_exec_words = 64

-- The writes that set a program in DDR off.
abbrev pub exec_writes : ℕ → List (ℕ × ℕ)
exec_writes entry =
    (cpu_ctrl, 1)
    ∷ (ddr_exec_pc, 0)
    ∷ (ddr_exec_marker, 0)
    ∷ (ddr_exec_count, 0)
    ∷ (mail_status, 0)
    ∷ (reset_vector, entry)
    ∷ (cpu_ctrl, 0)
    ∷ []

abbrev pub exec_wants : ℕ → List (ℕ × Want)
exec_wants entry =
    (ddr_exec_pc, is entry) ∷ (ddr_exec_marker, is 0xA5A55A5A) ∷ (ddr_exec_count, is 16) ∷ []

module _ {D : Type 0} (b : Bench D) where
  unfoldable pub run_cpu_ddr_exec_smoke_test : ℕ → List ℕ → Store → Bool × Store
  run_cpu_ddr_exec_smoke_test exec program m =
      if ltb ddr_exec_words (length program)
      then (false, m)
      else run_written b
          (zeros_at exec ddr_exec_words ++ (words_at exec program ++ exec_writes (cpu_addr exec)))
          (or_fail []) (exec_wants (cpu_addr exec)) m

  -- The words behind the program, up to 64, are cleared.
  unfoldable pub run_cpu_ddr_high_exec_smoke_test : List ℕ → Store → Bool × Store
  run_cpu_ddr_high_exec_smoke_test program m =
      run_written b
        (words_at high_exec_ps_addr program
          ++ (zeros_at (high_exec_ps_addr + length program * 4) (ddr_exec_words - length program)
              ++ exec_writes high_exec_cpu_addr))
        (or_fail []) (exec_wants high_exec_cpu_addr) m

  -- The second part, with the program of the copy instruction.
  unfoldable pub run_copy_check : List ℕ → Bool × Store → Bool × Store
  run_copy_check program (false, m) = (false, m)
  run_copy_check program (true, m) =
      run_written b
        ((cpu_ctrl, 1)
          ∷ (mail_status, 0)
          ∷ (words_at imem_base program
              ++ ((imem_base + 16 * 4, 0x12345678) ∷ (imem_base + 17 * 4, 0) ∷ (cpu_ctrl, 0) ∷ [])))
        for_load_test ((imem_base + 17 * 4, is 0x12345678) ∷ []) m

  unfoldable pub run_cpu_bram_load_test : List ℕ → List ℕ → Store → Bool × Store
  run_cpu_bram_load_test program copy_program m =
      let m1 = write_all ((cpu_ctrl, 1) ∷ (mail_status, 0) ∷ words_at imem_base program) m in
      let errors = count_errors program 0 m1 0 in
      run_copy_check copy_program
        (run_started b for_load_test (errors == 0) [] nothing_else (update cpu_ctrl 0 m1))
