-- ===== src/Probe/Reports.antt =====
-- The lines of the probe program (hw_bringup/ps_uart_probe.c, `main`).
use zynq_cpu.Base.{
  ℕ, ◌+◌, ◌≡◌, ◌≢◌, ◌↔◌, refl, sym, ap, ◌∙◌, Store, ◌==◌, if_both, Bool, Bool-cases, inl, inr, true,
  false, List, [], ◌∷◌, ◌++◌, length, arith,
}
use mathlib.Core.Bool.{true≢false}
use zynq_cpu.Boot.{artifacts_present}
use zynq_cpu.Probe.{Bench, run_check}
use zynq_cpu.Probe.Contract.{
  linux_image_layout_smoke, image_present, run_cpu_linux_image_layout_smoke_test,
}
use zynq_cpu.Probe.Dma.{run_datamover_loopback, run_cpu_datamover_loopback}
use zynq_cpu.Probe.Main.{
  Report, pass, fails, skip, report, report_code, Arrays, Programs, Firmwares, run_tests, axi_probe,
  core_tests, layout_test, probe_main,
}

abbrev pub NoSkip : List Report → Type 0
NoSkip [] = Unit {0}
NoSkip (r ∷ rs) = (r ≢ skip) × NoSkip rs

abbrev NeverSkip : List (Store → Report × Store) → Type 0
NeverSkip [] = Unit {0}
NeverSkip (test ∷ tests) = ((m : Store) → (test m).0 ≢ skip) × NeverSkip tests

report-settled : (ok : Bool) → report ok ≢ skip
report-settled true = λ e. ground arith
report-settled false = λ e. ground arith

report-pass : (ok : Bool) → (report ok ≡ pass) ↔ (ok ≡ true)
report-pass true = (λ e. refl, λ e. refl)
report-pass false = (λ e. absurd (ground arith), λ e. absurd (true≢false (sym e)))

report_code-settled : (code : ℕ) → report_code code ≢ skip
report_code-settled code =
    if_both (λ r. r ≢ skip) (code == 0) {x = pass} {y = fails} (λ e. ground arith)
      (λ e. ground arith)

run_tests-NoSkip :
    (tests : List (Store → Report × Store)) (m : Store)
    → NeverSkip tests
    → NoSkip (run_tests tests m).0
unfolding run_tests
run_tests-NoSkip [] m never = tt
run_tests-NoSkip (test ∷ tests) m never = (never.0 m, run_tests-NoSkip tests (test m).1 never.1)

run_tests-last :
    (tests : List (Store → Report × Store)) (last : Store → Report × Store) (m : Store)
    → (run_tests (tests ++ (last ∷ [])) m).0
      ≡ (run_tests tests m).0 ++ ((last (run_tests tests m).1).0 ∷ [])
unfolding run_tests
run_tests-last [] last m = refl
run_tests-last (test ∷ tests) last m =
    ap (λ rs. (test m).0 ∷ rs) (run_tests-last tests last (test m).1)

run_tests-length :
    (tests : List (Store → Report × Store)) (m : Store)
    → length (run_tests tests m).0 ≡ length tests
unfolding run_tests
run_tests-length [] m = refl
run_tests-length (test ∷ tests) m = ap (λ n. n + 1) (run_tests-length tests (test m).1)

module _ {D : Type 0} (b : Bench D) (out32 : ℕ → ℕ → D → D) (arrays : Arrays) (programs : Programs)
    (fw : Firmwares) where
  core_tests-NeverSkip : NeverSkip (core_tests b out32 arrays programs fw)
  core_tests-NeverSkip =
      let s : (ok : Bool) → report ok ≢ skip = report-settled in
      (
        λ m. s _,
        (
          λ m. s _,
          (
            λ m. s _,
            (
              λ m. s _,
              (
                λ m. s _,
                (
                  λ m. s _,
                  (
                    λ m. s _,
                    (
                      λ m. s _,
                      (
                        λ m. report_code-settled _,
                        (
                          λ m. s _,
                          (
                            λ m. s _,
                            (
                              λ m. s _,
                              (
                                λ m. s _,
                                (λ m. s _, (λ m. s _, (λ m. s _, (λ m. s _, (λ m. s _, tt))))),
                              ),
                            ),
                          ),
                        ),
                      ),
                    ),
                  ),
                ),
              ),
            ),
          ),
        ),
      )

  present_lem : (m : Store) → image_present m ≡ artifacts_present m
  unfolding image_present artifacts_present
  present_lem m = refl

  layout_test-skip :
      (m : Store)
      → ((layout_test b out32 arrays programs fw m).0 ≡ skip) ↔ (artifacts_present m ≡ false)
  unfolding run_cpu_linux_image_layout_smoke_test
  layout_test-skip m =
      let present = present_lem m in
      elim (Bool-cases (image_present m)) [
        | inl here ↦
            rw here
              (λ e. absurd (report-settled _ e), λ e. absurd (true≢false (sym here ∙ present ∙ e)))
        | inr gone ↦ rw gone (λ e. sym present ∙ gone, λ e. refl)
      ]

  layout_test-pass :
      (m : Store)
      → ((layout_test b out32 arrays programs fw m).0 ≡ pass)
        ↔ (artifacts_present m ≡ true)
          × ((run_check b (linux_image_layout_smoke fw.image_layout_firmware) m).0 ≡ true)
  unfolding run_cpu_linux_image_layout_smoke_test
  layout_test-pass m =
      let present = present_lem m in
      let ok = (run_check b (linux_image_layout_smoke fw.image_layout_firmware) m).0 in
      elim (Bool-cases (image_present m)) [
        | inl here ↦
            rw here
              (λ e. (sym present ∙ here, (report-pass ok).0 e), λ (p, e). (report-pass ok).1 e)
        | inr gone ↦
            rw gone
              (λ e. absurd (ground arith), λ (p, e). absurd (true≢false (sym (present ∙ p) ∙ gone)))
      ]

  axi_probe-settled : (d : D) → (axi_probe b out32 arrays programs fw d).0 ≢ skip
  unfolding axi_probe
  axi_probe-settled d = report-settled _

  -- The memory that the tests before the last leave: the register block and both loops of the engine,
  -- then the tests that hold the PL CPU.
  abbrev pub layout_memory : D → Store
  layout_memory d =
      let probe = axi_probe b out32 arrays programs fw d in
      let loopback = run_datamover_loopback b.in32 out32 arrays.dma_src arrays.dma_dst probe.1 in
      let by_cpu =
        run_cpu_datamover_loopback b.in32 out32 arrays.cpu_dma_src arrays.cpu_dma_dst loopback.1 in
      (run_tests (core_tests b out32 arrays programs fw) (b.halt by_cpu.1)).1

  -- The lines of the program: those before the last, of which none is a skip, and the last, by what the
  -- memory before its test holds.
  abbrev pub Lines : D → Type 0
  Lines d =
      let m = layout_memory d in
      (before : List Report) × (last : Report) × ((probe_main b out32 arrays programs fw d).0
        ≡ before ++ (last ∷ []))
      × (length before ≡ 21)
      × NoSkip before
      × ((last ≡ skip) ↔ (artifacts_present m ≡ false))
      × ((last ≡ pass)
          ↔ (artifacts_present m ≡ true)
            × ((run_check b (linux_image_layout_smoke fw.image_layout_firmware) m).0 ≡ true))

  -- The program prints 22 reports; none but the last is a skip. With the memory that the tests before the
  -- last leave, the last is a skip just where the words of the kernel and the device tree by which the
  -- boot launcher knows them are not in it, and a pass just where they are and the layout test passes.
  pub probe_main-Lines : (d : D) → Lines d
  unfolding probe_main
  probe_main-Lines d =
      let probe = axi_probe b out32 arrays programs fw d in
      let loopback = run_datamover_loopback b.in32 out32 arrays.dma_src arrays.dma_dst probe.1 in
      let by_cpu =
        run_cpu_datamover_loopback b.in32 out32 arrays.cpu_dma_src arrays.cpu_dma_dst loopback.1 in
      let tests = core_tests b out32 arrays programs fw in
      let last = layout_test b out32 arrays programs fw in
      let m = b.halt by_cpu.1 in
      (
        probe.0 ∷ report_code loopback.0 ∷ report_code by_cpu.0 ∷ (run_tests tests m).0,
        (last (run_tests tests m).1).0,
        ap (λ rs. probe.0 ∷ report_code loopback.0 ∷ report_code by_cpu.0 ∷ rs)
            (run_tests-last tests last m),
        ap (λ n. n + 1 + 1 + 1) (run_tests-length tests m),
        (
          axi_probe-settled d,
          (
            report_code-settled loopback.0,
            (report_code-settled by_cpu.0, run_tests-NoSkip tests m core_tests-NeverSkip),
          ),
        ),
        layout_test-skip (run_tests tests m).1,
        layout_test-pass (run_tests tests m).1,
      )
