-- ===== src/Probe/Verdict.antt =====
-- What a passing smoke test has seen (hw_bringup/ps_uart_probe_cpu.c, ps_uart_probe_sbi.c).
use zynq_cpu.Base.{
  ℕ, suc, ◌+◌, ◌*◌, ◌<◌, ◌≡◌, ◌≢◌, ◌↔◌, refl, ap, sym, ◌∙◌, Store, update, word, bit_and, ◌==◌,
  ◌&&◌, Bool, true, false, List, [], ◌∷◌, map, length, arith,
}
use mathlib.Core.Bool.{true≢false}
use zynq_cpu.Console.Writer.{char_at}
use zynq_cpu.Loader.{imem_base, load_zx32_elf_into_imem, Loaded, fail, loaded}
use zynq_cpu.Boot.Words.{cpu_ctrl, reset_vector, write_all, count_errors}
use zynq_cpu.Boot.Launch.Ready.{count_errors-none}
use zynq_cpu.Probe.{
  Bench, Check, Want, is, nonzero, has_bits, unchecked, wanted, Wait, all_wanted, pass_value,
  read_all, wait_end, verdict, run_started, run_loaded, run_check,
}
use zynq_cpu.Probe.Polls.{Sees, wait_end-Sees}

abbrev Meets : Want → ℕ → Type 0
Meets (is value) w = w ≡ value
Meets nonzero w = w ≢ 0
Meets (has_bits mask) w = bit_and w mask ≢ 0
Meets unchecked w = Unit {0}

wanted-Meets : (want : Want) (w : ℕ) → (wanted want w ≡ true) ↔ Meets want w
wanted-Meets (is value) w = (λ e. ground arith, λ e. ground arith)
wanted-Meets nonzero w = (λ e. ground arith, λ e. ground arith)
wanted-Meets (has_bits mask) w = (λ e. ground arith, λ e. ground arith)
wanted-Meets unchecked w = (λ e. tt, λ e. refl)

-- The program is in its place.
abbrev InPlace : List ℕ → Store → Type 0
InPlace program m = (k : ℕ) → k < length program → m (imem_base + k * 4) ≡ char_at program k

both_true : (x y : Bool) → ((x && y) ≡ true) ↔ (x ≡ true) × (y ≡ true)
both_true true y = (λ e. (refl, e), λ h. h.1)
both_true false y = (λ e. absurd (true≢false (sym e)), λ h. h.0)

count_errors-InPlace :
    (ws : List ℕ) (i : ℕ) (m : Store)
    → ((k : ℕ) → k < length ws → m (imem_base + (i + k) * 4) ≡ char_at ws k)
    → count_errors ws i m 0 ≡ 0
unfolding count_errors
count_errors-InPlace [] i m here = refl
count_errors-InPlace (w ∷ ws) i m here =
    let at : imem_base + i * 4 ≡ imem_base + (i + 0) * 4 = omega arith in
    let first : m (imem_base + i * 4) ≡ w = ap m at ∙ here 0 (omega arith) in
    let same : (m (imem_base + i * 4) == w) ≡ true = ground (arith, first) in
    rw same (
      count_errors-InPlace ws (i + 1) m (λ k lt.
        let next : imem_base + (i + 1 + k) * 4 ≡ imem_base + (i + suc k) * 4 = omega arith in
        ap m next ∙ here (suc k) (omega arith)))

errors-InPlace :
    (program : List ℕ) (m : Store)
    → length program < word
    → ((count_errors program 0 m 0 == 0) ≡ true) ↔ InPlace program m
errors-InPlace program m small = (
  λ e k lt. count_errors-none program m k small (ground (arith, e)) lt,
  λ here.
      let none : count_errors program 0 m 0 ≡ 0 = count_errors-InPlace program 0 m (λ k lt.
        let at : imem_base + (0 + k) * 4 ≡ imem_base + k * 4 = omega arith in
        ap m at ∙ here k lt) in
      ground (arith, none),
)

module _ {D : Type 0} (b : Bench D) where
  -- The words are read one after the other, and each is as wanted.
  abbrev Read : List (ℕ × Want) → D → Type 0
  Read [] d = Unit {0}
  Read ((a, want) ∷ wants) d = Meets want (b.in32 a d).0 × Read wants (b.in32 a d).1

  abbrev words_read : List (ℕ × Want) → D → List ℕ
  words_read wants d = (read_all b (map (λ (w : ℕ × Want). w.0) wants) d).0

  all_wanted-Read :
      (wants : List (ℕ × Want)) (d : D)
      → (all_wanted wants (words_read wants d) ≡ true) ↔ Read wants d
  unfolding all_wanted read_all
  all_wanted-Read [] d = (λ e. tt, λ h. refl)
  all_wanted-Read ((a, want) ∷ wants) d =
      let here = wanted-Meets want (b.in32 a d).0 in
      let later = all_wanted-Read wants (b.in32 a d).1 in
      let both =
        both_true (wanted want (b.in32 a d).0)
          (all_wanted wants (words_read wants (b.in32 a d).1)) in
      (λ e. (here.0 (both.0 e).0, later.0 (both.0 e).1), λ (m, r). both.1 (here.1 m, later.1 r))

  -- From the release of the CPU on: the firmware is seen to pass, and then every word is as wanted.
  abbrev Ends : Wait → List (ℕ × Want) → (List ℕ → Bool) → D → Type 0
  Ends wait wants also d =
      let d' = (wait_end b wait d).2 in
      Sees b wait d × (Read wants d' × (also (words_read wants d') ≡ true))

  abbrev PassesLoaded : Check → Loaded → Type 0
  PassesLoaded c (fail code m) = ⊥
  PassesLoaded c (loaded words entry m) =
      let m' = update reset_vector entry m in
      InPlace c.firmware.program m'
      × Ends c.wait c.wants c.also (b.start (update cpu_ctrl 0 (write_all c.late m')))

  abbrev pub Passes : Check → Store → Type 0
  Passes c m =
      PassesLoaded c
        (load_zx32_elf_into_imem c.firmware.elf c.firmware.elf_size (write_all c.prepare m))

  verdict_lem :
      (pass : ℕ) (verified : Bool) (wants : List (ℕ × Want)) (also : List ℕ → Bool) (goes_on : Bool)
      (status : ℕ) (d : D)
      → ((verdict b pass verified wants also (goes_on, status, d)).0 ≡ true)
        ↔ (verified ≡ true)
          × (((goes_on ≡ true) × (status ≡ pass))
              × ((all_wanted wants (words_read wants d) ≡ true)
                  × (also (words_read wants d) ≡ true)))
  verdict_lem pass verified wants also false status d =
      (λ e. absurd (true≢false (sym e)), λ h. h.1.0.0)
  verdict_lem pass verified wants also true status d =
      let words = words_read wants d in
      let last = both_true (all_wanted wants words) (also words) in
      let mid = both_true (status == pass) (all_wanted wants words && also words) in
      let top = both_true verified (status == pass && (all_wanted wants words && also words)) in
      (
        λ e.
            let rest = mid.0 (top.0 e).1 in
            ((top.0 e).0, ((refl, ground (arith, rest.0)), last.0 rest.1)),
        λ (v, ((g, s), w)). top.1 (v, mid.1 (ground (arith, s), last.1 w)),
      )

  run_started_lem :
      (wait : Wait) (verified : Bool) (wants : List (ℕ × Want)) (also : List ℕ → Bool) (m : Store)
      → ((run_started b wait verified wants also m).0 ≡ true)
        ↔ (verified ≡ true) × Ends wait wants also (b.start m)
  unfolding run_started
  run_started_lem wait verified wants also m =
      let r = wait_end b wait (b.start m) in
      let v = verdict_lem (pass_value wait) verified wants also r.0 r.1 r.2 in
      let s = wait_end-Sees b wait (b.start m) in
      let a = all_wanted-Read wants r.2 in
      (
        λ e. let (ok, (seen, (words, more))) = v.0 e in (ok, (s.0 seen, (a.0 words, more))),
        λ (ok, (seen, (words, more))). v.1 (ok, (s.1 seen, (a.1 words, more))),
      )

  run_loaded_lem :
      (c : Check) (r : Loaded)
      → length c.firmware.program < word
      → ((run_loaded b c r).0 ≡ true) ↔ PassesLoaded c r
  unfolding run_loaded
  run_loaded_lem c (fail code m) small = (λ e. true≢false (sym e), λ h. absurd h)
  run_loaded_lem c (loaded words entry m) small =
      let m' = update reset_vector entry m in
      let verified = count_errors c.firmware.program 0 m' 0 == 0 in
      let p = errors-InPlace c.firmware.program m' small in
      let s =
        run_started_lem c.wait verified c.wants c.also (update cpu_ctrl 0 (write_all c.late m')) in
      (λ e. (p.0 (s.0 e).0, (s.0 e).1), λ (here, ends). s.1 (p.1 here, ends))

  -- With a program of less than 2 ^ 32 words, a test passes just when its firmware loads and stands word
  -- for word in instruction memory, is then seen to pass within the polls of the wait, and every word
  -- that is read afterwards, in order, is as wanted.
  pub run_check_lem :
      (c : Check) (m : Store)
      → length c.firmware.program < word
      → ((run_check b c m).0 ≡ true) ↔ Passes c m
  unfolding run_check
  run_check_lem c m small =
      run_loaded_lem c
        (load_zx32_elf_into_imem c.firmware.elf c.firmware.elf_size (write_all c.prepare m)) small
