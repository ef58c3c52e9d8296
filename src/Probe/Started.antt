-- ===== src/Probe/Started.antt =====
-- What the PL CPU finds when a smoke test releases it (hw_bringup/ps_uart_probe_cpu.c,
-- ps_uart_probe_sbi.c).
use zynq_cpu.Base.{
  ℕ, ◌+◌, ◌≤◌, ◌<◌, ◌≡◌, ◌≢◌, ◌⊎◌, inl, inr, refl, ◌∙◌, Store, update, update_ne, ◌==◌, Bool, false,
  List, [], ◌∷◌, ◌++◌,
}
use zynq_cpu.Loader.{imem_base, load_zx32_elf_into_imem, Loaded, fail, loaded}
use zynq_cpu.Boot.Words.{cpu_ctrl, reset_vector, write_all, count_errors}
use zynq_cpu.Boot.Launch.Keeps.{Confined, loaded_mem, load_zx32_elf_into_imem-keeps}
use zynq_cpu.Probe.{Bench, Check, run_started, run_loaded, run_check}

-- None of the writes is to the address.
abbrev pub Untouched : ℕ → List (ℕ × ℕ) → Type 0
Untouched a [] = Unit {0}
Untouched a ((b, v) ∷ writes) = (a ≢ b) × Untouched a writes

pub write_all-Untouched :
    (a : ℕ) (writes : List (ℕ × ℕ)) (m : Store) → Untouched a writes → write_all writes m a ≡ m a
unfolding write_all
write_all-Untouched a [] m free = refl
write_all-Untouched a ((b, v) ∷ writes) m free =
    write_all-Untouched a writes (update b v m) free.1 ∙ update_ne b v a m free.0

pub write_all-append :
    (first second : List (ℕ × ℕ)) (m : Store)
    → write_all (first ++ second) m ≡ write_all second (write_all first m)
unfolding write_all
write_all-append [] second m = refl
write_all-append ((a, v) ∷ first) second m = write_all-append first second (update a v m)

-- Outside instruction memory and the two registers that start the CPU, and not among the late writes.
abbrev pub Apart : Check → ℕ → Type 0
Apart c a =
    ((a < imem_base) ⊎ (imem_base + 0x4000 ≤ a))
    × (a ≢ reset_vector)
    × (a ≢ cpu_ctrl)
    × Untouched a c.late

-- The memory in which the CPU is released after a load: the word at `a` is as the preparation left it.
module _ (c : Check) (a : ℕ) (apart : Apart c a) where
  released_word :
      (m : Store) (entry : ℕ)
      → update cpu_ctrl 0 (write_all c.late (update reset_vector entry m)) a ≡ m a
  released_word m entry =
      update_ne cpu_ctrl 0 a _ apart.2
      ∙ write_all-Untouched a c.late (update reset_vector entry m) apart.3
      ∙ update_ne reset_vector entry a m apart.1

-- A test that releases the CPU on a memory, with the words that its preparation left.
abbrev pub Releases : {D : Type 0} → Bench D → Check → Store → Type 0
Releases b c m =
    (verified : Bool) × (r : Store) × (run_check b c m
      ≡ run_started b c.wait verified c.wants c.also r)
    × (r cpu_ctrl ≡ 0)
    × ((a : ℕ) → Apart c a → r a ≡ write_all c.prepare m a)

-- A test that fails with the CPU in reset.
abbrev pub Refuses : {D : Type 0} → Bench D → Check → Store → Type 0
Refuses b c m =
    ((run_check b c m).0 ≡ false)
    × ((a : ℕ)
        → (a < imem_base) ⊎ (imem_base + 0x4000 ≤ a)
        → (run_check b c m).1 a ≡ write_all c.prepare m a)

module _ {D : Type 0} (b : Bench D) (c : Check) where
  loaded_cases :
      (m : Store) (r : Loaded)
      → ((a : ℕ)
          → (a < imem_base) ⊎ (imem_base + 0x4000 ≤ a)
          → loaded_mem r a ≡ write_all c.prepare m a)
      → load_zx32_elf_into_imem c.firmware.elf c.firmware.elf_size (write_all c.prepare m) ≡ r
      → Releases b c m ⊎ Refuses b c m
  unfolding run_check run_loaded update
  loaded_cases m (fail code m') keeps e = rw e (inr (refl, keeps))
  loaded_cases m (loaded words entry m') keeps e = rw e (
      inl (
        count_errors c.firmware.program 0 (update reset_vector entry m') 0 == 0,
        update cpu_ctrl 0 (write_all c.late (update reset_vector entry m')),
        refl,
        refl,
        λ a apart. released_word c a apart m' entry ∙ keeps a apart.0,
      ))

  -- A test with a firmware that keeps to instruction memory either fails with the CPU held in reset and
  -- no word outside instruction memory changed since the preparation, or releases the CPU on a memory
  -- in which every prepared word stands that no later write of the test is to.
  pub run_check-Releases : (m : Store) → Confined c.firmware.elf → Releases b c m ⊎ Refuses b c m
  run_check-Releases m confined =
      loaded_cases m
        (load_zx32_elf_into_imem c.firmware.elf c.firmware.elf_size (write_all c.prepare m))
        (λ a outside.
          load_zx32_elf_into_imem-keeps c.firmware.elf c.firmware.elf_size a outside
            (write_all c.prepare m) confined)
        refl
