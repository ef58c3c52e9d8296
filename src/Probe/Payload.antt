-- ===== src/Probe/Payload.antt =====
-- What the Linux contract test hands to the PL CPU (hw_bringup/ps_uart_probe_sbi.c,
-- `run_cpu_linux_contract_smoke_test`).
use zynq_cpu.Base.{
  ℕ, ◌+◌, ◌*◌, ◌≤◌, ◌<◌, ◌≡◌, ◌⊎◌, inl, inr, refl, ap, ◌∙◌, Store, update, leb, ◌&&◌, Bool, true,
  false, Bool-cases, List, [], ◌∷◌, ◌++◌, length, map, some, arith,
}
use zynq_cpu.Console.Writer.{char_at}
use zynq_cpu.Boot.Words.{cpu_ctrl, linux_entry, linux_dtb, write_all}
use zynq_cpu.Boot.Launch.Keeps.{Confined}
use zynq_cpu.Probe.{Bench, Firmware, or_read_again, zeros_at, words_at, run_started, nothing_else}
use zynq_cpu.Probe.Cpu.{cpu_addr}
use zynq_cpu.Probe.Contract.{
  dtb_word_offset, linux_contract_words, device_tree, contract_memory, contract_mailbox,
  linux_contract_smoke, run_cpu_linux_contract_smoke_test,
}
use zynq_cpu.Probe.Started.{
  Untouched, write_all-Untouched, write_all-append, Apart, Releases, Refuses, run_check-Releases,
}
use zynq_cpu.Probe.DeviceTree.{
  tree_word, words_from, words_placed, words_from-placed, read_tree, read_tree-placed, memory_tree,
}
use zynq_cpu.Probe.Arrays.{
  words_at-Untouched, write_all-zeros_at, write_all-words_at, write_all-placed,
}

-- Every write is at or above the address.
abbrev all_above : ℕ → List (ℕ × ℕ) → Bool
all_above bound [] = true
all_above bound ((a, v) ∷ writes) = leb bound a && all_above bound writes

all_above-Untouched :
    (a bound : ℕ) (writes : List (ℕ × ℕ))
    → a < bound
    → all_above bound writes ≡ true
    → Untouched a writes
all_above-Untouched a bound [] lt e = tt
all_above-Untouched a bound ((b, v) ∷ writes) lt e =
    (ground arith, all_above-Untouched a bound writes lt (ground arith))

places-Untouched :
    (a base offset : ℕ) (ws : List (ℕ × ℕ))
    → a < base + offset * 4
    → Untouched a (map (λ (w : ℕ × ℕ). (base + (offset + w.0) * 4, w.1)) ws)
places-Untouched a base offset [] lt = tt
places-Untouched a base offset ((j, w) ∷ ws) lt =
    (ground arith, places-Untouched a base offset ws lt)

mailbox_entry : (at : ℕ) (m : Store) → write_all (contract_mailbox at) m linux_entry ≡ cpu_addr at
unfolding write_all update
mailbox_entry at m = refl

mailbox_dtb :
    (at : ℕ) (m : Store)
    → at + 0x1000 ≤ 0x4000_0000
    → write_all (contract_mailbox at) m linux_dtb ≡ cpu_addr (at + 0x800)
unfolding write_all update
mailbox_dtb at m low = omega arith

-- The memory after the preparation of the test.
abbrev prepared : ℕ → List ℕ → Store → Store
prepared at payload m = write_all (contract_memory at payload ++ contract_mailbox at) m

module _ (at : ℕ) (payload : List ℕ) (fits : length payload < 512) (low : at + 0x1000 ≤ 0x4000_0000)
    (m : Store) where
  abbrev cleared : Store
  cleared = write_all (zeros_at at linux_contract_words) m

  abbrev filled : Store
  filled = write_all (words_at at payload) cleared

  abbrev places : List (ℕ × ℕ)
  places = map (λ (w : ℕ × ℕ). (at + (dtb_word_offset + w.0) * 4, w.1)) device_tree

  -- The mailbox lies above the array.
  prepared_low : (a : ℕ) → a < 0x4000_0000 → prepared at payload m a ≡ write_all places filled a
  prepared_low a lt =
      ap (λ s. s a) (write_all-append (contract_memory at payload) (contract_mailbox at) m)
      ∙ write_all-Untouched a (contract_mailbox at) (write_all (contract_memory at payload) m)
          (all_above-Untouched a 0x4000_0000 (contract_mailbox at) lt refl)
      ∙ ap (λ s. s a)
          (write_all-append (zeros_at at linux_contract_words) (words_at at payload ++ places) m
            ∙ write_all-append (words_at at payload) places cleared)

  prepared_tree :
      (k : ℕ)
      → k < 64
      → prepared at payload m (at + (dtb_word_offset + k) * 4) ≡ tree_word device_tree k 0
  prepared_tree k lt =
      let a = at + (dtb_word_offset + k) * 4 in
      let zero_word : filled a ≡ 0 =
        write_all-Untouched a (words_at at payload) cleared
          (words_at-Untouched a at payload (inr (omega arith)))
        ∙ write_all-zeros_at at linux_contract_words (dtb_word_offset + k) m (omega arith) in
      prepared_low a (omega arith)
      ∙ write_all-placed at dtb_word_offset k device_tree filled
      ∙ ap (tree_word device_tree k) zero_word

  prepared_payload :
      (k : ℕ) → k < length payload → prepared at payload m (at + k * 4) ≡ char_at payload k
  prepared_payload k lt =
      let a = at + k * 4 in
      prepared_low a (omega arith)
      ∙ write_all-Untouched a places filled
          (places-Untouched a at dtb_word_offset device_tree (omega arith))
      ∙ write_all-words_at at k payload cleared lt

  prepared_mailbox :
      (prepared at payload m linux_entry ≡ cpu_addr at)
      × (prepared at payload m linux_dtb ≡ cpu_addr (at + 0x800))
  prepared_mailbox = (
    ap (λ s. s linux_entry) (write_all-append (contract_memory at payload) (contract_mailbox at) m)
        ∙ mailbox_entry at (write_all (contract_memory at payload) m),
    ap (λ s. s linux_dtb) (write_all-append (contract_memory at payload) (contract_mailbox at) m)
        ∙ mailbox_dtb at (write_all (contract_memory at payload) m) low,
  )

-- The payload and a well-formed device tree lie in memory, and the mailbox has their addresses as the
-- CPU sees them.
abbrev pub ContractReady : ℕ → List ℕ → Store → Type 0
ContractReady at payload r =
    ((k : ℕ) → k < length payload → r (at + k * 4) ≡ char_at payload k)
    × (read_tree (words_from r (at + 0x800) 64) ≡ some memory_tree)
    × (r linux_entry ≡ cpu_addr at)
    × (r linux_dtb ≡ cpu_addr (at + 0x800))

-- The words that the preparation put below the registers, and the two of the mailbox, stay.
released-ContractReady :
    (at : ℕ) (payload : List ℕ) (firmware : Firmware) (m r : Store)
    → length payload < 512
    → at + 0x1000 ≤ 0x4000_0000
    → ((a : ℕ) → Apart (linux_contract_smoke at payload firmware) a → r a ≡ prepared at payload m a)
    → ContractReady at payload r
released-ContractReady at payload firmware m r fits low same =
    let below : (a : ℕ) → a < 0x4000_0000 → r a ≡ prepared at payload m a =
      λ a lt. same a (inl (omega arith), omega arith, omega arith, tt) in
    let tree : words_from r (at + 0x800) 64 ≡ words_placed 0 64 =
      words_from-placed r (at + 0x800) 64 0 (λ k lt.
        let index : k ≡ 0 + k = omega arith in
        let place : at + 0x800 + k * 4 ≡ at + (dtb_word_offset + k) * 4 = omega arith in
        ap r place
        ∙ below (at + (dtb_word_offset + k) * 4) (omega arith)
        ∙ prepared_tree at payload fits low m k lt
        ∙ ap (λ j. tree_word device_tree j 0) index) in
    (
      λ k lt. below (at + k * 4) (omega arith) ∙ prepared_payload at payload fits low m k lt,
      ap read_tree tree ∙ read_tree-placed,
      same linux_entry (inl (omega arith), omega arith, omega arith, tt)
          ∙ (prepared_mailbox at payload fits low m).0,
      same linux_dtb (inl (omega arith), omega arith, omega arith, tt)
          ∙ (prepared_mailbox at payload fits low m).1,
    )

-- A test that hands the CPU, at its release, a memory that is ready.
abbrev pub HandsOver : {D : Type 0} → Bench D → ℕ → List ℕ → Firmware → Store → Type 0
HandsOver b at payload firmware m =
    (verified : Bool) × (r : Store) × (run_cpu_linux_contract_smoke_test b at payload firmware m
      ≡ run_started b or_read_again verified (linux_contract_smoke at payload firmware).wants
          nothing_else r)
    × (r cpu_ctrl ≡ 0)
    × ContractReady at payload r

module _ {D : Type 0} (b : Bench D) (at : ℕ) (payload : List ℕ) (firmware : Firmware)
    (m : Store) where
  hands_over :
      length payload < 512
      → at + 0x1000 ≤ 0x4000_0000
      → Releases b (linux_contract_smoke at payload firmware) m
        ⊎ Refuses b (linux_contract_smoke at payload firmware) m
      → HandsOver b at payload firmware m
        ⊎ ((run_cpu_linux_contract_smoke_test b at payload firmware m).0 ≡ false)
  unfolding run_cpu_linux_contract_smoke_test
  hands_over fits low (inl (verified, r, runs, released, same)) =
      let test : leb dtb_word_offset (length payload) ≡ false = ground arith in
      rw test (
        inl (
          verified,
          r,
          runs,
          released,
          released-ContractReady at payload firmware m r fits low same,
        ))
  hands_over fits low (inr (fails, same)) =
      let test : leb dtb_word_offset (length payload) ≡ false = ground arith in rw test (inr fails)

  -- With a firmware that keeps to instruction memory and the array below 1 GiB, the contract test fails
  -- or releases the CPU on a memory with the payload in the array, 2 KiB behind its start a well-formed
  -- device tree of one memory node with 1 GiB at 0x80000000, and in the mailbox the CPU's addresses of
  -- both.
  pub run_cpu_linux_contract_smoke_test_lem :
      at + 0x1000 ≤ 0x4000_0000
      → Confined firmware.elf
      → HandsOver b at payload firmware m
        ⊎ ((run_cpu_linux_contract_smoke_test b at payload firmware m).0 ≡ false)
  unfolding run_cpu_linux_contract_smoke_test
  run_cpu_linux_contract_smoke_test_lem low confined =
      elim (Bool-cases (leb dtb_word_offset (length payload))) [
        | inl large ↦ rw large (inr refl)
        | inr small ↦
            hands_over (ground arith) low
              (run_check-Releases b (linux_contract_smoke at payload firmware) m confined)
      ]
