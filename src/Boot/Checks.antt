-- ===== src/Boot/Checks.antt =====
-- The scratch memory after it is cleared for a boot (hw_bringup/ps_linux_boot.c,
-- `clear_linux_sbi_counters`).
use zynq_cpu.Base.{
  ℕ, zero, suc, ◌+◌, ◌-◌, ◌*◌, ◌%◌, ◌≡◌, ◌∙◌, Store, update, update_lem, for_range, leb, ltb, ◌==◌,
  ◌&&◌, ◌||◌, if◌then◌else◌, arith,
}
use native.Mathlib.Decide.{ℕ_discrete}
use zynq_cpu.Bridge.{tx_scratch, ring_base, ring_head, ring_total, in_char, in_valid, in_ring_base}
use zynq_cpu.Boot.{clear_words, clear_linux_console_mirror, clear_linux_sbi_counters}

clears_lem :
    (base a n i : ℕ) (m : Store)
    → for_range n i (λ k. update (base + k * 4) 0) m a ≡ (
        if (leb (base + i * 4) a && ltb a (base + (i + n) * 4)) && ((a - base) % 4 == 0)
        then 0
        else m a)
unfolding for_range
clears_lem base a zero i m = ground arith
clears_lem base a (suc n) i m =
    clears_lem base a n (i + 1) (update (base + i * 4) 0 m) ∙ elim (ℕ_discrete a (base + i * 4)) [
      | yes e ↦ ground (arith, update_lem (base + i * 4) 0 a m)
      | no ne ↦ ground (arith, update_lem (base + i * 4) 0 a m)
    ]

clear_words_lem :
    (base a n : ℕ) (m : Store)
    → clear_words base n m a
      ≡ (if (leb base a && ltb a (base + n * 4)) && ((a - base) % 4 == 0) then 0 else m a)
unfolding clear_words
clear_words_lem base a n m = ground (arith, clears_lem base a n 0 m)

clear_linux_console_mirror_lem :
    (m : Store) (a : ℕ)
    → clear_linux_console_mirror m a ≡ (
        if (leb tx_scratch a && ltb a (tx_scratch + 0x198)) && ((a - tx_scratch) % 4 == 0)
        then 0
        else m a)
unfolding clear_linux_console_mirror update
clear_linux_console_mirror_lem m a = ground (
  arith,
  clear_words_lem in_ring_base a 32 (
      update in_valid 0
        (update in_char 0 (update ring_total 0 (update ring_head 0 (clear_words ring_base 64 m))))),
  clear_words_lem ring_base a 64 m,
)

-- Clearing sets to zero exactly the words of both rings with their counters, and those of the SBI
-- counters but the last character, which becomes all ones.
pub clear_linux_sbi_counters_lem :
    (m : Store) (a : ℕ)
    → clear_linux_sbi_counters m a ≡ (
        if a == tx_scratch + 0x220
        then 0xFFFF_FFFF
        else if (leb tx_scratch a && ((a - tx_scratch) % 4 == 0))
            && (ltb (a - tx_scratch) 0x198
                || (leb 0x200 (a - tx_scratch) && ltb (a - tx_scratch) 0x240))
        then 0
        else m a)
unfolding clear_linux_sbi_counters
clear_linux_sbi_counters_lem m a =
    let m1 = clear_words (tx_scratch + 0x200) 8 m in
    let m2 = update (tx_scratch + 0x220) 0xFFFF_FFFF m1 in
    ground (
      arith,
      clear_linux_console_mirror_lem (clear_words (tx_scratch + 0x224) 7 m2) a,
      clear_words_lem (tx_scratch + 0x224) a 7 m2,
      update_lem (tx_scratch + 0x220) 0xFFFF_FFFF a m1,
      clear_words_lem (tx_scratch + 0x200) a 8 m,
    )
