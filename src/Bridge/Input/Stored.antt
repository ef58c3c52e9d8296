-- ===== src/Bridge/Input/Stored.antt =====
-- The bytes that the input ring holds, and one more (hw_bringup/ps_linux_boot.c,
-- `pump_linux_console_input`).
use zynq_cpu.Base.{
  ℕ, zero, suc, ◌+◌, ◌*◌, ◌/◌, ◌%◌, ◌^◌, ◌<◌, ◌≡◌, refl, ap, Store, update, word, add32, bit_and,
  ◌==◌, ==_iff, if◌then◌else◌, true, arith, List, [], ◌∷◌, ◌++◌,
}
use zynq_cpu.Base.Bits.{all_below, all_below_sound, bit_and_127}
use zynq_cpu.Bridge.{in_ring_base, in_ring_tail}
use native.Mathlib.Decide.{ℕ_discrete}
use zynq_cpu.Bridge.Input.Word.{put_in_word_lem}
use zynq_cpu.Bridge.Input.{put_in_word, queue_byte}

-- Byte number `i` of the queue, as Linux reads it.
abbrev pub queued : Store → ℕ → ℕ
queued scratch i = scratch (in_ring_base + i % 128 / 4 * 4) / 2 ^ (i % 4 * 8) % 256

word_table : all_below 128 (λ i. bit_and i 0xFFFF_FFFC == i / 4 * 4) ≡ true
unfolding all_below
word_table = refl

pub word_of : (i : ℕ) → bit_and (bit_and i 127) 0xFFFF_FFFC ≡ i % 128 / 4 * 4
word_of i = rw (bit_and_127 i) (
    (==_iff _ (i % 128 / 4 * 4)).0 (
      all_below_sound 128 (λ i. bit_and i 0xFFFF_FFFC == i / 4 * 4) (i % 128) word_table
        (omega arith)))

-- What the queue holds: the bytes number `i`, …, `i + n - 1`.
abbrev pub contents : Store → ℕ → ℕ → List ℕ
contents scratch i zero = []
contents scratch i (suc n) = queued scratch i ∷ contents scratch (i + 1) n

-- The scratch memory holds 32-bit words.
abbrev pub IsMemory : Store → Type 0
IsMemory scratch = (a : ℕ) → scratch a < word

same_word : (i j : ℕ) → i % 128 / 4 ≡ j % 128 / 4 → i % 4 ≡ j % 4 → i % 128 ≡ j % 128
same_word i j e f = omega arith

module _ (tail ch : ℕ) (scratch : Store) (byte : ch < 256) (memory : IsMemory scratch) where
  abbrev place : ℕ
  place = in_ring_base + tail % 128 / 4 * 4

  abbrev stored : ℕ
  stored = put_in_word (tail % 128) ch (scratch place)

  queue_byte-at :
      (a : ℕ)
      → queue_byte tail ch scratch a
        ≡ (if a == in_ring_tail then add32 tail 1 else if a == place then stored else scratch a)
  unfolding queue_byte update
  queue_byte-at a = rw (word_of tail, bit_and_127 tail) refl

  pub queue_byte-IsMemory : IsMemory (queue_byte tail ch scratch)
  queue_byte-IsMemory a =
      let (f, small) =
        put_in_word_lem (tail % 128) ch (scratch place) byte (memory place) 0 (omega arith) in
      ground (arith, queue_byte-at a, small, memory a)

  pub queue_byte-tail : queue_byte tail ch scratch in_ring_tail ≡ add32 tail 1
  queue_byte-tail = ground (arith, queue_byte-at in_ring_tail)

  queue_byte-queued :
      (i : ℕ)
      → queued (queue_byte tail ch scratch) i
        ≡ (if i % 128 == tail % 128 then ch else queued scratch i)
  queue_byte-queued i =
      let a = in_ring_base + i % 128 / 4 * 4 in
      let (f, small) =
        put_in_word_lem (tail % 128) ch (scratch place) byte (memory place) (i % 4) (omega arith) in
      elim (ℕ_discrete (i % 128 / 4) (tail % 128 / 4)) [
        | yes e ↦
            let at : queue_byte tail ch scratch a ≡ stored = ground (arith, queue_byte-at a) in
            let here : a ≡ place = omega arith in
            rw at (ground (arith, f, ap scratch here, same_word i tail e))
        | no ne ↦
            let at : queue_byte tail ch scratch a ≡ scratch a = ground (arith, queue_byte-at a) in
            rw at (ground arith)
      ]

  -- A byte that is queued stands behind what the queue holds.
  pub queue_byte-contents :
      (q i : ℕ)
      → q < 128
      → tail % 128 ≡ (i + q) % 128
      → contents (queue_byte tail ch scratch) i (suc q) ≡ contents scratch i q ++ (ch ∷ [])
  queue_byte-contents zero i h e =
      let at : queued (queue_byte tail ch scratch) i ≡ ch = ground (arith, queue_byte-queued i) in
      ap (λ c. c ∷ []) at
  queue_byte-contents (suc q) i h e =
      let at : queued (queue_byte tail ch scratch) i ≡ queued scratch i =
        ground (arith, queue_byte-queued i) in
      rw (at, queue_byte-contents q (i + 1) (omega arith) (omega arith)) refl
