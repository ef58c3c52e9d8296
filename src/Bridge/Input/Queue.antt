-- ===== src/Bridge/Input/Queue.antt =====
-- The input ring (hw_bringup/ps_linux_boot.c, `pump_linux_console_input`) as a queue.
use zynq_cpu.Base.{
  ℕ, zero, suc, ◌+◌, ◌-◌, ◌%◌, ◌≤◌, ◌<◌, ◌≡◌, refl, ap, sym, ◌∙◌, Store, word, add32, sub32, ltb,
  true, false, arith, Option, none, some, List, [], ◌∷◌, ◌++◌, length,
}
use zynq_cpu.Bridge.{in_ring_tail, in_ring_bytes}
use mathlib.Core.List.{append-nil, append_assoc}
use zynq_cpu.Bridge.Input.{Receiver, queue_byte, pump_loop}
use zynq_cpu.Bridge.Input.Stored.{
  contents, IsMemory, queue_byte-IsMemory, queue_byte-tail, queue_byte-contents,
}

module _ {R : Type 0} (receive : Receiver R) where
  -- The bytes that come, up to `room` of them, and the receiver after them.
  unfoldable pub incoming : ℕ → R → List ℕ × R
  incoming zero r = ([], r)
  incoming (suc room) r = elim (receive r) [
    | none ↦ ([], r)
    | some (ch, r') ↦ (ch ∷ (incoming room r').0, (incoming room r').1)
  ]

module _ {R : Type 0} (receive : Receiver R)
    (bytes : (r r' : R) (ch : ℕ) → receive r ≡ some (ch, r') → ch < 256) where
  -- What the loop leaves, by the bytes that it got and the receiver that is left.
  record Pumped (head q room : ℕ) (scratch : Store) (got : List ℕ × R) (after : Store × R)
      : Type 0 where
    rest : after.1 ≡ got.1
    holds : contents after.0 head (q + length got.0) ≡ contents scratch head q ++ got.0
    fits : length got.0 ≤ room
    tail : after.0 in_ring_tail ≡ (head + (q + length got.0)) % word

  -- A loop that stops at once.
  Pumped-none :
      (head q room : ℕ) (scratch : Store) (r : R)
      → scratch in_ring_tail ≡ (head + q) % word
      → Pumped head q room scratch ([], r) (scratch, r)
  Pumped-none head q room scratch r t =
      let nothing : q + 0 ≡ q = omega arith in
      record {
        rest = refl;
        holds = rw nothing (sym (append-nil (contents scratch head q)));
        fits = omega arith;
        tail = rw nothing t;
      }

  -- A byte before what the rest of the loop takes.
  Pumped-some :
      (head q room ch : ℕ) (scratch : Store) (got : List ℕ × R) (after : Store × R)
      → ch < 256
      → q < 128
      → IsMemory scratch
      → Pumped head (q + 1) room (queue_byte ((head + q) % word) ch scratch) got after
      → Pumped head q (suc room) scratch (ch ∷ got.0, got.1) after
  Pumped-some head q room ch scratch got after byte lt m p =
      let s' = queue_byte ((head + q) % word) ch scratch in
      let count : q + (length got.0 + 1) ≡ q + 1 + length got.0 = omega arith in
      let next : q + 1 ≡ suc q = omega arith in
      let grown : contents s' head (q + 1) ≡ contents scratch head q ++ (ch ∷ []) =
        rw next
          (queue_byte-contents ((head + q) % word) ch scratch byte m q head lt (omega arith)) in
      record {
        rest = p.rest;
        holds = rw count (
            p.holds
            ∙ ap (λ c. c ++ got.0) grown
            ∙ append_assoc (contents scratch head q) (ch ∷ []) got.0);
        fits = omega (arith, p.fits);
        tail = rw count p.tail;
      }

  pump_loop-Pumped :
      (fuel head q room : ℕ) (scratch : Store) (r : R)
      → room ≤ fuel
      → q + room ≡ 128
      → head < word
      → IsMemory scratch
      → scratch in_ring_tail ≡ (head + q) % word
      → Pumped head q room scratch
          (incoming receive room r)
          (pump_loop receive fuel head ((head + q) % word) scratch r)
  unfolding pump_loop incoming
  pump_loop-Pumped zero head q zero scratch r h e l m t = Pumped-none head q zero scratch r t
  pump_loop-Pumped zero head q (suc room) scratch r h e l m t = absurd (omega arith)
  pump_loop-Pumped (suc fuel) head q zero scratch r h e l m t =
      let full : ltb (sub32 ((head + q) % word) head) in_ring_bytes ≡ false = ground arith in
      rw full (Pumped-none head q zero scratch r t)
  pump_loop-Pumped (suc fuel) head q (suc room) scratch r h e l m t =
      let free : ltb (sub32 ((head + q) % word) head) in_ring_bytes ≡ true = ground arith in
      let tail = (head + q) % word in
      let on : add32 tail 1 ≡ (head + (q + 1)) % word = omega arith in
      rw free (
        next (receive r) refl λ ch r' byte. rw on (
          pump_loop-Pumped fuel head (q + 1) room (queue_byte tail ch scratch) r' (omega arith)
            (omega arith) l (queue_byte-IsMemory tail ch scratch byte m)
            (queue_byte-tail tail ch scratch byte m ∙ on)))
    where
      next :
          (o : Option (ℕ × R))
          → receive r ≡ o
          → ((ch : ℕ) (r' : R)
              → ch < 256
              → Pumped head
                  (q + 1)
                  room
                  (queue_byte ((head + q) % word) ch scratch)
                  (incoming receive room r')
                  (pump_loop receive fuel head
                    (add32 ((head + q) % word) 1)
                    (queue_byte ((head + q) % word) ch scratch)
                    r'))
          → Pumped head q
              (suc room)
              scratch
              (elim o [
                | none ↦ ([], r)
                | some (ch, r') ↦ (ch ∷ (incoming receive room r').0, (incoming receive room r').1)
              ])
              (elim o [
                | none ↦ (scratch, r)
                | some (ch, r') ↦
                    pump_loop receive fuel head
                      (add32 ((head + q) % word) 1)
                      (queue_byte ((head + q) % word) ch scratch)
                      r'
              ])
      next none o ih = Pumped-none head q (suc room) scratch r t
      next (some (ch, r')) o ih =
          let byte = bytes r r' ch o in
          Pumped-some head q room ch scratch (incoming receive room r') _ byte (omega arith) m
            (ih ch r' byte)

-- A call moves the bytes that have come, as far as the ring has room for them, behind what the
-- queue holds, in the order in which they came; it then holds 128 bytes at most, its tail says how
-- many, and no byte is lost: the receiver is left with the rest. The head does not move. (A byte may
-- go to the single cell afterwards, which is no part of the queue.)
pub pump_loop_lem :
    {R : Type 0} (receive : Receiver R)
    → ((r r' : R) (ch : ℕ) → receive r ≡ some (ch, r') → ch < 256)
    → (head q : ℕ) (scratch : Store) (r : R) → q ≤ 128
    → head < word
    → IsMemory scratch
    → scratch in_ring_tail ≡ (head + q) % word
    → (contents
          (pump_loop receive 128 head (scratch in_ring_tail) scratch r).0
          head
          (q + length (incoming receive (128 - q) r).0)
        ≡ contents scratch head q ++ (incoming receive (128 - q) r).0)
      × (q + length (incoming receive (128 - q) r).0 ≤ 128)
      × ((pump_loop receive 128 head (scratch in_ring_tail) scratch r).0 in_ring_tail
          ≡ (head + (q + length (incoming receive (128 - q) r).0)) % word)
      × ((pump_loop receive 128 head (scratch in_ring_tail) scratch r).1
          ≡ (incoming receive (128 - q) r).1)
pump_loop_lem receive bytes head q scratch r h l m t =
    let p =
      pump_loop-Pumped receive bytes 128 head q (128 - q) scratch r (omega arith) (omega arith) l m
        t in
    rw t (p.holds, omega (arith, p.fits), p.tail, p.rest)
