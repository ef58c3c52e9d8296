-- ===== src/Bridge/Input.antt =====
-- What the user types (hw_bringup/ps_linux_boot.c, `pump_linux_console_input`): bytes of the UART go
-- to a ring of 128 bytes in the scratch memory, which Linux empties.
pub mod Word
pub mod Stored
pub mod Queue
use zynq_cpu.Base.{
  ℕ, zero, suc, ◌+◌, ◌-◌, ◌*◌, ◌^◌, Store, update, word, add32, sub32, shl32, bit_and, bit_or, ltb,
  ◌==◌, if◌then◌else◌, Option, none, some,
}
use zynq_cpu.Bridge.{in_ring_base, in_ring_head, in_ring_tail, in_ring_bytes, in_char, in_valid}

-- The UART's receiver: `XUartPs_IsReceiveData` and `XUartPs_RecvByte` in one, none where no byte
-- has come.
abbrev pub Receiver : Type 0 → Type 0
Receiver R = R → Option (ℕ × R)

-- The word at the byte's place, with the byte in it.
unfoldable pub put_in_word : ℕ → ℕ → ℕ → ℕ
put_in_word idx ch w =
    let shift = bit_and idx 3 * 8 in
    bit_or (bit_and w (word - 1 - shl32 0xff shift)) (shl32 ch shift)

-- The byte goes to the ring, and the tail moves on.
unfoldable pub queue_byte : ℕ → ℕ → Store → Store
queue_byte tail ch scratch =
    let idx = bit_and tail (in_ring_bytes - 1) in
    let addr = in_ring_base + bit_and idx 0xFFFF_FFFC in
    update in_ring_tail (add32 tail 1) (update addr (put_in_word idx ch (scratch addr)) scratch)

module _ {R : Type 0} (receive : Receiver R) where
  -- The loop on the tail that it keeps.
  unfoldable pub pump_loop : ℕ → ℕ → ℕ → Store → R → Store × R
  pump_loop zero head tail scratch r = (scratch, r)
  pump_loop (suc fuel) head tail scratch r =
      if ltb (sub32 tail head) in_ring_bytes
      then elim (receive r) [
        | none ↦ (scratch, r)
        | some (ch, r') ↦ pump_loop fuel head (add32 tail 1) (queue_byte tail ch scratch) r'
      ]
      else (scratch, r)

  -- The cell for one byte, for a reader that does not use the ring.
  unfoldable pub pump_char : Store → R → Store × R
  pump_char scratch r =
      if scratch in_valid == 0
      then elim (receive r) [
        | none ↦ (scratch, r)
        | some (ch, r') ↦ (update in_valid 1 (update in_char ch scratch), r')
      ]
      else (scratch, r)

  -- The loop gets as many rounds as the ring has bytes.
  unfoldable pub pump_linux_console_input : Store → R → Store × R
  pump_linux_console_input scratch r =
      let (scratch', r') = pump_loop 128 (scratch in_ring_head) (scratch in_ring_tail) scratch r in
      pump_char scratch' r'
