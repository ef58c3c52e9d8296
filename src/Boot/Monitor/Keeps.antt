-- ===== src/Boot/Monitor/Keeps.antt =====
-- What a round of the monitor leaves as it is (hw_bringup/ps_linux_boot.c).
use zynq_cpu.Base.{
  ℕ, zero, suc, ◌<◌, ◌≡◌, ◌≢◌, ◌⊎◌, inl, inr, refl, ◌∙◌, Store, update, update_ne, add32, sub32,
  for_range_inv, bit_and, ltb, ◌==◌, if◌then◌else◌, Bool-cases, if_both, Option, none, some, arith,
}
use zynq_cpu.Bridge.{
  ring_total, ring_head, ring_bytes, in_ring_tail, in_ring_bytes, in_char, in_valid,
}
use zynq_cpu.Bridge.Input.{Receiver, queue_byte, pump_loop, pump_char, pump_linux_console_input}
use zynq_cpu.Bridge.Input.Stored.{word_of}
use zynq_cpu.Bridge.Mirror.Loop.{
  Mirrored, mirror_next, mirror_loop, mirror_start, mirror_skip, print_linux_console_mirror,
}
use zynq_cpu.Boot.Launch.{Board}
use zynq_cpu.Boot.Monitor.{Monitor, pump, show_output, active_delay}

-- The input pump writes only the cell for one byte and the input ring with its counters.
module _ {X : Type 0} (receive : Receiver X) (a : ℕ)
    (outside : (a < in_char) ⊎ (in_ring_tail < a)) where
  queue_byte-keeps : (tail ch : ℕ) (m : Store) → queue_byte tail ch m a ≡ m a
  unfolding queue_byte
  queue_byte-keeps tail ch m =
      update_ne _ _ a _ (ground (arith, outside))
      ∙ update_ne _ _ a m (ground (arith, outside, word_of tail))

  received-keeps :
      (r : Option (ℕ × X)) (m : Store) (x : X) (take : ℕ → X → Store × X)
      → ((ch : ℕ) (x' : X) → (take ch x').0 a ≡ m a)
      → (let after : Store × X = elim r [ none ↦ (m, x) | some (ch, x') ↦ take ch x' ] in
          after.0 a ≡ m a)
  received-keeps none m x take h = refl
  received-keeps (some (ch, x')) m x take h = h ch x'

  pump_loop-keeps :
      (fuel head tail : ℕ) (m : Store) (x : X) → (pump_loop receive fuel head tail m x).0 a ≡ m a
  unfolding pump_loop
  pump_loop-keeps zero head tail m x = refl
  pump_loop-keeps (suc fuel) head tail m x =
      elim (Bool-cases (ltb (sub32 tail head) in_ring_bytes)) [
        | inl room ↦ rw room (
            received-keeps (receive x) m x
              (λ ch x'. pump_loop receive fuel head (add32 tail 1) (queue_byte tail ch m) x')
              (λ ch x'.
                pump_loop-keeps fuel head (add32 tail 1) (queue_byte tail ch m) x'
                ∙ queue_byte-keeps tail ch m))
        | inr full ↦ rw full refl
      ]

  pump_char-keeps : (m : Store) (x : X) → (pump_char receive m x).0 a ≡ m a
  unfolding pump_char
  pump_char-keeps m x = elim (Bool-cases (m in_valid == 0)) [
    | inl free ↦ rw free (
        received-keeps (receive x) m x (λ ch x'. (update in_valid 1 (update in_char ch m), x'))
          (λ ch x'.
            update_ne _ _ a _ (ground (arith, outside))
            ∙ update_ne _ _ a m (ground (arith, outside))))
    | inr taken ↦ rw taken refl
  ]

  pub pump-keeps : {S : Type 0} (b : Board X S) → (pump receive b).mem a ≡ b.mem a
  unfolding pump pump_linux_console_input
  pump-keeps b = pump_char-keeps _ _ ∙ pump_loop-keeps 128 _ _ b.mem b.hardware

  pub active_delay-keeps : {S : Type 0} (b : Board X S) → (active_delay receive b).mem a ≡ b.mem a
  unfolding active_delay
  active_delay-keeps b =
      for_range_inv (λ k s. s.mem a ≡ b.mem a)
        (λ delay c. if bit_and delay 0x3ff == 0 then pump receive c else c) 0 200000
        (λ k s lo hi e.
          if_both (λ c. c.mem a ≡ b.mem a) (bit_and k 0x3ff == 0) {x = pump receive s} {y = s}
            (pump-keeps s ∙ e) e)
        200000 0 b (omega arith) (omega arith) refl

-- The mirror writes only the head of its ring.
module _ {S : Type 0} (hdmi_putc uart_putc : ℕ → S → S) (a : ℕ) (other : a ≢ ring_head) where
  mirror_loop-keeps :
      (fuel total : ℕ) (b : Mirrored S)
      → (mirror_loop hdmi_putc uart_putc fuel total b).scratch a ≡ b.scratch a
  unfolding mirror_loop mirror_next
  mirror_loop-keeps zero total b = refl
  mirror_loop-keeps (suc fuel) total b =
      let rest = mirror_loop-keeps fuel total (mirror_next hdmi_putc uart_putc b) in
      elim (Bool-cases (b.last_total == total)) [
        | inl done ↦ simp done refl
        | inr more ↦ simp more (rest ∙ update_ne ring_head _ a b.scratch other)
      ]

  mirror_start-keeps :
      (b : Mirrored S) → (mirror_start hdmi_putc uart_putc b).scratch a ≡ b.scratch a
  unfolding mirror_start
  mirror_start-keeps b = elim (Bool-cases b.started) [
    | inl before ↦ simp before refl
    | inr first ↦ simp first refl
  ]

  mirror_skip-keeps :
      (total : ℕ) (b : Mirrored S)
      → (mirror_skip hdmi_putc uart_putc total b).scratch a ≡ b.scratch a
  unfolding mirror_skip
  mirror_skip-keeps total b = elim (Bool-cases (ltb ring_bytes (sub32 total b.last_total))) [
    | inl lost ↦ simp lost refl
    | inr kept ↦ simp kept refl
  ]

  mirror-keeps :
      (b : Mirrored S) → (print_linux_console_mirror hdmi_putc uart_putc b).scratch a ≡ b.scratch a
  unfolding print_linux_console_mirror
  mirror-keeps b =
      let total = b.scratch ring_total in
      let b1 = mirror_start hdmi_putc uart_putc (record b { events = 0 }) in
      elim (Bool-cases (total == b.last_total)) [
        | inl same ↦ simp same refl
        | inr more ↦ simp more (
            mirror_loop-keeps 256 total (mirror_skip hdmi_putc uart_putc total b1)
            ∙ mirror_skip-keeps total b1
            ∙ mirror_start-keeps (record b { events = 0 }))
      ]

  pub show_output-keeps :
      {X : Type 0} (m : Monitor X S)
      → (show_output hdmi_putc uart_putc m).0.board.mem a ≡ m.board.mem a
  unfolding show_output
  show_output-keeps m = mirror-keeps _
