-- ===== src/Bridge/Tests.antt =====
-- The theorems of the Linux console at concrete inputs, and runs of its code.
use zynq_cpu.Base.{
  ℕ, ◌+◌, ◌-◌, ◌%◌, ◌≤◌, ◌<◌, ◌≡◌, refl, ◌↔◌, Store, word, u8, sub32, ◌==◌, if◌then◌else◌, true,
  false, List, [], ◌∷◌, ◌++◌, length, Option, none, some, arith,
}
use Prim.Native.Nat.{min}
use zynq_cpu.Console.Writer.{char_at}
use zynq_cpu.Bridge.{ring_head, ring_total, ring_bytes, in_ring_tail}
use zynq_cpu.Bridge.Markers.{idle_marker, match_step}
use zynq_cpu.Bridge.Markers.Found.{matched, Ends, match_step_lem, markers-StartsOnce}
use zynq_cpu.Bridge.Mirror.{Mirror}
use zynq_cpu.Bridge.Mirror.Loop.{Mirrored, print_linux_console_mirror}
use zynq_cpu.Bridge.Mirror.Bytes.{bytes_from}
use zynq_cpu.Bridge.Mirror.Shown.{uart_text, hdmi_text, Shown}
use zynq_cpu.Bridge.Mirror.Drain.{shown, consume_all, ready, print_linux_console_mirror_lem}
use zynq_cpu.Bridge.Input.{pump_loop}
use zynq_cpu.Bridge.Input.Queue.{incoming, pump_loop_lem}
use zynq_cpu.Bridge.Input.Stored.{contents}

-- A text that is the idle marker.
match_step_lem_example :
    ((match_step idle_marker
        (matched idle_marker (char_at idle_marker) 15)
        (char_at idle_marker 15)).1
      ≡ true)
    ↔ Ends idle_marker (char_at idle_marker) 16 (length idle_marker)
match_step_lem_example =
    match_step_lem idle_marker markers-StartsOnce.0 (omega arith) (char_at idle_marker) 15

-- The outputs as two lists, the UART's first, each with the last byte first.
abbrev Outputs : Type 0
Outputs = List ℕ × List ℕ

abbrev to_uart : ℕ → Outputs → Outputs
to_uart ch out = (ch ∷ out.0, out.1)

abbrev to_hdmi : ℕ → Outputs → Outputs
to_hdmi ch out = (out.0, ch ∷ out.1)

abbrev on_uart : Outputs → List ℕ
on_uart out = out.0

abbrev on_hdmi : Outputs → List ℕ
on_hdmi out = out.1

abbrev quiet : Mirror
quiet = record {
  idle_match = 0;
  welcome_match = 0;
  login_match = 0;
  diag_match = 0;
  at_line_start = true;
  diag_scan = true;
  colored_line = false;
  hdmi_colored_line = false;
  loglevel_match = 0;
}

-- Linux has printed three bytes.
abbrev printed : Mirrored Outputs
printed = record {
  mirror = quiet;
  last_total = 0;
  started = false;
  scratch = λ a. if a == ring_total then 3 else 0x00636261;
  sink = ([], []);
  events = 0;
}

print_linux_console_mirror_lem_example :
    let n = min (sub32 (printed.scratch ring_total) printed.last_total) ring_bytes in
    let bytes = bytes_from printed.scratch n (sub32 (printed.scratch ring_total) n) in
    let start = ready to_hdmi to_uart printed in
    let r = print_linux_console_mirror to_hdmi to_uart printed in
    (r.last_total ≡ printed.scratch ring_total)
    × (r.scratch ring_head ≡ printed.scratch ring_total)
    × (shown to_hdmi to_uart r ≡ consume_all to_hdmi to_uart bytes (shown to_hdmi to_uart start))
    × Shown uart_text bytes (on_uart start.sink) (on_uart r.sink)
    × Shown hdmi_text bytes (on_hdmi start.sink) (on_hdmi r.sink)
print_linux_console_mirror_lem_example =
    print_linux_console_mirror_lem to_hdmi to_uart on_uart on_hdmi printed
      (record { takes = λ c s. refl; leaves = λ c s. refl })
      (record { takes = λ c s. refl; leaves = λ c s. refl }) (omega arith) (omega arith)
      (omega arith)

-- Of the word of the ring, the lowest byte is the first.
bytes_from-printed : bytes_from printed.scratch 3 0 ≡ 97 ∷ 98 ∷ 99 ∷ []
bytes_from-printed = refl

-- A receiver with the bytes that are still to come.
abbrev receive : List ℕ → Option (ℕ × List ℕ)
receive [] = none
receive (x ∷ xs) = some (u8 x, xs)

receive_bytes : (r r' : List ℕ) (ch : ℕ) → receive r ≡ some (ch, r') → ch < 256
receive_bytes [] r' ch e = ground (arith, e)
receive_bytes (x ∷ xs) r' ch e = ground (arith, e)

-- An empty queue.
abbrev emptied : Store
emptied a = 0

pump_loop_lem_example :
    (contents
        (pump_loop receive 128 0 (emptied in_ring_tail) emptied (104 ∷ 105 ∷ [])).0
        0
        (0 + length (incoming receive (128 - 0) (104 ∷ 105 ∷ [])).0)
      ≡ contents emptied 0 0 ++ (incoming receive (128 - 0) (104 ∷ 105 ∷ [])).0)
    × (0 + length (incoming receive (128 - 0) (104 ∷ 105 ∷ [])).0 ≤ 128)
    × ((pump_loop receive 128 0 (emptied in_ring_tail) emptied (104 ∷ 105 ∷ [])).0 in_ring_tail
        ≡ (0 + (0 + length (incoming receive (128 - 0) (104 ∷ 105 ∷ [])).0)) % word)
    × ((pump_loop receive 128 0 (emptied in_ring_tail) emptied (104 ∷ 105 ∷ [])).1
        ≡ (incoming receive (128 - 0) (104 ∷ 105 ∷ [])).1)
pump_loop_lem_example =
    pump_loop_lem receive receive_bytes 0 0 emptied (104 ∷ 105 ∷ []) (omega arith) (omega arith)
      (λ a. omega arith) (omega arith)
