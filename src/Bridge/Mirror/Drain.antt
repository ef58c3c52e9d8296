-- ===== src/Bridge/Mirror/Drain.antt =====
-- The loop of `print_linux_console_mirror` (hw_bringup/ps_linux_boot.c) against the bytes that the
-- ring holds.
use zynq_cpu.Base.{
  ℕ, zero, suc, ◌≤◌, ◌<◌, ◌≡◌, ◌≢◌, refl, sym, Bool, not, List, [], ◌∷◌, ap, ◌∙◌, update,
  update_self, word, add32, sub32, ltb, ◌==◌, if◌then◌else◌, true, false, arith, Bool-cases, inl,
  inr,
}
use Prim.Native.Nat.{min}
use zynq_cpu.Bridge.{ring_head, ring_total, ring_bytes}
use zynq_cpu.Bridge.Mirror.{Mirror, match_events, mirror_byte}
use zynq_cpu.Bridge.Mirror.Bytes.{byte_of, bytes_from, ring_byte_lem, bytes_from-head}
use zynq_cpu.Bridge.Mirror.Shown.{uart_text, hdmi_text, Shown, Logs, on, mirror_byte-Byte}
use zynq_cpu.Bridge.Mirror.Loop.{
  Mirrored, mirror_next, mirror_loop, mirror_start, mirror_skip, print_linux_console_mirror,
}

module _ {S : Type 0} (hdmi_putc uart_putc : ℕ → S → S) where
  -- What one byte does to the static variables, the output and the events.
  abbrev pub consume : ℕ → Mirror × S × ℕ → Mirror × S × ℕ
  consume ch (m, s, e) =
      let r = mirror_byte hdmi_putc uart_putc ch m s in
      let q = match_events ch r.0 e in (q.0, r.1, q.1)

  -- The same for a list of bytes, in order.
  abbrev pub consume_all : List ℕ → Mirror × S × ℕ → Mirror × S × ℕ
  consume_all [] t = t
  consume_all (ch ∷ chs) t = consume_all chs (consume ch t)

  -- On either output.
  module _ (log : S → List ℕ) (u : Bool)
      (uart_law : (c : ℕ) (s : S) → log (uart_putc c s) ≡ on u c (log s))
      (hdmi_law : (c : ℕ) (s : S) → log (hdmi_putc c s) ≡ on (not u) c (log s)) where
    consume_all-Shown :
        (chs : List ℕ) (t : Mirror × S × ℕ)
        → Shown
            (λ ch. if u then uart_text ch else hdmi_text ch)
            chs
            (log t.1)
            (log (consume_all chs t).1)
    consume_all-Shown [] t = refl
    consume_all-Shown (ch ∷ chs) t =
        let (mid, before, after) =
          mirror_byte-Byte hdmi_putc uart_putc log u uart_law hdmi_law ch t.0 t.1 in
        (mid, log (consume ch t).1, before, after, consume_all-Shown chs (consume ch t))

  abbrev pub shown : Mirrored S → Mirror × S × ℕ
  shown b = (b.mirror, b.sink, b.events)

  mirror_next-shown :
      (b : Mirrored S)
      → shown (mirror_next hdmi_putc uart_putc b)
        ≡ consume (byte_of b.scratch b.last_total) (shown b)
  unfolding mirror_next
  mirror_next-shown b = rw (sym (ring_byte_lem b.scratch b.last_total)) refl

  record Drained (total n : ℕ) (b r : Mirrored S) : Type 0 where
    all : r.last_total ≡ total
    shows : shown r ≡ consume_all (bytes_from b.scratch n b.last_total) (shown b)
    back : r.scratch ring_head ≡ (if n == 0 then b.scratch ring_head else total)

  mirror_loop-Drained :
      (fuel n total : ℕ) (b : Mirrored S)
      → n ≤ fuel
      → n < word
      → b.last_total < word
      → total ≡ add32 b.last_total n
      → Drained total n b (mirror_loop hdmi_putc uart_putc fuel total b)
  unfolding mirror_loop
  mirror_loop-Drained zero n total b h k l e =
      let z : n ≡ 0 = omega arith in
      record { all = omega arith; shows = rw z refl; back = rw z refl }
  mirror_loop-Drained (suc fuel) zero total b h k l e =
      let stop : (b.last_total == total) ≡ true = ground arith in
      rw stop (record { all = omega arith; shows = refl; back = refl })
  mirror_loop-Drained (suc fuel) (suc n) total b h k l e =
      let more : (b.last_total == total) ≡ false = ground arith in
      let b' = mirror_next hdmi_putc uart_putc b in
      let at : b'.last_total ≡ add32 b.last_total 1 = unfold mirror_next in refl in
      let memory : b'.scratch ≡ update ring_head (add32 b.last_total 1) b.scratch =
        unfold mirror_next in refl in
      let d =
        mirror_loop-Drained fuel n total b' (omega arith) (omega arith) (omega arith)
          (omega arith) in
      let head : b'.scratch ring_head ≡ add32 b.last_total 1 =
        unfold mirror_next in update_self ring_head (add32 b.last_total 1) b.scratch in
      rw more (record {
        all = d.all;
        shows =
            d.shows
            ∙ rw (memory, at, mirror_next-shown b)
                (ap (λ chs. consume_all chs (consume (byte_of b.scratch b.last_total) (shown b)))
                  (bytes_from-head b.scratch (add32 b.last_total 1) n (add32 b.last_total 1)));
        back = ground (arith, d.back, head);
      })

  -- The state when the loop begins.
  abbrev pub ready : Mirrored S → Mirrored S
  ready b =
      mirror_skip hdmi_putc uart_putc (b.scratch ring_total)
        (mirror_start hdmi_putc uart_putc (record b { events = 0 }))

  mirror_start-memory :
      (b : Mirrored S)
      → ((mirror_start hdmi_putc uart_putc b).scratch ≡ b.scratch)
        × ((mirror_start hdmi_putc uart_putc b).last_total ≡ b.last_total)
  unfolding mirror_start
  mirror_start-memory b = elim (Bool-cases b.started) [
    | inl e ↦ rw e (refl, refl)
    | inr e ↦ rw e (refl, refl)
  ]

  mirror_skip-memory :
      (total : ℕ) (b : Mirrored S)
      → total < word
      → b.last_total < word
      → ((mirror_skip hdmi_putc uart_putc total b).scratch ≡ b.scratch)
        × ((mirror_skip hdmi_putc uart_putc total b).last_total
            ≡ sub32 total (min (sub32 total b.last_total) ring_bytes))
  unfolding mirror_skip
  mirror_skip-memory total b h k = elim (Bool-cases (ltb ring_bytes (sub32 total b.last_total))) [
    | inl e ↦ rw e (refl, ground arith)
    | inr e ↦ rw e (refl, ground arith)
  ]

  ready-memory :
      (b : Mirrored S)
      → b.scratch ring_total < word
      → b.last_total < word
      → ((ready b).scratch ≡ b.scratch)
        × ((ready b).last_total
            ≡ sub32
                (b.scratch ring_total)
                (min (sub32 (b.scratch ring_total) b.last_total) ring_bytes))
  unfolding mirror_start
  ready-memory b h k =
      let s = mirror_start hdmi_putc uart_putc (record b { events = 0 }) in
      let (memory, last) = mirror_start-memory (record b { events = 0 }) in
      let (memory', last') = mirror_skip-memory (b.scratch ring_total) s h (omega (arith, last)) in
      (memory' ∙ memory, rw last at last')

  -- A call with new bytes in the ring, whose outputs keep logs, takes the last 256 of them, or all where
  -- there are fewer, each once and in order, as the words of the ring held them at the call; it counts up
  -- to the total that Linux wrote, and gives that count back as the head. Each of these bytes is shown on
  -- the UART and on the HDMI console, in order and with nothing but colour sequences in between, except
  -- that carriage returns are left out and the UART gets one before each line feed.
  pub print_linux_console_mirror_lem :
      (uart_log hdmi_log : S → List ℕ) (b : Mirrored S)
      → Logs uart_putc hdmi_putc uart_log
      → Logs hdmi_putc uart_putc hdmi_log
      → b.scratch ring_total < word
      → b.last_total < word
      → b.scratch ring_total ≢ b.last_total
      → let n = min (sub32 (b.scratch ring_total) b.last_total) ring_bytes in
        let bytes = bytes_from b.scratch n (sub32 (b.scratch ring_total) n) in
        let r = print_linux_console_mirror hdmi_putc uart_putc b in
        (r.last_total ≡ b.scratch ring_total)
        × (r.scratch ring_head ≡ b.scratch ring_total)
        × (shown r ≡ consume_all bytes (shown (ready b)))
        × Shown uart_text bytes (uart_log (ready b).sink) (uart_log r.sink)
        × Shown hdmi_text bytes (hdmi_log (ready b).sink) (hdmi_log r.sink)
  unfolding print_linux_console_mirror
  print_linux_console_mirror_lem uart_log hdmi_log b uart hdmi h k ne =
      let total = b.scratch ring_total in
      let n = min (sub32 total b.last_total) ring_bytes in
      let bytes = bytes_from b.scratch n (sub32 total n) in
      let some_new : (total == b.last_total) ≡ false = ground arith in
      let (memory, at) = ready-memory b h k in
      let d =
        mirror_loop-Drained 256 n total (ready b) (omega arith) (omega arith) (omega (arith, at))
          (omega (arith, at)) in
      let r = mirror_loop hdmi_putc uart_putc 256 total (ready b) in
      let shows : shown r ≡ consume_all bytes (shown (ready b)) =
        d.shows
        ∙ ap (λ m. consume_all (bytes_from m n (ready b).last_total) (shown (ready b))) memory
        ∙ ap (λ i. consume_all (bytes_from b.scratch n i) (shown (ready b))) at in
      let sink : r.sink ≡ (consume_all bytes (shown (ready b))).1 = ap (λ t. t.1) shows in
      rw some_new (
        d.all,
        ground (arith, d.back, at),
        shows,
        rw sink (consume_all-Shown uart_log true uart.takes uart.leaves bytes (shown (ready b))),
        rw sink (consume_all-Shown hdmi_log false hdmi.leaves hdmi.takes bytes (shown (ready b))),
      )
