-- ===== src/Gpu/Passes.antt =====
-- What a passing smoke test of the GPU has seen (hw_bringup/userspace/gpu_smoke/zx32_gpu_smoke.c, `main`).
use zynq_cpu.Base.{
  both, ℕ, zero, suc, ◌/◌, ◌%◌, ◌*◌, ◌⊎◌, bit_and, ◌<◌, ◌≡◌, ◌↔◌, inl, inr, refl, ap, sym, ◌∙◌,
  ◌==◌, ◌&&◌, Bool, Bool-cases, true, List, [], ◌∷◌, Option, none, some, arith,
}
use mathlib.Core.Bool.{true≢false}
use zynq_cpu.Mailbox.{poll_loop}
use zynq_cpu.Mailbox.Waits.{after, status_at, poll_loop-decides}
use zynq_cpu.Base.Bits.{bit_and_digit, bit_and_one}
use zynq_cpu.Gpu.Registers.{gpu_status, gpu_cmd_done}
use zynq_cpu.Gpu.Smoke.{
  Gpu, judge_gpu, Operation, operations, put_all, write_registers, wait_done, counted, after_wait,
  run_operation, run_operations, smoke_main,
}
use zynq_cpu.Gpu.Pictures.{Picture, Shows, AllFind, pictures, operations-AllFind}

-- A status in which a wait goes on: no error, bit 2, and not both done, bit 1, and not busy, bit 0.
abbrev pub Pending : ℕ → Type 0
Pending status = (status / 4 % 2 ≡ 0) × ((status / 2 % 2 ≡ 0) ⊎ (status % 2 ≡ 1))

-- A status that ends a wait well: no error, done and not busy.
abbrev pub Finished : ℕ → Type 0
Finished status = (status / 4 % 2 ≡ 0) × (status / 2 % 2 ≡ 1) × (status % 2 ≡ 0)

bit_and_two : (s : ℕ) → bit_and s 2 ≡ s / 2 % 2 * 2
bit_and_two s = omega (arith, bit_and_digit s 2, bit_and_one (s / 2))

bit_and_four : (s : ℕ) → bit_and s 4 ≡ s / 4 % 2 * 4
bit_and_four s = omega (arith, bit_and_digit s 4, bit_and_two (s / 2))

judge_gpu-Pending : (s : ℕ) → (judge_gpu s ≡ none) ↔ Pending s
unfolding judge_gpu
judge_gpu-Pending s =
    rw (bit_and_one s, bit_and_two s, bit_and_four s) (λ e. ground arith, λ h. ground arith)

judge_gpu-Finished : (s : ℕ) → (judge_gpu s ≡ some 0) ↔ Finished s
unfolding judge_gpu
judge_gpu-Finished s =
    rw (bit_and_one s, bit_and_two s, bit_and_four s) (λ e. ground arith, λ h. ground arith)

-- The queue is asked after the fourth operation, which is three commands.
abbrev pub queue_counts : List (Option ℕ)
queue_counts = none ∷ none ∷ none ∷ some 3 ∷ none ∷ none ∷ none ∷ none ∷ []

module _ {D : Type 0} (gpu : Gpu D) (polls : D → ℕ) where
  -- The first status among `n` that ends a wait says that the operation is done, in the code's words.
  abbrev Judged : ℕ → D → D → Type 0
  Judged n d d' =
      (k : ℕ) × (k < n)
      × ((j : ℕ) → j < k → judge_gpu (status_at gpu.mmio_read gpu_status j d) ≡ none)
      × (judge_gpu (status_at gpu.mmio_read gpu_status k d) ≡ some 0)
      × (after gpu.mmio_read gpu_status (suc k) d ≡ d')

  -- The first status among `n` in which the wait does not go on has no error bit, and says done and not
  -- busy; nothing is read after it.
  abbrev pub EndsWell : ℕ → D → D → Type 0
  EndsWell n d d' =
      (k : ℕ) × (k < n)
      × ((j : ℕ) → j < k → Pending (status_at gpu.mmio_read gpu_status j d))
      × Finished (status_at gpu.mmio_read gpu_status k d)
      × (after gpu.mmio_read gpu_status (suc k) d ≡ d')

  Judged-EndsWell :
      (n : ℕ) (d d' : D) → (Judged n d d' → EndsWell n d d') × (EndsWell n d d' → Judged n d d')
  Judged-EndsWell n d d' = (
    λ (k, lt, before, here, last).
        (k, lt, λ j h. (judge_gpu-Pending _).0 (before j h), (judge_gpu-Finished _).0 here, last),
    λ (k, lt, before, here, last).
        (k, lt, λ j h. (judge_gpu-Pending _).1 (before j h), (judge_gpu-Finished _).1 here, last),
  )

  abbrev next : D → ℕ × D
  next d = gpu.mmio_read gpu_status d

  before_later :
      (d : D)
      → judge_gpu (next d).0 ≡ none
      → (k : ℕ)
      → ((j : ℕ) → j < k → judge_gpu (status_at gpu.mmio_read gpu_status j (next d).1) ≡ none)
      → (j : ℕ) → j < suc k
      → judge_gpu (status_at gpu.mmio_read gpu_status j d) ≡ none
  unfolding after
  before_later d pending k before zero lt = pending
  before_later d pending k before (suc j) lt = before j (omega arith)

  later_end :
      (n : ℕ) (d d' : D)
      → judge_gpu (next d).0 ≡ none
      → Judged n (next d).1 d'
      → Judged (suc n) d d'
  unfolding after
  later_end n d d' pending (k, lt, before, here, last) =
      (suc k, omega arith, before_later d pending k before, here, last)

  abbrev polled : ℕ → ℕ → D → ℕ × ℕ × D
  polled n status d = poll_loop gpu.mmio_read gpu_status judge_gpu n status d

  ends_at :
      (n : ℕ) (d : D) (o : Option ℕ)
      → judge_gpu (next d).0 ≡ o
      → ((polled n (next d).0 (next d).1).0 ≡ 0
          → Judged n (next d).1 (polled n (next d).0 (next d).1).2)
      → (polled (suc n) 0 d).0 ≡ 0
      → Judged (suc n) d (polled (suc n) 0 d).2
  unfolding poll_loop after
  ends_at n d none pending later e =
      rw (pending, poll_loop)
        (later_end n d (polled n (next d).0 (next d).1).2 pending
          (later (rw (pending, poll_loop) at e)))
  ends_at n d (some code) ends later e =
      let zero_code : code ≡ 0 = rw (ends, poll_loop) at e in
      rw (ends, poll_loop)
        (0, omega arith, λ j lt. absurd (omega arith), ends ∙ ap some zero_code, refl)

  poll_loop-Judged :
      (n status : ℕ) (d : D)
      → (poll_loop gpu.mmio_read gpu_status judge_gpu n status d).0 ≡ 0
      → Judged n d (poll_loop gpu.mmio_read gpu_status judge_gpu n status d).2
  unfolding poll_loop after
  poll_loop-Judged zero status d e = absurd (omega arith)
  poll_loop-Judged (suc n) status d e =
      ends_at n d (judge_gpu (next d).0) refl (poll_loop-Judged n (next d).0 (next d).1) e

  -- An operation that has begun.
  abbrev pub begun : Operation → D → D
  begun o d = write_registers gpu o.begin (write_registers gpu o.registers (put_all gpu o.paint d))

  -- The number of commands that the queue should have counted, where it is read.
  abbrev pub QueueCounts : Option ℕ → D → D → Type 0
  QueueCounts none d d' = d' ≡ d
  QueueCounts (some n) d d' = gpu.mmio_read gpu_cmd_done d ≡ (n, d')

  counted-QueueCounts :
      (c : Option ℕ) (d d' : D) → (counted gpu polls c d ≡ (true, d')) ↔ QueueCounts c d d'
  counted-QueueCounts none d d' = (λ e. sym (ap (λ t. t.1) e), λ e. ap (λ t. (true, t)) (sym e))
  counted-QueueCounts (some n) d d' =
      let r = gpu.mmio_read gpu_cmd_done d in
      (
        λ e.
            let same : (r.0 == n) ≡ true = ap (λ t. t.0) e in
            let number : r.0 ≡ n = ground (arith, same) in
            ap (λ t. (t, r.1)) number ∙ ap (λ t. (n, t.1)) e,
        λ e.
            let same : (r.0 == n) ≡ true = ground (arith, ap (λ t. t.0) e) in
            ap (λ t. (t, r.1)) same ∙ ap (λ t. (true, t.1)) e,
      )

  -- An operation is drawn: the wait for it, which has its own number of polls, ends well, and the queue
  -- has counted `count` commands where that is read.
  abbrev pub Drawn : Operation → Option ℕ → D → D → Type 0
  Drawn o count d d' =
      (d1 : D) × EndsWell (suc (polls (begun o d))) (begun o d) d1 × QueueCounts count d1 d'

  -- Every operation is drawn, on the machine that the one before it leaves, and shows its picture.
  abbrev pub AllDrawn : List Operation → List (Option ℕ) → List Picture → D → Type 0
  AllDrawn (o ∷ os) (c ∷ cs) (p ∷ ps) d =
      (d' : D) × Drawn o c d d' × Shows p (gpu.pixels d') × AllDrawn os cs ps d'
  AllDrawn _ _ _ d = Unit {0}

  after_wait-true :
      (o : Operation) (code status : ℕ) (d : D)
      → ((after_wait gpu polls o (code, status, d)).0 ≡ true)
      → (code ≡ 0)
        × (counted gpu polls o.done_count d ≡ (true, (after_wait gpu polls o (code, status, d)).1))
        × (o.accepts (gpu.pixels (after_wait gpu polls o (code, status, d)).1) ≡ true)
  after_wait-true o code status d e = elim (Bool-cases (code == 0)) [
    | inl ok ↦
        let c = counted gpu polls o.done_count d in
        let parts = (both c.0 (o.accepts (gpu.pixels c.1))).0 (rw ok at e) in
        rw ok (ground arith, ap (λ t. (t, c.1)) parts.0, parts.1)
    | inr failed ↦ absurd (true≢false (sym (rw failed at e)))
  ]

  run_operation-Drawn :
      (o : Operation) (count : Option ℕ) (d : D)
      → o.done_count ≡ count
      → (run_operation gpu polls o d).0 ≡ true
      → Drawn o count d (run_operation gpu polls o d).1
        × (o.accepts (gpu.pixels (run_operation gpu polls o d).1) ≡ true)
  unfolding run_operation wait_done
  run_operation-Drawn o count d same e =
      let n = suc (polls (begun o d)) in
      let w = polled n 0 (begun o d) in
      let r = after_wait-true o w.0 w.1 w.2 e in
      (
        (
          w.2,
          (Judged-EndsWell n (begun o d) w.2).0 (poll_loop-Judged n 0 (begun o d) r.0),
          rw (sym same) ((counted-QueueCounts o.done_count w.2 _).0 r.1),
        ),
        r.2,
      )

  Drawn-run_operation :
      (o : Operation) (count : Option ℕ) (d d' : D)
      → o.done_count ≡ count
      → Drawn o count d d'
      → o.accepts (gpu.pixels d') ≡ true
      → run_operation gpu polls o d ≡ (true, d')
  unfolding run_operation wait_done
  Drawn-run_operation o count d d' same (d1, ends, counts) good =
      let n = suc (polls (begun o d)) in
      let (k, lt, before, here, last) = (Judged-EndsWell n (begun o d) d1).1 ends in
      let w =
        poll_loop-decides gpu.mmio_read gpu_status judge_gpu 0 k n 0 (begun o d) lt before here in
      rw (w, last, same, (counted-QueueCounts count d1 d').1 counts, good) refl

  -- The counts are those of the operations.
  abbrev AllCount : List Operation → List (Option ℕ) → Type 0
  AllCount (o ∷ os) (c ∷ cs) = (o.done_count ≡ c) × AllCount os cs
  AllCount [] [] = Unit {0}
  AllCount _ _ = ⊥

  run_operations_lem :
      (os : List Operation) (cs : List (Option ℕ)) (ps : List Picture) (d : D)
      → AllFind os ps
      → AllCount os cs
      → (run_operations gpu polls os d ≡ true) ↔ AllDrawn os cs ps d
  unfolding run_operations
  run_operations_lem [] cs ps d find count = (λ e. tt, λ h. refl)
  run_operations_lem (o ∷ os) cs [] d find count = absurd find
  run_operations_lem (o ∷ os) [] (p ∷ ps) d find count = absurd count
  run_operations_lem (o ∷ os) (c ∷ cs) (p ∷ ps) d find count =
      let r = run_operation gpu polls o d in
      let b = both r.0 (run_operations gpu polls os r.1) in
      (
        λ e.
            let here = run_operation-Drawn o c d count.0 (b.0 e).0 in
            (
              r.1,
              here.0,
              (find.0 (gpu.pixels r.1)).0 here.1,
              (run_operations_lem os cs ps r.1 find.1 count.1).0 (b.0 e).1,
            ),
        λ (d', drawn, shows, later).
            let here =
              Drawn-run_operation o c d d' count.0 drawn ((find.0 (gpu.pixels d')).1 shows) in
            rw here ((run_operations_lem os cs ps d' find.1 count.1).1 later),
      )

  -- The program returns 0 just when /dev/mem opens and both maps succeed and, one after the other, each
  -- of the eight operations is done, which is that the first status in which its wait does not go on, among
  -- the polls of that wait, has the done bit and neither the error bit nor the busy bit; that the queue has
  -- counted three commands after the fourth; and that each shows its picture in the framebuffer.
  pub smoke_main_lem :
      (opened mapped : Bool) (fb_base : ℕ) (d : D)
      → (smoke_main gpu polls opened mapped fb_base d ≡ true)
        ↔ (opened ≡ true) × (mapped ≡ true) × AllDrawn (operations fb_base) queue_counts pictures d
  unfolding smoke_main
  smoke_main_lem opened mapped fb_base d =
      let run = run_operations gpu polls (operations fb_base) d in
      let all =
        run_operations_lem (operations fb_base) queue_counts pictures d (operations-AllFind fb_base)
          (refl, (refl, (refl, (refl, (refl, (refl, (refl, (refl, tt)))))))) in
      (
        λ e.
            let a = (both opened (mapped && run)).0 e in
            let m = (both mapped run).0 a.1 in (a.0, m.0, all.0 m.1),
        λ (o, m, h). (both opened (mapped && run)).1 (o, (both mapped run).1 (m, all.1 h)),
      )
