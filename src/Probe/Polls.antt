-- ===== src/Probe/Polls.antt =====
-- When a wait of the smoke tests has seen the firmware pass (hw_bringup/ps_uart_probe_common.c,
-- ps_uart_probe_cpu.c).
use zynq_cpu.Base.{
  ℕ, zero, suc, ◌<◌, ◌≡◌, ◌≢◌, ◌⊎◌, ◌↔◌, inl, inr, refl, ap, sym, ◌∙◌, ◌==◌, Bool-cases, true, List,
  Option, none, some, arith,
}
use mathlib.Core.Bool.{true≢false}
use zynq_cpu.Mailbox.{mail_status, judge_cpu, poll_loop, wait_for_cpu}
use zynq_cpu.Mailbox.Waits.{after, status_at, poll_loop-decides}
use zynq_cpu.Probe.Registers.Mail.{sup_status}
use zynq_cpu.Probe.{
  Bench, Wait, or_fail, or_read_again, for_supervisor, for_load_test, for_trap, status_pass,
  load_test_pass, pass_value, judge_load, trap_status, wait_end, fail_after, read_again,
}

-- A judge of statuses that takes one value for success.
abbrev Judges : (ℕ → Option ℕ) → ℕ → Type 0
Judges judge pass = (s : ℕ) → (judge s ≡ some 0) ↔ (s ≡ pass)

module _ {D : Type 0} (in32 : ℕ → D → ℕ × D) (addr pass : ℕ) (judge : ℕ → Option ℕ) where
  -- One of the first `n` statuses is the one that passes, and none before it ends the wait.
  abbrev pub FirstPass : ℕ → D → Type 0
  FirstPass n d =
      (k : ℕ) × (k < n)
      × ((j : ℕ) → j < k → judge (status_at in32 addr j d) ≡ none)
      × (status_at in32 addr k d ≡ pass)

  module _ (judges : Judges judge pass) where
    later_pending :
        (n : ℕ) (d : D)
        → judge (in32 addr d).0 ≡ none
        → (k : ℕ) → ((j : ℕ) → j < k → judge (status_at in32 addr j (in32 addr d).1) ≡ none)
        → (j : ℕ) → j < suc k
        → judge (status_at in32 addr j d) ≡ none
    unfolding after
    later_pending n d pending k before zero lt = pending
    later_pending n d pending k before (suc j) lt = before j (omega arith)

    later_pass :
        (n : ℕ) (d : D)
        → judge (in32 addr d).0 ≡ none
        → FirstPass n (in32 addr d).1
        → FirstPass (suc n) d
    unfolding after
    later_pass n d pending (k, lt, before, here) =
        (suc k, omega arith, later_pending n d pending k before, here)

    ended_at :
        (n : ℕ) (d : D) (o : Option ℕ)
        → judge (in32 addr d).0 ≡ o
        → ((in32 addr d).0 ≢ pass
            → (poll_loop in32 addr judge n (in32 addr d).0 (in32 addr d).1).1 ≡ pass
            → FirstPass n (in32 addr d).1)
        → (poll_loop in32 addr judge (suc n) 0 d).1 ≡ pass
        → FirstPass (suc n) d
    unfolding poll_loop after
    ended_at n d none pending later e =
        later_pass n d pending
          (later (λ p. cc (pending, (judges (in32 addr d).0).1 p)) (rw (pending, poll_loop) at e))
    ended_at n d (some code) ends later e =
        (0, omega arith, λ j lt. absurd (omega arith), rw (ends, poll_loop) at e)

    -- A status ends a wait, or is passed over.
    poll_loop-finds :
        (n status : ℕ) (d : D)
        → status ≢ pass
        → (poll_loop in32 addr judge n status d).1 ≡ pass
        → FirstPass n d
    unfolding poll_loop
    poll_loop-finds zero status d other e = absurd (other e)
    poll_loop-finds (suc n) status d other e =
        ended_at n d (judge (in32 addr d).0) refl
          (poll_loop-finds n (in32 addr d).0 (in32 addr d).1) e

    pub poll_loop-passes :
        (n status : ℕ) (d : D)
        → status ≢ pass
        → ((poll_loop in32 addr judge n status d).1 ≡ pass) ↔ FirstPass n d
    poll_loop-passes n status d other = (
      poll_loop-finds n status d other,
      λ (k, lt, before, here).
          ap (λ r. r.1)
            (poll_loop-decides in32 addr judge 0 k n status d lt before ((judges _).1 here))
          ∙ here,
    )

either {ℓ} : {A B : Type 0} {C : Type ℓ} → (A → C) → (B → C) → A ⊎ B → C
either f g (inl a) = f a
either f g (inr b) = g b

module _ {D : Type 0} (b : Bench D) where
  -- The firmware is seen to pass, by each kind of wait.
  abbrev pub Sees : Wait → D → Type 0
  Sees (or_fail diag) d = FirstPass b.in32 mail_status status_pass judge_cpu 2000000 d
  Sees or_read_again d =
      FirstPass b.in32 mail_status status_pass judge_cpu 2000000 d
      ⊎ (((wait_for_cpu b.in32 d).0 ≢ 0)
          × ((b.in32 mail_status (wait_for_cpu b.in32 d).2).0 ≡ status_pass))
  Sees for_supervisor d = FirstPass b.in32 sup_status status_pass judge_cpu 1000000 d
  Sees for_load_test d = FirstPass b.in32 mail_status load_test_pass judge_load 1000000 d
  Sees for_trap d = FirstPass (λ a. trap_status b) 0 load_test_pass judge_load 1000000 d

  judge_cpu-Judges : (s : ℕ) → (judge_cpu s ≡ some 0) ↔ (s ≡ status_pass)
  unfolding judge_cpu
  judge_cpu-Judges s = (λ e. ground arith, λ e. ground arith)

  judge_load-Judges : (s : ℕ) → (judge_load s ≡ some 0) ↔ (s ≡ load_test_pass)
  unfolding judge_load
  judge_load-Judges s = (λ e. ground arith, λ e. ground arith)

  -- Success is the code 0.
  poll_loop-code :
      (addr n status : ℕ) (d : D)
      → status ≢ status_pass
      → ((poll_loop b.in32 addr judge_cpu n status d).0 ≡ 0)
        ↔ ((poll_loop b.in32 addr judge_cpu n status d).1 ≡ status_pass)
  unfolding poll_loop judge_cpu
  poll_loop-code addr zero status d other = (λ e. absurd (omega arith), λ e. absurd (other e))
  poll_loop-code addr (suc n) status d other =
      ground (arith, poll_loop-code addr n (b.in32 addr d).0 (b.in32 addr d).1)

  fail_after_lem :
      (diag : List ℕ) (code status : ℕ) (d : D)
      → (code ≡ 0) ↔ (status ≡ status_pass)
      → ((fail_after b diag (code, status, d)).0 ≡ true)
          × ((fail_after b diag (code, status, d)).1 ≡ status_pass)
        ↔ (status ≡ status_pass)
  fail_after_lem diag code status d iff = elim (Bool-cases (code == 0)) [
    | inl ok ↦ rw ok (λ h. h.1, λ e. (refl, e))
    | inr failed ↦
        rw failed (λ h. absurd (true≢false (sym h.0)), λ e. absurd (ground (arith, iff.1 e)))
  ]

  read_again_lem :
      (code status : ℕ) (d : D)
      → (code ≡ 0) ↔ (status ≡ status_pass)
      → ((read_again b (code, status, d)).0 ≡ true)
          × ((read_again b (code, status, d)).1 ≡ status_pass)
        ↔ ((status ≡ status_pass) ⊎ ((code ≢ 0) × ((b.in32 mail_status d).0 ≡ status_pass)))
  read_again_lem code status d iff = elim (Bool-cases (code == 0)) [
    | inl ok ↦
        let zero_code : code ≡ 0 = ground arith in
        rw ok (λ h. inl h.1, λ s. (refl, iff.0 zero_code))
    | inr failed ↦
        let some_code : code ≢ 0 = ground arith in
        rw failed (λ h. inr (some_code, h.1), λ s. (refl, ground (arith, s, iff.1)))
  ]

  -- `wait_for_cpu` with the status it started from.
  cpu_code : (d : D) → ((wait_for_cpu b.in32 d).0 ≡ 0) ↔ ((wait_for_cpu b.in32 d).1 ≡ status_pass)
  unfolding wait_for_cpu
  cpu_code d = poll_loop-code mail_status 2000000 0 d (omega arith)

  cpu_passes :
      (d : D)
      → ((wait_for_cpu b.in32 d).1 ≡ status_pass)
        ↔ FirstPass b.in32 mail_status status_pass judge_cpu 2000000 d
  unfolding wait_for_cpu
  cpu_passes d =
      poll_loop-passes b.in32 mail_status status_pass judge_cpu judge_cpu-Judges 2000000 0 d
        (omega arith)

  pub wait_end-Sees :
      (wait : Wait) (d : D)
      → ((wait_end b wait d).0 ≡ true) × ((wait_end b wait d).1 ≡ pass_value wait) ↔ Sees wait d
  unfolding wait_end
  wait_end-Sees (or_fail diag) d =
      let f =
        fail_after_lem diag (wait_for_cpu b.in32 d).0 (wait_for_cpu b.in32 d).1
          (wait_for_cpu b.in32 d).2 (cpu_code d) in
      let p = cpu_passes d in (λ h. p.0 (f.0 h), λ s. f.1 (p.1 s))
  wait_end-Sees or_read_again d =
      let f =
        read_again_lem (wait_for_cpu b.in32 d).0 (wait_for_cpu b.in32 d).1 (wait_for_cpu b.in32 d).2
          (cpu_code d) in
      let p = cpu_passes d in
      (
        λ h. either (λ e. inl (p.0 e)) (λ r. inr r) (f.0 h),
        λ s. f.1 (either (λ e. inl (p.1 e)) (λ r. inr r) s),
      )
  wait_end-Sees for_supervisor d =
      let p =
        poll_loop-passes b.in32 sup_status status_pass judge_cpu judge_cpu-Judges 1000000 0 d
          (omega arith) in
      (λ h. p.0 h.1, λ s. (refl, p.1 s))
  wait_end-Sees for_load_test d =
      let p =
        poll_loop-passes b.in32 mail_status load_test_pass judge_load judge_load-Judges 1000000 0 d
          (omega arith) in
      (λ h. p.0 h.1, λ s. (refl, p.1 s))
  wait_end-Sees for_trap d =
      let p =
        poll_loop-passes (λ a. trap_status b) 0 load_test_pass judge_load judge_load-Judges 1000000
          0 d (omega arith) in
      (λ h. p.0 h.1, λ s. (refl, p.1 s))
