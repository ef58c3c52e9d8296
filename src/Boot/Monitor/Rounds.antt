-- ===== src/Boot/Monitor/Rounds.antt =====
-- How a round of the monitor ends (hw_bringup/ps_linux_boot.c, the loop of `main`).
use zynq_cpu.Base.{
  ℕ, ◌<◌, ◌≡◌, ◌≢◌, inl, inr, Store, ◌+◌, refl, sym, ◌∙◌, update, ◌==◌, ◌||◌, Bool, true, false,
  arith,
}
use native.Mathlib.Decide.{ℕ_discrete}
use zynq_cpu.Bridge.Input.{Receiver}
use zynq_cpu.Mailbox.{mail_status}
use zynq_cpu.Boot.Words.{cpu_ctrl, reset_magic}
use zynq_cpu.Boot.{boot_backup_ps_addr, boot_blob_bytes}
use zynq_cpu.Boot.Launch.Saved.{SameBackup}
use zynq_cpu.Boot.Monitor.Slcr.{at_rest, watched_out, hold_and_reset_lem}
use zynq_cpu.Boot.Monitor.Leaves.{
  Apart, Leaves, Leaves-trans, announce-Leaves, sample-Leaves, pumped-Leaves, show_output-Leaves,
  pause-Pauses,
}
use zynq_cpu.Boot.Monitor.{
  Monitor, Round, restart, halted, again, reset_magic_value, status_fail, boot_watchdog_reports,
  hold_and_reset, pulse_pl_reset, pump, show_output, tell_elapsed, announce, serve_reboot,
  sample_temperature, monitor_round,
}

or_of_implies : (b b' : Bool) → (b ≡ true → b' ≡ true) → (b || b') ≡ b'
or_of_implies true b' h = sym (h refl)
or_of_implies false b' h = refl

-- What a round does, by how it ends.
abbrev pub Ends : {X S : Type 0} → Monitor X S → Round X S → Type 0
Ends m (restart b mirror) =
    (m.board.mem reset_magic ≡ reset_magic_value)
    × (b.mem cpu_ctrl ≡ 1)
    × (b.backed_up ≡ m.board.backed_up)
    × SameBackup m.board.mem b.mem
    × ((before : Store) × (before cpu_ctrl ≡ m.board.mem cpu_ctrl)
        × ((running : Bool) (n : ℕ)
            → hold_and_reset watched_out (before, at_rest running n)
              ≡ (b.mem, at_rest false (n + 1))))
Ends m (halted m') =
    (m.board.mem reset_magic ≢ reset_magic_value)
    × (m.board.mem mail_status ≡ status_fail)
    × (m'.board.mem cpu_ctrl ≡ m.board.mem cpu_ctrl)
    × (m'.board.backed_up ≡ m.board.backed_up)
    × SameBackup m.board.mem m'.board.mem
Ends m (again m') =
    (m.board.mem reset_magic ≢ reset_magic_value)
    × (m.board.mem mail_status ≢ status_fail)
    × (m'.board.mem cpu_ctrl ≡ m.board.mem cpu_ctrl)
    × (m'.board.backed_up ≡ m.board.backed_up)
    × (m'.report_count < boot_watchdog_reports)
    × ((m.welcome_seen || m'.welcome_seen) ≡ m'.welcome_seen)
    × ((m.login_seen || m'.login_seen) ≡ m'.login_seen)
    × ((m.userspace_idle_seen || m'.userspace_idle_seen) ≡ m'.userspace_idle_seen)
    × SameBackup m.board.mem m'.board.mem

reset_magic-Apart : Apart reset_magic
reset_magic-Apart = (inr (omega arith), omega arith, omega arith)

backup-Apart : (a : ℕ) → a < boot_backup_ps_addr + boot_blob_bytes → Apart a
backup-Apart a low = (inl (omega arith), omega arith, omega arith)

cpu_ctrl-Apart : Apart cpu_ctrl
cpu_ctrl-Apart = (inr (omega arith), omega arith, omega arith)

module _ {X S : Type 0} (xadc_in : ℕ → X → ℕ × X) (xadc_out : ℕ → ℕ → X → X) (get_time : X → ℕ × X)
    (per_second : ℕ) (receive : Receiver X) (hdmi_putc uart_putc : ℕ → S → S) where
  -- The monitor before its decisions.
  abbrev decided : Monitor X S → Monitor X S
  decided m =
      let r = show_output hdmi_putc uart_putc (record m { board = pump receive m.board }) in
      announce get_time per_second hdmi_putc r.1 r.0

  decided-Leaves : (a : ℕ) (m : Monitor X S) → Apart a → Leaves a m (decided m)
  decided-Leaves a m apart = Leaves-trans (pumped-Leaves a apart receive m) (
      Leaves-trans (show_output-Leaves a apart hdmi_putc uart_putc _)
        (announce-Leaves get_time per_second hdmi_putc a _ _))

  restart-Ends :
      (m m' : Monitor X S)
      → m.board.mem reset_magic ≡ reset_magic_value
      → ((a : ℕ) → Apart a → Leaves a m m')
      → Ends m (restart (serve_reboot get_time per_second hdmi_putc m') m'.mirror)
  unfolding serve_reboot hold_and_reset pulse_pl_reset tell_elapsed update
  restart-Ends m m' magic same = (
    magic,
    refl,
    (same cpu_ctrl cpu_ctrl-Apart).same_backup,
    λ a lo hi. ground (arith, (same a (backup-Apart a hi)).same_word),
    (
      m'.board.mem,
      (same cpu_ctrl cpu_ctrl-Apart).same_word,
      λ running n. hold_and_reset_lem running n m'.board.mem,
    ),
  )

  -- With fewer than 512 reports counted, a round ends with a reboot exactly where the memory it starts
  -- with holds the request, and then the CPU is held and, with it held, the reset registers, locked and at
  -- rest before, are unlocked, all four resets of the logic asserted once and released, and the registers
  -- locked again; else it stops for good exactly where the firmware has reported FAIL, with the CPU's
  -- control as before; else it goes on: the CPU's control is as before, fewer than 512 reports are counted
  -- again, and no announcement is forgotten. However it ends, the note that a backup was made and every
  -- word of the backup are as before.
  pub monitor_round_lem :
      (m : Monitor X S)
      → m.report_count < boot_watchdog_reports
      → Ends m (monitor_round xadc_in xadc_out get_time per_second receive hdmi_putc uart_putc m)
  unfolding monitor_round
  monitor_round_lem m bounded =
      let m' = decided m in
      let idle = m.userspace_idle_seen || m.login_seen in
      let kept = decided-Leaves cpu_ctrl m cpu_ctrl-Apart in
      let magic = (decided-Leaves reset_magic m reset_magic-Apart).same_word in
      let sampled = sample-Leaves cpu_ctrl cpu_ctrl-Apart xadc_in xadc_out get_time per_second m' in
      let before = Leaves-trans kept sampled in
      let paused =
        pause-Pauses cpu_ctrl cpu_ctrl-Apart receive idle
          (sample_temperature xadc_in xadc_out get_time per_second m') in
      elim (ℕ_discrete (m'.board.mem reset_magic) reset_magic_value) [
        | yes e ↦
            let t : (m'.board.mem reset_magic == reset_magic_value) ≡ true = ground arith in
            rw t (restart-Ends m m' (sym magic ∙ e) (λ a apart. decided-Leaves a m apart))
        | no ne ↦
            let t : (m'.board.mem reset_magic == reset_magic_value) ≡ false = ground arith in
            rw t (elim (ℕ_discrete (m.board.mem mail_status) status_fail) [
              | yes f ↦
                  let u : (m.board.mem mail_status == status_fail) ≡ true = ground arith in
                  rw u (
                    λ h. ne (magic ∙ h),
                    f,
                    kept.same_word,
                    kept.same_backup,
                    λ a lo hi. (decided-Leaves a m (backup-Apart a hi)).same_word,
                  )
              | no nf ↦
                  let u : (m.board.mem mail_status == status_fail) ≡ false = ground arith in
                  rw u (
                    λ h. ne (magic ∙ h),
                    nf,
                    paused.same_word ∙ before.same_word,
                    paused.same_backup ∙ before.same_backup,
                    paused.bounded (rw before.same_count bounded),
                    or_of_implies _ _ (λ h. paused.remembers.0 (before.remembers.0 h)),
                    or_of_implies _ _ (λ h. paused.remembers.1 (before.remembers.1 h)),
                    or_of_implies _ _ (λ h. paused.remembers.2 (before.remembers.2 h)),
                    λ a lo hi.
                        let apart = backup-Apart a hi in
                        (pause-Pauses a apart receive idle
                          (sample_temperature xadc_in xadc_out get_time per_second m')).same_word
                        ∙ (sample-Leaves a apart xadc_in xadc_out get_time per_second m').same_word
                        ∙ (decided-Leaves a m apart).same_word,
                  )
            ])
      ]
