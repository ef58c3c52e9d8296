-- ===== src/Boot/Monitor/Leaves.antt =====
-- What each step of a round leaves as it is (hw_bringup/ps_linux_boot.c, the loop of `main`).
use zynq_cpu.Base.{
  ℕ, ◌<◌, ◌≡◌, ◌≢◌, ◌⊎◌, refl, ◌∙◌, add32, bit_and, ltb, leb, ◌==◌, not, ◌&&◌, if◌then◌else◌, Bool,
  true, false, if_both, for_range_inv, arith,
}
use zynq_cpu.Console.Writer.{boot_elapsed_ms}
use zynq_cpu.Bridge.{ring_head, in_char, in_ring_tail}
use zynq_cpu.Bridge.Input.{Receiver}
use zynq_cpu.Temperature.{sysmon_status}
use zynq_cpu.Boot.Launch.{Board, publish}
use zynq_cpu.Boot.Launch.Keeps.{publish-mem}
use zynq_cpu.Boot.Monitor.Keeps.{pump-keeps, active_delay-keeps, show_output-keeps}
use zynq_cpu.Boot.Monitor.{
  Monitor, boot_watchdog_reports, pump, show_output, tell_elapsed, announce_welcome, announce_login,
  announce_idle, announce, sample_temperature, active_delay, pause,
}

-- What was announced in this boot is not forgotten.
abbrev pub Remembers : {X S : Type 0} → Monitor X S → Monitor X S → Type 0
Remembers m m' =
    (m.welcome_seen ≡ true → m'.welcome_seen ≡ true)
    × (m.login_seen ≡ true → m'.login_seen ≡ true)
    × (m.userspace_idle_seen ≡ true → m'.userspace_idle_seen ≡ true)

-- Words of the memory that no step of a round writes, but that of a reboot.
abbrev pub Apart : ℕ → Type 0
Apart a = ((a < in_char) ⊎ (in_ring_tail < a)) × (a ≢ ring_head) × (a < sysmon_status)

-- A step that leaves the word at `a`, the backup and the count of reports, and forgets nothing.
pub record Leaves {X S : Type 0} (a : ℕ) (m m' : Monitor X S) : Type 0 where
  pub same_word : m'.board.mem a ≡ m.board.mem a
  pub same_backup : m'.board.backed_up ≡ m.board.backed_up
  pub same_count : m'.report_count ≡ m.report_count
  pub remembers : Remembers m m'

pub Leaves-trans :
    {X S : Type 0} {a : ℕ} {m m' m'' : Monitor X S}
    → Leaves a m m'
    → Leaves a m' m''
    → Leaves a m m''
Leaves-trans f g = record {
  same_word = g.same_word ∙ f.same_word;
  same_backup = g.same_backup ∙ f.same_backup;
  same_count = g.same_count ∙ f.same_count;
  remembers = (
    λ h. g.remembers.0 (f.remembers.0 h),
    λ h. g.remembers.1 (f.remembers.1 h),
    λ h. g.remembers.2 (f.remembers.2 h),
  );
}

Leaves-refl : {X S : Type 0} (a : ℕ) (m : Monitor X S) → Leaves a m m
Leaves-refl a m = record {
  same_word = refl;
  same_backup = refl;
  same_count = refl;
  remembers = (λ h. h, λ h. h, λ h. h);
}

module _ {X S : Type 0} (get_time : X → ℕ × X) (per_second : ℕ) (hdmi_putc : ℕ → S → S)
    (a : ℕ) where
  announce_welcome-Leaves :
      (events : ℕ) (m : Monitor X S)
      → Leaves a m (announce_welcome get_time per_second hdmi_putc events m)
  unfolding announce_welcome tell_elapsed
  announce_welcome-Leaves events m =
      if_both (Leaves a m) (not (bit_and events 2 == 0) && not m.welcome_seen)
        (record {
          same_word = refl;
          same_backup = refl;
          same_count = refl;
          remembers = (λ h. refl, λ h. h, λ h. h);
        })
        (Leaves-refl a m)

  announce_login-Leaves :
      (events : ℕ) (m : Monitor X S)
      → Leaves a m (announce_login get_time per_second hdmi_putc events m)
  unfolding announce_login tell_elapsed
  announce_login-Leaves events m =
      if_both (Leaves a m) (not (bit_and events 4 == 0) && not m.login_seen)
        (record {
          same_word = refl;
          same_backup = refl;
          same_count = refl;
          remembers = (λ h. h, λ h. refl, λ h. h);
        })
        (Leaves-refl a m)

  announce_idle-Leaves :
      (events : ℕ) (m : Monitor X S)
      → Leaves a m (announce_idle get_time per_second hdmi_putc events m)
  unfolding announce_idle
  announce_idle-Leaves events m =
      if_both (Leaves a m) (not (bit_and events 1 == 0) && not m.userspace_idle_seen)
        (record {
          same_word = refl;
          same_backup = refl;
          same_count = refl;
          remembers = (λ h. h, λ h. h, λ h. refl);
        })
        (Leaves-refl a m)

  pub announce-Leaves :
      (events : ℕ) (m : Monitor X S) → Leaves a m (announce get_time per_second hdmi_putc events m)
  unfolding announce
  announce-Leaves events m =
      Leaves-trans (announce_welcome-Leaves events m)
        (Leaves-trans (announce_login-Leaves events _) (announce_idle-Leaves events _))

module _ {X S : Type 0} (a : ℕ) (apart : Apart a) where
  pub sample-Leaves :
      (xadc_in : ℕ → X → ℕ × X) (xadc_out : ℕ → ℕ → X → X) (get_time : X → ℕ × X) (per_second : ℕ)
      (m : Monitor X S)
      → Leaves a m (sample_temperature xadc_in xadc_out get_time per_second m)
  unfolding sample_temperature publish
  sample-Leaves xadc_in xadc_out get_time per_second m =
      let t = get_time m.board.hardware in
      let b = record m.board { hardware = t.1 } in
      if_both (Leaves a m) (leb 1000 (boot_elapsed_ms per_second m.last_sysmon_time t.0))
        {x = record m { board = publish xadc_in xadc_out b; last_sysmon_time = t.0 }}
        {y = record m { board = b }}
        (record {
          same_word = publish-mem xadc_in xadc_out a b apart.2;
          same_backup = refl;
          same_count = refl;
          remembers = (λ h. h, λ h. h, λ h. h);
        })
        (record {
          same_word = refl;
          same_backup = refl;
          same_count = refl;
          remembers = (λ h. h, λ h. h, λ h. h);
        })

  pub pumped-Leaves :
      (receive : Receiver X) (m : Monitor X S)
      → Leaves a m (record m { board = pump receive m.board })
  unfolding pump
  pumped-Leaves receive m = record {
    same_word = pump-keeps receive a apart.0 m.board;
    same_backup = refl;
    same_count = refl;
    remembers = (λ h. h, λ h. h, λ h. h);
  }

  pub show_output-Leaves :
      (hdmi_putc uart_putc : ℕ → S → S) (m : Monitor X S)
      → Leaves a m (show_output hdmi_putc uart_putc m).0
  unfolding show_output
  show_output-Leaves hdmi_putc uart_putc m = record {
    same_word = show_output-keeps hdmi_putc uart_putc a apart.1 m;
    same_backup = refl;
    same_count = refl;
    remembers = (λ h. h, λ h. h, λ h. h);
  }

  pump-backup : (receive : Receiver X) (b : Board X S) → (pump receive b).backed_up ≡ b.backed_up
  unfolding pump
  pump-backup receive b = refl

  delay-backup :
      (receive : Receiver X) (b : Board X S) → (active_delay receive b).backed_up ≡ b.backed_up
  unfolding active_delay pump
  delay-backup receive b =
      for_range_inv (λ k s. s.backed_up ≡ b.backed_up)
        (λ delay c. if bit_and delay 0x3ff == 0 then pump receive c else c) 0 200000
        (λ k s lo hi e.
          if_both (λ c. c.backed_up ≡ b.backed_up) (bit_and k 0x3ff == 0) {x = pump receive s}
            {y = s} e e)
        200000 0 b (omega arith) (omega arith) refl

  -- A pause leaves the count of reports below its bound.
  pub record Pauses (m m' : Monitor X S) : Type 0 where
    pub same_word : m'.board.mem a ≡ m.board.mem a
    pub same_backup : m'.board.backed_up ≡ m.board.backed_up
    pub remembers : Remembers m m'
    pub bounded : m.report_count < boot_watchdog_reports → m'.report_count < boot_watchdog_reports

  pub pause-Pauses :
      (receive : Receiver X) (idle : Bool) (m : Monitor X S) → Pauses m (pause receive idle m)
  unfolding pause
  pause-Pauses receive true m = record {
    same_word = pump-keeps receive a apart.0 m.board;
    same_backup = pump-backup receive m.board;
    remembers = (λ h. h, λ h. h, λ h. h);
    bounded = λ h. h;
  }
  pause-Pauses receive false m =
      let delayed = record m { board = active_delay receive m.board } in
      let count = add32 m.report_count 1 in
      if_both (Pauses m) (ltb m.report_count boot_watchdog_reports)
        {x = record delayed { report_count = if count == boot_watchdog_reports then 0 else count }}
        {y = delayed}
        (record {
          same_word = active_delay-keeps receive a apart.0 m.board;
          same_backup = delay-backup receive m.board;
          remembers = (λ h. h, λ h. h, λ h. h);
          bounded = λ h. ground arith;
        })
        (record {
          same_word = active_delay-keeps receive a apart.0 m.board;
          same_backup = delay-backup receive m.board;
          remembers = (λ h. h, λ h. h, λ h. h);
          bounded = λ h. h;
        })
