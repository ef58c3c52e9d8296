-- ===== src/Boot/Monitor/States.antt =====
-- The launcher over any number of boots (hw_bringup/ps_linux_boot.c, `main`).
use zynq_cpu.Base.{ℕ, ◌<◌, ◌≤◌, ◌≡◌, inl, inr, refl, ◌∙◌, Store, true, false, List, length, arith}
use zynq_cpu.Bridge.Input.{Receiver}
use zynq_cpu.Bridge.Mirror.{Mirror}
use zynq_cpu.Boot.Launch.{
  Board, Launch, stopped, released, artifacts_missing, ring_outside, elf_failed, imem_mismatch,
}
use zynq_cpu.Boot.Words.{cpu_ctrl, reset_magic}
use zynq_cpu.Boot.Launch.Keeps.{Confined}
use zynq_cpu.Boot.Launch.Saved.{Saved, Preserved, Saved-SameBackup, kernel-Preserved}
use zynq_cpu.Boot.Launch.Release.{Launched, boot_linux_lem}
use zynq_cpu.Boot.Launch.Ready.{MailboxReady}
use zynq_cpu.Boot.Monitor.Rounds.{Ends, monitor_round_lem}
use zynq_cpu.Boot.Monitor.{
  Monitor, Round, restart, halted, again, reset_magic_value, boot_watchdog_reports, monitor_round,
  Main, booting, given_up, monitoring, trapped, start_monitor, boot_step, next_state, Step, boot,
  linux, round, Reach, here, next,
}

-- The CPU is held where no Linux runs, and runs where it is watched; `kernel` is in the backup where a
-- restart or a watched Linux may need it.
abbrev pub IsSafe : {X S : Type 0} → Store → Main X S → Type 0
IsSafe kernel (booting b mirror) = (b.mem cpu_ctrl ≡ 1) × (b.backed_up ≡ true) × Saved kernel b.mem
IsSafe kernel (given_up fault b) = b.mem cpu_ctrl ≡ 1
IsSafe kernel (monitoring m) =
    (m.board.mem cpu_ctrl ≡ 0)
    × (m.board.backed_up ≡ true)
    × (m.report_count < boot_watchdog_reports)
    × Saved kernel m.board.mem
IsSafe kernel (trapped m) =
    (m.board.mem cpu_ctrl ≡ 0) × (m.board.backed_up ≡ true) × Saved kernel m.board.mem

-- The same, but for a boot that finds the kernel in its place, as power-up does.
abbrev Found : {X S : Type 0} → Store → Main X S → Type 0
Found kernel (booting b mirror) = Preserved kernel b.backed_up b.mem
Found kernel (given_up fault b) = b.mem cpu_ctrl ≡ 1
Found kernel (monitoring m) = IsSafe kernel (monitoring m)
Found kernel (trapped m) = IsSafe kernel (trapped m)

IsSafe-Found : {X S : Type 0} (kernel : Store) (t : Main X S) → IsSafe kernel t → Found kernel t
IsSafe-Found kernel (booting b mirror) safe = inr (safe.1, safe.2)
IsSafe-Found kernel (given_up fault b) safe = safe
IsSafe-Found kernel (monitoring m) safe = safe
IsSafe-Found kernel (trapped m) safe = safe

Ends-IsSafe :
    {X S : Type 0} (kernel : Store) (m : Monitor X S) (r : Round X S)
    → IsSafe kernel (monitoring m)
    → Ends m r
    → IsSafe kernel (next_state r)
unfolding next_state
Ends-IsSafe kernel m (restart b mirror) safe ends =
    (ends.1, ends.2 ∙ safe.1, Saved-SameBackup kernel m.board.mem b.mem ends.3 safe.3)
Ends-IsSafe kernel m (halted m') safe ends = (
  ends.2 ∙ safe.0,
  ends.3 ∙ safe.1,
  Saved-SameBackup kernel m.board.mem m'.board.mem ends.4 safe.3,
)
Ends-IsSafe kernel m (again m') safe ends = (
  ends.2 ∙ safe.0,
  ends.3 ∙ safe.1,
  ends.4,
  Saved-SameBackup kernel m.board.mem m'.board.mem ends.8 safe.3,
)

-- A boot that a reboot has led to.
abbrev pub Rebooted : {X S : Type 0} → Main X S → Type 0
Rebooted (booting b mirror) = ⊥
Rebooted (given_up fault b) = b.mem cpu_ctrl ≡ 1
Rebooted (monitoring m) =
    MailboxReady m.board.mem
    × (m.welcome_seen ≡ false)
    × (m.login_seen ≡ false)
    × (m.userspace_idle_seen ≡ false)
    × (m.report_count ≡ 0)
    × (m.last_console_total ≡ 0)
Rebooted (trapped m) = ⊥

restarts :
    {X S : Type 0} (m : Monitor X S) (r : Round X S)
    → m.board.mem reset_magic ≡ reset_magic_value
    → Ends m r
    → (b : Board X S) × (mirror : Mirror) × (next_state r ≡ booting b mirror) × (b.mem cpu_ctrl ≡ 1)
unfolding next_state
restarts m (restart b mirror) magic ends = (b, mirror, refl, ends.1)
restarts m (halted m') magic ends = absurd (ends.0 magic)
restarts m (again m') magic ends = absurd (ends.0 magic)

module _ {X S : Type 0} (hdmi_putc : ℕ → S → S) (elf : Store) (elf_size : ℕ) (program : List ℕ)
    (kernel : Store) where
  Launched-IsSafe :
      (now : ℕ) (mirror : Mirror) (m : Store) (l : Launch X S)
      → Launched hdmi_putc elf elf_size program kernel m l
      → IsSafe kernel (start_monitor now mirror l)
  unfolding start_monitor
  Launched-IsSafe now mirror m (stopped artifacts_missing b) h = h.0
  Launched-IsSafe now mirror m (stopped ring_outside b) h = h.0
  Launched-IsSafe now mirror m (stopped (elf_failed code) b) h = h.0
  Launched-IsSafe now mirror m (stopped (imem_mismatch errors) b) h = h.0
  Launched-IsSafe now mirror m (released b) h = (h.0, h.3, omega arith, h.7)

  Launched-Rebooted :
      (now : ℕ) (mirror : Mirror) (m : Store) (l : Launch X S)
      → Launched hdmi_putc elf elf_size program kernel m l
      → Rebooted (start_monitor now mirror l)
  unfolding start_monitor
  Launched-Rebooted now mirror m (stopped artifacts_missing b) h = h.0
  Launched-Rebooted now mirror m (stopped ring_outside b) h = h.0
  Launched-Rebooted now mirror m (stopped (elf_failed code) b) h = h.0
  Launched-Rebooted now mirror m (stopped (imem_mismatch errors) b) h = h.0
  Launched-Rebooted now mirror m (released b) h = (h.5, refl, refl, refl, refl, refl)

module _ {X S : Type 0} (xadc_in : ℕ → X → ℕ × X) (xadc_out : ℕ → ℕ → X → X) (get_time : X → ℕ × X)
    (hdmi_putc : ℕ → S → S) (init : S → S) (elf : Store) (elf_size : ℕ) (program : List ℕ)
    (receive : Receiver X) (per_second : ℕ) (uart_putc : ℕ → S → S) (confined : Confined elf)
    (short : length program ≤ 4096) where
  abbrev Moves : Main X S → Main X S → Type 0
  Moves =
      Step xadc_in xadc_out get_time hdmi_putc init elf elf_size program receive per_second
        uart_putc

  Step-IsSafe : (kernel : Store) {s t : Main X S} → Moves s t → Found kernel s → IsSafe kernel t
  unfolding boot_step
  Step-IsSafe kernel (boot b mirror) found =
      Launched-IsSafe hdmi_putc elf elf_size program kernel _ mirror _ _ (
        boot_linux_lem xadc_in xadc_out hdmi_putc init elf elf_size program kernel _ confined short
          found)
  Step-IsSafe kernel (linux m mem' keeps same) safe =
      (keeps ∙ safe.0, safe.1, safe.2, Saved-SameBackup kernel m.board.mem mem' same safe.3)
  Step-IsSafe kernel (round m) safe =
      Ends-IsSafe kernel m _ safe (
        monitor_round_lem xadc_in xadc_out get_time per_second receive hdmi_putc uart_putc m safe.2)

  Steps-Found :
      (kernel : Store) {s t : Main X S}
      → Found kernel s
      → Reach xadc_in xadc_out get_time hdmi_putc init elf elf_size program receive per_second
          uart_putc s t
      → Found kernel t
  Steps-Found kernel found here = found
  Steps-Found kernel found (next r st) =
      IsSafe-Found kernel _ (Step-IsSafe kernel st (Steps-Found kernel found r))

  -- With a firmware that lies in instruction memory and at most 4096 words of program: after one step or
  -- more from power-up, where nothing has been backed up, over any number of boots and reboots and whatever
  -- Linux does to the memory but for the CPU's own control and the backup, which is reserved: where a boot
  -- has been given up, and at a restart, the CPU is held in reset; where the monitor watches, the CPU runs,
  -- and fewer than 512 reports have been counted, so that the last branch of the loop's delays is never
  -- taken; and at a restart, where the monitor watches and where it has stopped, the backup is noted and
  -- holds every word of the kernel's 19 MiB as they were at power-up.
  pub Reach-IsSafe :
      {s t : Main X S} (b : Board X S) (mirror : Mirror)
      → b.backed_up ≡ false
      → Reach xadc_in xadc_out get_time hdmi_putc init elf elf_size program receive per_second
          uart_putc
          (booting b mirror)
          s
      → Step xadc_in xadc_out get_time hdmi_putc init elf elf_size program receive per_second
          uart_putc s t
      → IsSafe b.mem t
  Reach-IsSafe b mirror first r st =
      Step-IsSafe b.mem st (Steps-Found b.mem (inl (first, λ a lo hi whole. refl)) r)

  -- With a firmware that lies in instruction memory, at most 4096 words of program and fewer than 512
  -- reports counted: a request to reboot is served by the next round, and once: the round leads to a boot
  -- with the CPU held, and that boot either gives up, with the CPU still held, or goes on to watch Linux
  -- with an empty mailbox, which holds no request any more, and with nothing counted or announced yet.
  pub reboot_lem :
      (m : Monitor X S)
      → m.report_count < boot_watchdog_reports
      → m.board.mem reset_magic ≡ reset_magic_value
      → (b : Board X S) × (mirror : Mirror) × (next_state
            (monitor_round xadc_in xadc_out get_time per_second receive hdmi_putc uart_putc m)
          ≡ booting b mirror)
        × (b.mem cpu_ctrl ≡ 1)
        × Rebooted
            (boot_step xadc_in xadc_out get_time hdmi_putc init elf elf_size program b mirror)
  unfolding boot_step
  reboot_lem m bounded magic =
      let (b, mirror, leads, held) = restarts m _ magic (
        monitor_round_lem xadc_in xadc_out get_time per_second receive hdmi_putc uart_putc m
          bounded) in
      let (kernel, found) = kernel-Preserved b.backed_up b.mem in
      (
        b,
        mirror,
        leads,
        held,
        Launched-Rebooted hdmi_putc elf elf_size program kernel _ mirror _ _ (
            boot_linux_lem xadc_in xadc_out hdmi_putc init elf elf_size program kernel _ confined
              short found),
      )
