-- ===== src/Boot/Monitor.antt =====
-- The boot monitor (hw_bringup/ps_linux_boot.c, the loop of `main`, and `pulse_pl_reset`), as it is
-- built by default, with ZX32_LINUX_BOOT_TRACE at 0: the branches that only trace are left out, with
-- the variables that only they read, and so are the delays of
-- `pulse_pl_reset` and what `xil_printf` sends to the UART.
mod Keeps
mod Leaves
mod Slcr
pub mod Rounds
pub mod States
mod Tests
use zynq_cpu.Base.{
  ℕ, zero, suc, ◌+◌, ◌*◌, ◌^◌, Store, update, add32, for_range, bit_and, ltb, leb, ◌==◌, not, ◌&&◌,
  ◌||◌, if◌then◌else◌, Bool, true, false, List, [], ◌∷◌, codes, some, ◌≡◌,
}
use zynq_cpu.Console.Writer.{diag_line, diag_kv_hex, diag_elapsed, boot_elapsed_ms}
use zynq_cpu.Mailbox.{mail_status}
use zynq_cpu.Bridge.Input.{Receiver, pump_linux_console_input}
use zynq_cpu.Bridge.Mirror.{Mirror}
use zynq_cpu.Bridge.Mirror.Loop.{Mirrored, print_linux_console_mirror}
use zynq_cpu.Boot.Launch.{
  Board, Launch, Fault, stopped, released, publish, boot_linux, green, yellow,
}
use zynq_cpu.Boot.Launch.Saved.{SameBackup}
use zynq_cpu.Boot.Words.{cpu_ctrl, reset_type, reset_reason, reset_magic}

-- The variables of `main` that a boot starts afresh, with the board and the static variables of the
-- mirror, which outlive a boot.
pub record Monitor (X S : Type 0) : Type 0 where
  pub board : Board X S
  pub mirror : Mirror
  pub last_console_total : ℕ
  pub console_started : Bool
  pub userspace_idle_seen : Bool
  pub welcome_seen : Bool
  pub login_seen : Bool
  pub report_count : ℕ
  pub boot_start_time : ℕ
  pub last_sysmon_time : ℕ

-- How a round ends: with `goto restart_linux_boot`, with the endless loop after a trap of the
-- firmware, or with the next round.
pub data Round (X S : Type 0) : Type 0 where
  restart : Board X S → Mirror → Round X S
  halted : Monitor X S → Round X S
  again : Monitor X S → Round X S

-- CPU_LINUX_RESET_MAGIC_VALUE and CPU_STATUS_FAIL
abbrev pub reset_magic_value : ℕ
reset_magic_value = 0x53525354

abbrev pub status_fail : ℕ
status_fail = 0x333

abbrev pub boot_watchdog_reports : ℕ
boot_watchdog_reports = 512

abbrev pub slcr_lock : ℕ
slcr_lock = 0xF8000004

abbrev pub slcr_unlock : ℕ
slcr_unlock = 0xF8000008

abbrev pub slcr_fpga_rst_ctrl : ℕ
slcr_fpga_rst_ctrl = 0xF8000240

-- The writes in order, on any machine with registers; the delays between them are left out.
unfoldable pub pulse_pl_reset : {D : Type 0} → (ℕ → ℕ → D → D) → D → D
pulse_pl_reset out32 d =
    let d1 = out32 slcr_unlock 0xDF0D d in
    let d2 = out32 slcr_fpga_rst_ctrl 0xF d1 in
    let d3 = out32 slcr_fpga_rst_ctrl 0 d2 in out32 slcr_lock 0x767B d3

-- The PL CPU is held, and then the logic reset.
unfoldable pub hold_and_reset : {D : Type 0} → (ℕ → ℕ → D → D) → D → D
hold_and_reset out32 d = pulse_pl_reset out32 (out32 cpu_ctrl 1 d)

-- `receive` is the UART's receiver.
module _ {X S : Type 0} (receive : Receiver X) where
  unfoldable pub pump : Board X S → Board X S
  pump b =
      let (mem', x) = pump_linux_console_input receive b.mem b.hardware in
      record b { mem = mem'; hardware = x }

  -- for (delay = 0; delay < 200000; delay++), with a look at the UART every 1024 rounds.
  unfoldable pub active_delay : Board X S → Board X S
  active_delay = for_range 200000 0 (λ delay b. if bit_and delay 0x3ff == 0 then pump b else b)

  -- `idle` is `monitor_idle`, as it stood at the start of the round.
  unfoldable pub pause : Bool → Monitor X S → Monitor X S
  pause idle m =
      let count = add32 m.report_count 1 in
      let delayed = record m { board = active_delay m.board } in
      if idle
      then record m { board = pump m.board }
      else if ltb m.report_count boot_watchdog_reports
      then record delayed { report_count = if count == boot_watchdog_reports then 0 else count }
      else delayed

module _ {X S : Type 0} (hdmi_putc uart_putc : ℕ → S → S) where
  -- The mirror on the monitor's state: its events are the second part.
  unfoldable pub show_output : Monitor X S → Monitor X S × ℕ
  show_output m =
      let r = print_linux_console_mirror hdmi_putc uart_putc (record {
        mirror = m.mirror;
        last_total = m.last_console_total;
        started = m.console_started;
        scratch = m.board.mem;
        sink = m.board.sink;
        events = 0;
      }) in
      (
        record m {
          board = record m.board { mem = r.scratch; sink = r.sink };
          mirror = r.mirror;
          last_console_total = r.last_total;
          console_started = r.started;
        },
        r.events,
      )

-- `get_time` is `XTime_GetTime`; the timer counts `per_second` times a second.
module _ {X S : Type 0} (get_time : X → ℕ × X) (per_second : ℕ) (hdmi_putc : ℕ → S → S) where
  -- The time since the start of the boot, on the HDMI console.
  unfoldable pub tell_elapsed : List ℕ → Monitor X S → Monitor X S
  tell_elapsed label m =
      let (now, x) = get_time m.board.hardware in
      let ms = boot_elapsed_ms per_second m.boot_start_time now in
      record m {
        board = record m.board {
          hardware = x;
          sink = diag_elapsed hdmi_putc label ms m.board.sink;
        };
      }

  unfoldable pub announce_welcome : ℕ → Monitor X S → Monitor X S
  announce_welcome events m =
      if not (bit_and events 2 == 0) && not m.welcome_seen
      then tell_elapsed (codes "Welcome to Buildroot") (record m { welcome_seen = true })
      else m

  unfoldable pub announce_login : ℕ → Monitor X S → Monitor X S
  announce_login events m =
      if not (bit_and events 4 == 0) && not m.login_seen
      then tell_elapsed (codes "buildroot login") (record m { login_seen = true })
      else m

  unfoldable pub announce_idle : ℕ → Monitor X S → Monitor X S
  announce_idle events m =
      if not (bit_and events 1 == 0) && not m.userspace_idle_seen
      then record m {
        userspace_idle_seen = true;
        board = record m.board {
          sink =
              diag_line hdmi_putc green (codes "OK") (codes "userspace idle marker reached")
                m.board.sink;
        };
      }
      else m

  unfoldable pub announce : ℕ → Monitor X S → Monitor X S
  announce events m = announce_idle events (announce_login events (announce_welcome events m))

  -- A reboot that Linux asked for: the CPU is held, and the logic reset.
  unfoldable pub serve_reboot : Monitor X S → Board X S
  serve_reboot m =
      let m1 = tell_elapsed (codes "Linux reboot requested") m in
      let b = m1.board in
      record b {
        sink =
            diag_kv_hex hdmi_putc yellow (codes "WARN") (codes "reset_type") (b.mem reset_type)
              (some (codes "reason")) (b.mem reset_reason) b.sink;
        mem = hold_and_reset update b.mem;
      }

module _ {X S : Type 0} (xadc_in : ℕ → X → ℕ × X) (xadc_out : ℕ → ℕ → X → X) (get_time : X → ℕ × X)
    (per_second : ℕ) where
  -- Once a second.
  unfoldable pub sample_temperature : Monitor X S → Monitor X S
  sample_temperature m =
      let (now, x) = get_time m.board.hardware in
      let b = record m.board { hardware = x } in
      if leb 1000 (boot_elapsed_ms per_second m.last_sysmon_time now)
      then record m { board = publish xadc_in xadc_out b; last_sysmon_time = now }
      else record m { board = b }

  module _ (receive : Receiver X) (hdmi_putc uart_putc : ℕ → S → S) where
    unfoldable pub monitor_round : Monitor X S → Round X S
    monitor_round m =
        let status = m.board.mem mail_status in
        let idle = m.userspace_idle_seen || m.login_seen in
        let (m1, events) =
          show_output hdmi_putc uart_putc (record m { board = pump receive m.board }) in
        let m2 = announce get_time per_second hdmi_putc events m1 in
        if m2.board.mem reset_magic == reset_magic_value
        then restart (serve_reboot get_time per_second hdmi_putc m2) m2.mirror
        else if status == status_fail
        then halted m2
        else again (pause receive idle (sample_temperature m2))

-- The states of the program.
pub data Main (X S : Type 0) : Type 0 where
  booting : Board X S → Mirror → Main X S
  given_up : Fault → Board X S → Main X S
  monitoring : Monitor X S → Main X S
  trapped : Monitor X S → Main X S

module _ {X S : Type 0} where
  unfoldable pub start_monitor : ℕ → Mirror → Launch X S → Main X S
  start_monitor now mirror (stopped fault b) = given_up fault b
  start_monitor now mirror (released b) = monitoring (record {
    board = b;
    mirror = mirror;
    last_console_total = 0;
    console_started = false;
    userspace_idle_seen = false;
    welcome_seen = false;
    login_seen = false;
    report_count = 0;
    boot_start_time = now;
    last_sysmon_time = now;
  })

  unfoldable pub next_state : Round X S → Main X S
  next_state (restart b mirror) = booting b mirror
  next_state (halted m) = trapped m
  next_state (again m) = monitoring m

module _ {X S : Type 0} (xadc_in : ℕ → X → ℕ × X) (xadc_out : ℕ → ℕ → X → X) (get_time : X → ℕ × X)
    (hdmi_putc : ℕ → S → S) (init : S → S) (elf : Store) (elf_size : ℕ) (program : List ℕ) where
  unfoldable pub boot_step : Board X S → Mirror → Main X S
  boot_step b mirror =
      let (now, x) = get_time b.hardware in
      start_monitor now mirror (
        boot_linux xadc_in xadc_out hdmi_putc init elf elf_size program (record b { hardware = x }))

  module _ (receive : Receiver X) (per_second : ℕ) (uart_putc : ℕ → S → S) where
    -- Between two rounds the PL CPU may leave any memory that keeps it out of reset and the backup as it
    -- is: the device tree of Linux reserves the backup, as a region that is not mapped.
    pub data Step : Main X S → Main X S → Type 0 where
      boot : (b : Board X S) (mirror : Mirror) → Step (booting b mirror) (boot_step b mirror)
      linux :
          (m : Monitor X S) (mem' : Store)
          → mem' cpu_ctrl ≡ m.board.mem cpu_ctrl
          → SameBackup m.board.mem mem'
          → Step (monitoring m) (monitoring (record m { board = record m.board { mem = mem' } }))
      round :
          (m : Monitor X S)
          → Step (monitoring m) (
              next_state
                (monitor_round xadc_in xadc_out get_time per_second receive hdmi_putc uart_putc m))

    pub data Reach (s : Main X S) : Main X S → Type 0 where
      here : Reach s s
      next : {t u : Main X S} → Reach s t → Step t u → Reach s u
