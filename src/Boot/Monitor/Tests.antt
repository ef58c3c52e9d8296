-- ===== src/Boot/Monitor/Tests.antt =====
-- The launcher's and the monitor's theorems at a concrete board.
use zynq_cpu.Base.{
  ℕ, zero, suc, ◌≡◌, refl, u8, ◌==◌, if◌then◌else◌, true, false, List, [], ◌∷◌, Option, none, some,
  arith,
}
use zynq_cpu.Bridge.Mirror.{Mirror}
use zynq_cpu.Loader.{read_u16_le, read_u32_le, read_segment}
use zynq_cpu.Loader.Tests.{elf, zeros}
use zynq_cpu.Boot.Launch.{Board}
use zynq_cpu.Boot.Words.{cpu_ctrl, reset_magic}
use zynq_cpu.Boot.Launch.Keeps.{Confined}
use zynq_cpu.Boot.Monitor.Rounds.{Ends, monitor_round_lem}
use zynq_cpu.Boot.Monitor.States.{IsSafe, Rebooted, Reach-IsSafe, reboot_lem}
use zynq_cpu.Boot.Monitor.{
  Monitor, booting, reset_magic_value, monitor_round, boot_step, next_state, here, boot,
}

-- The rest of the hardware is the bytes that the UART still has; the timer stands still, and the
-- sensor reads as zero.
abbrev xadc_in : ℕ → List ℕ → ℕ × List ℕ
xadc_in a x = (0, x)

abbrev xadc_out : ℕ → ℕ → List ℕ → List ℕ
xadc_out a v x = x

abbrev get_time : List ℕ → ℕ × List ℕ
get_time x = (0, x)

abbrev receive : List ℕ → Option (ℕ × List ℕ)
receive [] = none
receive (c ∷ cs) = some (u8 c, cs)

abbrev show : ℕ → List ℕ → List ℕ
show c out = c ∷ out

abbrev clear : List ℕ → List ℕ
clear out = []

abbrev firmware : List ℕ
firmware = 0 ∷ 0 ∷ 0 ∷ 0 ∷ 0x04030201 ∷ 0 ∷ []

elf-Confined : Confined elf
unfolding read_u16_le read_u32_le read_segment
elf-Confined zero lt load = omega arith
elf-Confined (suc j) lt load = absurd (omega arith)

abbrev board : Board (List ℕ) (List ℕ)
board = record {
  mem = zeros;
  hardware = 65 ∷ [];
  sink = [];
  boot_count = 0;
  backed_up = false;
  sample_seq = 0;
}

abbrev quiet : Mirror
quiet = record {
  idle_match = 0;
  welcome_match = 0;
  login_match = 0;
  diag_match = 0;
  at_line_start = true;
  diag_scan = true;
  colored_line = false;
  hdmi_colored_line = false;
  loglevel_match = 0;
}

-- Linux has asked for a reboot.
abbrev asked : Monitor (List ℕ) (List ℕ)
asked = record {
  board = record board {
    mem = λ a. if a == reset_magic then reset_magic_value else 0;
    backed_up = true;
  };
  mirror = quiet;
  last_console_total = 0;
  console_started = true;
  userspace_idle_seen = true;
  welcome_seen = true;
  login_seen = true;
  report_count = 7;
  boot_start_time = 0;
  last_sysmon_time = 0;
}

monitor_round_lem_example :
    Ends asked (monitor_round xadc_in xadc_out get_time 1000 receive show show asked)
monitor_round_lem_example =
    monitor_round_lem xadc_in xadc_out get_time 1000 receive show show asked (omega arith)

Reach-IsSafe_example :
    IsSafe zeros (boot_step xadc_in xadc_out get_time show clear elf 88 firmware board quiet)
Reach-IsSafe_example =
    Reach-IsSafe xadc_in xadc_out get_time show clear elf 88 firmware receive 1000 show elf-Confined
      (omega arith) board quiet refl here (boot board quiet)

reboot_lem_example :
    (b : Board (List ℕ) (List ℕ)) × (mirror : Mirror) × (next_state
        (monitor_round xadc_in xadc_out get_time 1000 receive show show asked)
      ≡ booting b mirror)
    × (b.mem cpu_ctrl ≡ 1)
    × Rebooted (boot_step xadc_in xadc_out get_time show clear elf 88 firmware b mirror)
reboot_lem_example =
    reboot_lem xadc_in xadc_out get_time show clear elf 88 firmware receive 1000 show elf-Confined
      (omega arith) asked (omega arith) refl
