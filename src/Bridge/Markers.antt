-- ===== src/Bridge/Markers.antt =====
-- The markers that `print_linux_console_mirror` (hw_bringup/ps_linux_boot.c) looks for.
pub mod Found
use zynq_cpu.Base.{ℕ, ◌+◌, ◌==◌, if◌then◌else◌, Bool, true, false, List, codes, length}
use zynq_cpu.Console.Writer.{char_at}

abbrev pub idle_marker : List ℕ
idle_marker = codes "[zx32-init] idle"

abbrev pub welcome_marker : List ℕ
welcome_marker = codes "Welcome to Buildroot"

abbrev pub login_marker : List ℕ
login_marker = codes "buildroot login:"

abbrev pub diag_marker : List ℕ
diag_marker = codes "[zx32-diag]"

-- One byte: the characters of the marker that are matched after it, and whether the marker is
-- complete.
unfoldable pub match_step : List ℕ → ℕ → ℕ → ℕ × Bool
match_step marker matched ch =
    if ch == char_at marker matched
    then (if matched + 1 == length marker then (0, true) else (matched + 1, false))
    else (if ch == char_at marker 0 then 1 else 0, false)
