-- ===== src/Boot/Monitor/Slcr.antt =====
-- The system-level control registers that `pulse_pl_reset` writes, as Zynq documents them, and the control
-- of the PL CPU, beside the memory (hw_bringup/ps_linux_boot.c): a key unlocks them and another locks them, and the four resets of the
-- logic are asserted by ones in a register that is written only while they are unlocked.
use zynq_cpu.Base.{
  ℕ, ◌+◌, ◌≡◌, refl, Store, update, ◌==◌, not, ◌&&◌, if◌then◌else◌, Bool, true, false,
}
use zynq_cpu.Boot.Monitor.{
  slcr_lock, slcr_unlock, slcr_fpga_rst_ctrl, pulse_pl_reset, hold_and_reset,
}
use zynq_cpu.Boot.Words.{cpu_ctrl}

-- `resets` counts the full resets with the PL CPU held: all four asserted, and then all four released.
pub record Slcr : Type 0 where
  pub running : Bool
  pub locked : Bool
  pub asserted : Bool
  pub resets : ℕ

abbrev pub slcr_out : ℕ → ℕ → Slcr → Slcr
slcr_out a v s =
    if a == cpu_ctrl
    then record s { running = v == 0 }
    else if a == slcr_unlock && v == 0xDF0D
    then record s { locked = false }
    else if a == slcr_lock && v == 0x767B
    then record s { locked = true }
    else if a == slcr_fpga_rst_ctrl && not s.locked
    then record s {
      asserted = v == 0xF;
      resets = if s.asserted && (v == 0 && not s.running) then s.resets + 1 else s.resets;
    }
    else s

abbrev pub watched_out : ℕ → ℕ → Store × Slcr → Store × Slcr
watched_out a v (m, s) = (update a v m, slcr_out a v s)

-- The reset registers locked, with no reset asserted.
abbrev pub at_rest : Bool → ℕ → Slcr
at_rest running n = record { running = running; locked = true; asserted = false; resets = n }

-- The writes are one full reset with the CPU held, and leave the registers at rest.
pub hold_and_reset_lem :
    (running : Bool) (n : ℕ) (m : Store)
    → hold_and_reset watched_out (m, at_rest running n)
      ≡ (hold_and_reset update m, at_rest false (n + 1))
unfolding hold_and_reset pulse_pl_reset update
hold_and_reset_lem running n m = refl
