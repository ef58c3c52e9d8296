-- ===== src/Temperature.antt =====
-- The chip's temperature for Linux (hw_bringup/ps_linux_boot.c, `xadcif_read_internal`,
-- `xadc_raw_to_millic` and `publish_zynq_temperature`), over any device with reads and writes.
pub mod Publish
mod Tests
use zynq_cpu.Base.{
  ℕ, zero, suc, ◌+◌, ◌-◌, ◌*◌, ◌/◌, ◌%◌, ◌^◌, word, add32, sub32, shl32, bit_and, bit_or, ◌==◌, not,
  if◌then◌else◌, Bool, true, false, Option, none, some,
}

abbrev pub xadcif_base : ℕ
xadcif_base = 0xF8007100

abbrev pub xadcif_msts : ℕ
xadcif_msts = xadcif_base + 0x0C

abbrev pub xadcif_cmdfifo : ℕ
xadcif_cmdfifo = xadcif_base + 0x10

abbrev pub xadcif_rdfifo : ℕ
xadcif_rdfifo = xadcif_base + 0x14

-- ZYNQ_CPU_CTRL_BASE
abbrev pub ctrl_base : ℕ
ctrl_base = 0x43C20000 + 0x7000

abbrev pub sysmon_status : ℕ
sysmon_status = ctrl_base + 0xEC

abbrev pub sysmon_temp_raw : ℕ
sysmon_temp_raw = ctrl_base + 0xF0

abbrev pub sysmon_temp_mc : ℕ
sysmon_temp_mc = ctrl_base + 0xF4

abbrev pub sysmon_sample_seq : ℕ
sysmon_sample_seq = ctrl_base + 0xF8

-- Millidegrees as the 32 bits of an `int`: the sum and the product have 64 bits.
unfoldable pub xadc_raw_to_millic : ℕ → ℕ
xadc_raw_to_millic raw =
    sub32 ((bit_and raw 0xffff * 503975 + 32768) % 2 ^ 64 / 65536 % 2 ^ 32) 273150

-- `in32` is what `Xil_In32` reads and the device after the read, and `out32` the device after
-- `Xil_Out32`.
module _ {D : Type 0} (in32 : ℕ → D → ℕ × D) (out32 : ℕ → ℕ → D → D) where
  -- Up to `n` reads of the status, until `mask` is clear: whether it was, and the device.
  unfoldable pub wait_clear : ℕ → ℕ → D → Bool × D
  wait_clear mask zero d = (false, d)
  wait_clear mask (suc n) d =
      let r = in32 xadcif_msts d in
      let rest = wait_clear mask n r.1 in if bit_and r.0 mask == 0 then (true, r.1) else rest

  -- The value, or none for -1.
  unfoldable pub xadcif_read_internal : ℕ → D → Option ℕ × D
  xadcif_read_internal reg d =
      let cmd = bit_or 0x04000000 (shl32 (bit_and reg 0x3ff) 16) in
      let (ready, d1) = wait_clear 0x00000800 10000 d in
      let d2 = (in32 xadcif_rdfifo (out32 xadcif_cmdfifo cmd d1)).1 in
      let (filled, d3) = wait_clear 0x00000100 10000 (out32 xadcif_cmdfifo 0 d2) in
      let (value, d4) = in32 xadcif_rdfifo d3 in
      if not ready
      then (none, d1)
      else if filled
      then (some (bit_and value 0xffff), d4)
      else (none, d3)

  -- The registers that Linux reads; the sample number goes up with each sample.
  unfoldable pub publish_sample : Option ℕ → ℕ → D → ℕ × D
  publish_sample none seq d = (seq, out32 sysmon_status 2 d)
  publish_sample (some raw) seq d =
      let d1 = out32 sysmon_temp_mc (xadc_raw_to_millic raw) (out32 sysmon_temp_raw raw d) in
      (add32 seq 1, out32 sysmon_status 3 (out32 sysmon_sample_seq (add32 seq 1) d1))

  unfoldable pub publish_zynq_temperature : ℕ → D → ℕ × D
  publish_zynq_temperature seq d =
      let d1 = out32 (xadcif_base + 0x34) 0x757BDF0D d in
      let (cfg, d2) = in32 xadcif_base d1 in
      let d3 = out32 xadcif_base (bit_or (bit_or cfg 0x80000000) 0x00FF0000) d2 in
      let (sample, d4) = xadcif_read_internal 0 (out32 (xadcif_base + 0x18) 0 d3) in
      publish_sample sample seq d4
