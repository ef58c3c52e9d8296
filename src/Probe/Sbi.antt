-- ===== src/Probe/Sbi.antt =====
-- The smoke tests of the SBI shim (hw_bringup/ps_uart_probe_sbi.c), each with the payload and the firmware
-- of the build and the address of the payload's array in DDR as parameters.
use zynq_cpu.Base.{ℕ, Store, add32, ltb, if◌then◌else◌, Bool, false, List, [], ◌∷◌, ◌++◌, length}
use zynq_cpu.Console.Writer.{char_at}
use zynq_cpu.Mailbox.{mail_status}
use zynq_cpu.Boot.Words.{cpu_ctrl}
use zynq_cpu.Probe.Registers.Sbi.{
  sbi_payload_entry, sbi_dtb_addr, sbi_mcause, sbi_mepc, sbi_eid, sbi_arg0, sbi_marker, sbi_hartid,
  sbi_payload_dtb, sbi_retval, sbi_timer_entry, sbi_timer_dtb, sbi_timer_mcause, sbi_timer_mepc,
  sbi_timer_eid, sbi_timer_fid, sbi_timer_arg0, sbi_timer_cmp_lo, sbi_timer_cmp_hi,
  sbi_timer_hartid, sbi_timer_pay_dtb, sbi_timer_retval, sbi_timer_scause, sbi_timer_sepc,
  sbi_timer_sie, sbi_timer_sip, sbi_timer_sstatus, sbi_timer_time0, sbi_timer_time1,
  linux_sbi_entry, linux_sbi_dtb, linux_sbi_mcause, linux_sbi_mepc, linux_sbi_last_eid,
  linux_sbi_last_fid, linux_sbi_last_arg0, linux_sbi_last_err, linux_sbi_last_value,
  linux_sbi_hartid, linux_sbi_payload_dtb, linux_sbi_spec_err, linux_sbi_spec_value,
  linux_sbi_probe_err, linux_sbi_probe_value, linux_sbi_console_char, linux_sbi_timer_err,
  linux_sbi_timer_value, linux_sbi_cmp_lo, linux_sbi_cmp_hi, linux_sbi_scause, linux_sbi_sepc,
  linux_sbi_sie, linux_sbi_sip, linux_sbi_sstatus, linux_sbi_time0, linux_sbi_time1,
}
use zynq_cpu.Probe.{
  Bench, Firmware, Check, is, nonzero, has_bits, unchecked, or_fail, or_read_again, zeros_at,
  words_at, nothing_else, run_check,
}
use zynq_cpu.Probe.Cpu.{cpu_addr}

abbrev pub sbi_payload_words : ℕ
sbi_payload_words = 128

abbrev pub sbi_smoke : ℕ → List ℕ → Firmware → Check
sbi_smoke at payload firmware = record {
  prepare =
      (zeros_at at sbi_payload_words ++ words_at at payload)
      ++ ((cpu_ctrl, 1)
          ∷ (sbi_payload_entry, cpu_addr at)
          ∷ (sbi_dtb_addr, add32 (cpu_addr at) 0x1000)
          ∷ (sbi_mcause, 0)
          ∷ (sbi_mepc, 0)
          ∷ (sbi_eid, 0)
          ∷ (sbi_arg0, 0)
          ∷ (sbi_marker, 0)
          ∷ (sbi_hartid, 0xFFFF_FFFF)
          ∷ (sbi_payload_dtb, 0)
          ∷ (sbi_retval, 0xFFFF_FFFF)
          ∷ (mail_status, 0)
          ∷ []);
  firmware = firmware;
  late = [];
  wait = or_fail [];
  wants =
      (sbi_mcause, is 9)
      ∷ (sbi_mepc, is (add32 (cpu_addr at) 24))
      ∷ (sbi_eid, is 1)
      ∷ (sbi_arg0, is 0x12345678)
      ∷ (sbi_marker, is 0x53424921)
      ∷ (sbi_hartid, is 0)
      ∷ (sbi_payload_dtb, is (add32 (cpu_addr at) 0x1000))
      ∷ (sbi_retval, is 0)
      ∷ [];
  also = nothing_else;
}

abbrev pub sbi_timer_smoke : ℕ → List ℕ → Firmware → Check
sbi_timer_smoke at payload firmware = record {
  prepare =
      (zeros_at at sbi_payload_words ++ words_at at payload)
      ++ ((cpu_ctrl, 1)
          ∷ (sbi_timer_entry, cpu_addr at)
          ∷ (sbi_timer_dtb, add32 (cpu_addr at) 0x1000)
          ∷ (sbi_timer_mcause, 0)
          ∷ (sbi_timer_mepc, 0)
          ∷ (sbi_timer_eid, 0)
          ∷ (sbi_timer_fid, 0xFFFF_FFFF)
          ∷ (sbi_timer_arg0, 0)
          ∷ (sbi_timer_cmp_lo, 0)
          ∷ (sbi_timer_cmp_hi, 0)
          ∷ (sbi_timer_hartid, 0xFFFF_FFFF)
          ∷ (sbi_timer_pay_dtb, 0)
          ∷ (sbi_timer_retval, 0xFFFF_FFFF)
          ∷ (sbi_timer_scause, 0)
          ∷ (sbi_timer_sepc, 0)
          ∷ (sbi_timer_sie, 0)
          ∷ (sbi_timer_sip, 0)
          ∷ (sbi_timer_sstatus, 0)
          ∷ (sbi_timer_time0, 0)
          ∷ (sbi_timer_time1, 0)
          ∷ (mail_status, 0)
          ∷ []);
  firmware = firmware;
  late = [];
  wait = or_read_again;
  wants =
      (sbi_timer_mcause, is 9)
      ∷ (sbi_timer_mepc, unchecked)
      ∷ (sbi_timer_eid, is 0x54494D45)
      ∷ (sbi_timer_fid, is 0)
      ∷ (sbi_timer_arg0, unchecked)
      ∷ (sbi_timer_cmp_lo, unchecked)
      ∷ (sbi_timer_cmp_hi, unchecked)
      ∷ (sbi_timer_hartid, is 0)
      ∷ (sbi_timer_pay_dtb, is (add32 (cpu_addr at) 0x1000))
      ∷ (sbi_timer_retval, is 0)
      ∷ (sbi_timer_scause, is 0x80000005)
      ∷ (sbi_timer_sepc, unchecked)
      ∷ (sbi_timer_sie, unchecked)
      ∷ (sbi_timer_sip, unchecked)
      ∷ (sbi_timer_sstatus, unchecked)
      ∷ (sbi_timer_time0, unchecked)
      ∷ (sbi_timer_time1, unchecked)
      ∷ [];
  also = nothing_else;
}

-- The time at the end is past the time at the start.
abbrev pub time_advances : List ℕ → Bool
time_advances words = ltb (char_at words 23) (char_at words 24)

abbrev pub linux_sbi_smoke : ℕ → List ℕ → Firmware → Check
linux_sbi_smoke at payload firmware = record {
  prepare =
      (zeros_at at sbi_payload_words ++ words_at at payload)
      ++ ((cpu_ctrl, 1)
          ∷ (linux_sbi_entry, cpu_addr at)
          ∷ (linux_sbi_dtb, add32 (cpu_addr at) 0x1000)
          ∷ (linux_sbi_mcause, 0)
          ∷ (linux_sbi_mepc, 0)
          ∷ (linux_sbi_last_eid, 0)
          ∷ (linux_sbi_last_fid, 0xFFFF_FFFF)
          ∷ (linux_sbi_last_arg0, 0)
          ∷ (linux_sbi_last_err, 0xFFFF_FFFF)
          ∷ (linux_sbi_last_value, 0xFFFF_FFFF)
          ∷ (linux_sbi_hartid, 0xFFFF_FFFF)
          ∷ (linux_sbi_payload_dtb, 0)
          ∷ (linux_sbi_spec_err, 0xFFFF_FFFF)
          ∷ (linux_sbi_spec_value, 0xFFFF_FFFF)
          ∷ (linux_sbi_probe_err, 0xFFFF_FFFF)
          ∷ (linux_sbi_probe_value, 0xFFFF_FFFF)
          ∷ (linux_sbi_console_char, 0)
          ∷ (linux_sbi_timer_err, 0xFFFF_FFFF)
          ∷ (linux_sbi_timer_value, 0xFFFF_FFFF)
          ∷ (linux_sbi_cmp_lo, 0)
          ∷ (linux_sbi_cmp_hi, 0)
          ∷ (linux_sbi_scause, 0)
          ∷ (linux_sbi_sepc, 0)
          ∷ (linux_sbi_sie, 0)
          ∷ (linux_sbi_sip, 0)
          ∷ (linux_sbi_sstatus, 0)
          ∷ (linux_sbi_time0, 0)
          ∷ (linux_sbi_time1, 0)
          ∷ (mail_status, 0)
          ∷ []);
  firmware = firmware;
  late = [];
  wait = or_read_again;
  wants =
      (linux_sbi_mcause, is 9)
      ∷ (linux_sbi_mepc, unchecked)
      ∷ (linux_sbi_last_eid, is 0x54494D45)
      ∷ (linux_sbi_last_fid, is 0)
      ∷ (linux_sbi_last_arg0, unchecked)
      ∷ (linux_sbi_last_err, is 0)
      ∷ (linux_sbi_last_value, is 0)
      ∷ (linux_sbi_hartid, is 0)
      ∷ (linux_sbi_payload_dtb, is (add32 (cpu_addr at) 0x1000))
      ∷ (linux_sbi_spec_err, is 0)
      ∷ (linux_sbi_spec_value, is 2)
      ∷ (linux_sbi_probe_err, is 0)
      ∷ (linux_sbi_probe_value, is 1)
      ∷ (linux_sbi_console_char, is 0x5A)
      ∷ (linux_sbi_timer_err, is 0)
      ∷ (linux_sbi_timer_value, is 0)
      ∷ (linux_sbi_cmp_lo, nonzero)
      ∷ (linux_sbi_cmp_hi, is 0)
      ∷ (linux_sbi_scause, is 0x80000005)
      ∷ (linux_sbi_sepc, nonzero)
      ∷ (linux_sbi_sie, has_bits 0x20)
      ∷ (linux_sbi_sip, unchecked)
      ∷ (linux_sbi_sstatus, unchecked)
      ∷ (linux_sbi_time0, unchecked)
      ∷ (linux_sbi_time1, unchecked)
      ∷ [];
  also = time_advances;
}

module _ {D : Type 0} (b : Bench D) (at : ℕ) (payload : List ℕ) (firmware : Firmware) where
  unfoldable pub run_cpu_sbi_smoke_test : Store → Bool × Store
  run_cpu_sbi_smoke_test m =
      if ltb sbi_payload_words (length payload)
      then (false, m)
      else run_check b (sbi_smoke at payload firmware) m

  unfoldable pub run_cpu_sbi_timer_smoke_test : Store → Bool × Store
  run_cpu_sbi_timer_smoke_test m =
      if ltb sbi_payload_words (length payload)
      then (false, m)
      else run_check b (sbi_timer_smoke at payload firmware) m

  unfoldable pub run_cpu_linux_sbi_smoke_test : Store → Bool × Store
  run_cpu_linux_sbi_smoke_test m =
      if ltb sbi_payload_words (length payload)
      then (false, m)
      else run_check b (linux_sbi_smoke at payload firmware) m
