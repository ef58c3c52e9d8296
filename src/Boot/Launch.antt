-- ===== src/Boot/Launch.antt =====
-- One boot (hw_bringup/ps_linux_boot.c, `main` from `restart_linux_boot` to the release of the PL CPU).
-- The registers, the scratch memory, instruction memory and DDR are one memory; `X` is the rest of the
-- hardware: the sensor, the timer and the UART. The HDMI console is any sink of bytes; what
-- `xil_printf` sends to the UART is left out.
pub mod Keeps
pub mod Ready
pub mod Release
pub mod Saved
use zynq_cpu.Base.{
  ℕ, zero, suc, ◌+◌, ◌*◌, ◌^◌, Store, update, word, add32, ltb, leb, ◌==◌, not, ◌&&◌, if◌then◌else◌,
  Bool, true, false, List, [], ◌∷◌, ◌++◌, codes, Option, none, some,
}
use zynq_cpu.Console.Writer.{puts, put_dec_u32, put_hex32, diag_prefix, diag_line, diag_kv_hex}
use zynq_cpu.Bridge.{tx_scratch, ring_bytes}
use zynq_cpu.Temperature.{publish_zynq_temperature, xadcif_base, ctrl_base}
use zynq_cpu.Mailbox.{mail_status}
use zynq_cpu.Loader.{imem_base, load_zx32_elf_into_imem, Loaded, fail, loaded}
use zynq_cpu.Boot.{
  kernel_ps_addr, dtb_ps_addr, boot_backup_ps_addr, boot_blob_bytes, back_up_artifacts,
  restore_artifacts, artifacts_present, ring_fits, clear_linux_sbi_counters,
}
use zynq_cpu.Boot.Words.{
  cpu_ctrl, scratch_words, reset_vector, linux_entry, linux_dtb, reset_type, reset_reason,
  reset_magic, kernel_cpu_addr, dtb_cpu_addr, write_all, mailbox_words, prepare_mailbox,
  count_errors,
}

-- What the launcher keeps, with the memory, the rest of the hardware and the HDMI console.
pub record Board (X S : Type 0) : Type 0 where
  pub mem : Store
  pub hardware : X
  pub sink : S
  pub boot_count : ℕ
  pub backed_up : Bool
  pub sample_seq : ℕ

-- Where a boot stops for good.
pub data Fault : Type 0 where
  artifacts_missing : Fault
  ring_outside : Fault
  elf_failed : ℕ → Fault
  imem_mismatch : ℕ → Fault

pub data Launch (X S : Type 0) : Type 0 where
  stopped : Fault → Board X S → Launch X S
  released : Board X S → Launch X S

abbrev pub blue : List ℕ
blue = 0x1b ∷ codes "[1;34m"

abbrev pub green : List ℕ
green = 0x1b ∷ codes "[1;32m"

abbrev pub red : List ℕ
red = 0x1b ∷ codes "[1;31m"

abbrev pub yellow : List ℕ
yellow = 0x1b ∷ codes "[1;33m"

abbrev pub cyan : List ℕ
cyan = 0x1b ∷ codes "[1;36m"

-- The sensor's registers are the hardware's, all other addresses the memory's.
module _ {X : Type 0} (xadc_in : ℕ → X → ℕ × X) (xadc_out : ℕ → ℕ → X → X) where
  unfoldable pub bus_in : ℕ → Store × X → ℕ × (Store × X)
  bus_in a (m, x) =
      if leb xadcif_base a && ltb a (xadcif_base + 0x38)
      then (let (v, x') = xadc_in a x in (v, (m, x')))
      else (m a, (m, x))

  unfoldable pub bus_out : ℕ → ℕ → Store × X → Store × X
  bus_out a v (m, x) =
      if leb xadcif_base a && ltb a (xadcif_base + 0x38)
      then (m, xadc_out a v x)
      else (update a v m, x)

module _ {X S : Type 0} (xadc_in : ℕ → X → ℕ × X) (xadc_out : ℕ → ℕ → X → X) where
  unfoldable pub publish : Board X S → Board X S
  publish b =
      let (seq, bus) =
        publish_zynq_temperature (bus_in xadc_in xadc_out) (bus_out xadc_in xadc_out) b.sample_seq
          (b.mem, b.hardware) in
      record b { mem = bus.0; hardware = bus.1; sample_seq = seq }

module _ {S : Type 0} (hdmi_putc : ℕ → S → S) where
  greet : ℕ → S → S
  greet count s =
      let s1 = puts hdmi_putc (cyan ++ codes "ZX32 Linux boot launcher") s in
      let s2 = puts hdmi_putc ((0x1b ∷ codes "[0m  ") ++ (0x1b ∷ codes "[90m")) s1 in
      let s3 =
        puts hdmi_putc (codes "HDMI 1920x1080@60RB" ++ (0x1b ∷ codes "[0m") ++ (10 ∷ [])) s2 in
      let s4 = diag_prefix hdmi_putc cyan (codes "BOOT") s3 in
      let s5 = puts hdmi_putc (codes "diag_rev=linux_bring_up boot_count=") s4 in
      hdmi_putc 10 (put_dec_u32 hdmi_putc count s5)

  unfoldable pub print_layout : ℕ → S → S
  print_layout words s =
      let s1 =
        diag_kv_hex hdmi_putc blue (codes "INFO") (codes "kernel_cpu") kernel_cpu_addr
          (some (codes "dtb_cpu")) dtb_cpu_addr s in
      let s2 =
        diag_kv_hex hdmi_putc blue (codes "INFO") (codes "kernel_ps") kernel_ps_addr
          (some (codes "dtb_ps")) dtb_ps_addr s1 in
      let s3 = diag_prefix hdmi_putc blue (codes "INFO") s2 in
      let s4 = put_dec_u32 hdmi_putc words (puts hdmi_putc (codes "scratch_words=") s3) in
      let s5 = put_dec_u32 hdmi_putc ring_bytes (puts hdmi_putc (codes " console_ring=") s4) in
      puts hdmi_putc (codes "B" ++ (10 ∷ [])) s5

  print_firmware : ℕ → ℕ → S → S
  print_firmware words entry s =
      let s1 = diag_prefix hdmi_putc blue (codes "INFO") s in
      let s2 = put_dec_u32 hdmi_putc words (puts hdmi_putc (codes "firmware_words=") s1) in
      hdmi_putc 10 (put_hex32 hdmi_putc entry (puts hdmi_putc (codes " entry=") s2))

module _ {X S : Type 0} (hdmi_putc : ℕ → S → S) where
  ok_line : List ℕ → Board X S → Board X S
  ok_line message b = record b { sink = diag_line hdmi_putc green (codes "OK") message b.sink }

  fail_line : List ℕ → Board X S → Board X S
  fail_line message b = record b { sink = diag_line hdmi_putc red (codes "FAIL") message b.sink }

  -- The artifacts are put back from the second boot on, and copied away at the first.
  unfoldable pub put_back_artifacts : Board X S → Board X S
  put_back_artifacts b =
      if b.backed_up
      then record b {
        mem = restore_artifacts b.mem;
        sink =
            diag_kv_hex hdmi_putc blue (codes "INFO") (codes "restore_ps") boot_backup_ps_addr
              (some (codes "bytes")) boot_blob_bytes b.sink;
      }
      else b

  unfoldable pub keep_artifacts : Board X S → Board X S
  keep_artifacts b = if b.backed_up then b else record b {
    mem = back_up_artifacts b.mem;
    backed_up = true;
    sink =
        diag_kv_hex hdmi_putc blue (codes "INFO") (codes "backup_ps") boot_backup_ps_addr
          (some (codes "bytes")) boot_blob_bytes b.sink;
  }

-- The firmware comes with the build, as an ELF file and as the words of instruction memory.
module _ {X S : Type 0} (hdmi_putc : ℕ → S → S) (elf : Store) (elf_size : ℕ)
    (program : List ℕ) where
  -- The firmware is in instruction memory: it is compared, and the CPU released.
  unfoldable pub verify_and_release : ℕ → ℕ → Board X S → Launch X S
  unfolding print_firmware ok_line fail_line
  verify_and_release words entry b =
      let b1 = record b {
        mem = update reset_vector entry b.mem;
        sink = print_firmware hdmi_putc words entry b.sink;
      } in
      let errors = count_errors program 0 b1.mem 0 in
      let b2 = ok_line hdmi_putc (codes "IMEM firmware verified") b1 in
      let b3 = record b2 {
        mem = update cpu_ctrl 0 b2.mem;
        sink =
            diag_line hdmi_putc yellow (codes "BOOT") (codes "releasing PL CPU at Linux entry")
              b2.sink;
      } in
      if errors == 0
      then released b3
      else stopped (imem_mismatch errors)
          (fail_line hdmi_putc (codes "IMEM verification failed") b1)

  -- With what the loader has returned.
  unfoldable pub release_loaded : Board X S → Loaded → Launch X S
  unfolding fail_line
  release_loaded b (fail code m) =
      stopped (elf_failed code)
        (fail_line hdmi_putc (codes "Linux boot firmware ELF load failed") (record b { mem = m }))
  release_loaded b (loaded words entry m) = verify_and_release words entry (record b { mem = m })

  -- With the words of scratch memory, as they were read before the checks.
  unfoldable pub check_ring : ℕ → Board X S → Launch X S
  unfolding ok_line fail_line
  check_ring words b =
      let b1 = ok_line hdmi_putc (codes "SBI console ring is inside TX scratch") b in
      let b2 = record b1 { mem = prepare_mailbox b1.mem } in
      let next = release_loaded b2 (load_zx32_elf_into_imem elf elf_size b2.mem) in
      if ring_fits words
      then next
      else stopped ring_outside
          (fail_line hdmi_putc (codes "Linux console ring outside TX scratch aperture") b)

-- `init` is `hdmi_console_init`.
module _ {X S : Type 0} (xadc_in : ℕ → X → ℕ × X) (xadc_out : ℕ → ℕ → X → X) (hdmi_putc : ℕ → S → S)
    (init : S → S) where
  -- Up to the checks: the CPU is held, the temperature published, the console set up.
  unfoldable pub begin_boot : Board X S → Board X S
  unfolding greet
  begin_boot b =
      let count = add32 b.boot_count 1 in
      let b1 =
        publish xadc_in xadc_out (record b { mem = update cpu_ctrl 1 b.mem; boot_count = count }) in
      put_back_artifacts hdmi_putc (record b1 { sink = greet hdmi_putc count (init b1.sink) })

  unfoldable pub boot_linux : Store → ℕ → List ℕ → Board X S → Launch X S
  unfolding ok_line fail_line
  boot_linux elf elf_size program b =
      let b1 = begin_boot b in
      let words = b1.mem scratch_words in
      let b2 = record b1 { sink = print_layout hdmi_putc words b1.sink } in
      let b3 = ok_line hdmi_putc (codes "Linux Image and DTB headers verified") b2 in
      let next = check_ring hdmi_putc elf elf_size program words (keep_artifacts hdmi_putc b3) in
      if artifacts_present b1.mem
      then next
      else stopped artifacts_missing
          (fail_line hdmi_putc (codes "Linux artifacts missing or wrong DDR address") b2)
