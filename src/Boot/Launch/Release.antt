-- ===== src/Boot/Launch/Release.antt =====
-- When the PL CPU is released, and in which state of the memory (hw_bringup/ps_linux_boot.c, `main`).
use zynq_cpu.Base.{
  ℕ, ◌+◌, ◌*◌, ◌≤◌, ◌<◌, ◌≡◌, ◌≢◌, ◌⊎◌, inl, inr, refl, ◌∙◌, Store, update, update_ne, update_self,
  add32, ◌==◌, Bool-cases, true, false, List, length, arith,
}
use native.Mathlib.Decide.{ℕ_discrete}
use zynq_cpu.Console.Writer.{char_at}
use zynq_cpu.Loader.{imem_base, load_zx32_elf_into_imem, Loaded, fail, loaded}
use zynq_cpu.Boot.{
  boot_backup_ps_addr, kernel_ps_addr, boot_blob_bytes, back_up_artifacts, restore_artifacts,
  artifacts_present, ring_fits,
}
use zynq_cpu.Boot.Copy.{blob_copied}
use zynq_cpu.Boot.Launch.Saved.{
  Intact, Saved, Saved-SameBackup, Intact-same, back_up_artifacts-Saved, restore_artifacts-Intact,
  Preserved, Preserved-same,
}
use zynq_cpu.Boot.Launch.Keeps.{publish-mem, loaded_mem, Confined, load_zx32_elf_into_imem-keeps}
use zynq_cpu.Boot.Launch.{
  Board, publish, Launch, stopped, released, artifacts_missing, ring_outside, elf_failed,
  imem_mismatch, begin_boot, keep_artifacts, verify_and_release, release_loaded, put_back_artifacts,
  check_ring, boot_linux,
}
use zynq_cpu.Boot.Words.{cpu_ctrl, scratch_words, reset_vector, prepare_mailbox, count_errors}
use zynq_cpu.Boot.Launch.Ready.{
  MailboxReady, MailboxReady-keeps, prepare_mailbox-MailboxReady, prepare_mailbox-cpu_ctrl,
  prepare_mailbox-below, count_errors-none,
}

module _ {X S : Type 0} (hdmi_putc : ℕ → S → S) (elf : Store) (elf_size : ℕ) (program : List ℕ)
    (kernel : Store) where
  -- What holds of a boot that began with the memory `m` after the restore of the artifacts; where it
  -- releases the CPU, `kernel` is in its place and in the backup.
  abbrev pub Launched : Store → Launch X S → Type 0
  Launched m (stopped artifacts_missing b) = (b.mem cpu_ctrl ≡ 1) × (artifacts_present m ≡ false)
  Launched m (stopped ring_outside b) = (b.mem cpu_ctrl ≡ 1) × (ring_fits (m scratch_words) ≡ false)
  Launched m (stopped (elf_failed code) b) =
      (b.mem cpu_ctrl ≡ 1)
      × ((imem : Store) × (load_zx32_elf_into_imem elf elf_size imem ≡ fail code b.mem))
  Launched m (stopped (imem_mismatch errors) b) = (b.mem cpu_ctrl ≡ 1) × (errors ≢ 0)
  Launched m (released b) =
      (b.mem cpu_ctrl ≡ 0)
      × (artifacts_present m ≡ true)
      × (ring_fits (m scratch_words) ≡ true)
      × (b.backed_up ≡ true)
      × ((k : ℕ) → k < length program → b.mem (imem_base + k * 4) ≡ char_at program k)
      × MailboxReady b.mem
      × Intact kernel b.mem
      × Saved kernel b.mem

  module _ (m : Store) (present : artifacts_present m ≡ true)
      (fits : ring_fits (m scratch_words) ≡ true) (short : length program ≤ 4096) where
    verify_and_release-Launched :
        (words entry : ℕ) (b : Board X S)
        → b.mem cpu_ctrl ≡ 1
        → b.backed_up ≡ true
        → MailboxReady b.mem
        → Intact kernel b.mem
        → Saved kernel b.mem
        → Launched m (verify_and_release hdmi_putc elf elf_size program words entry b)
    unfolding verify_and_release
    verify_and_release-Launched words entry b held kept ready intact saved =
        let m1 = update reset_vector entry b.mem in
        let same : (a : ℕ) → a ≢ reset_vector → a ≢ cpu_ctrl → update cpu_ctrl 0 m1 a ≡ b.mem a =
          λ a n k. update_ne cpu_ctrl 0 a m1 k ∙ update_ne reset_vector entry a b.mem n in
        elim (ℕ_discrete (count_errors program 0 m1 0) 0) [
          | yes e ↦
              let t : (count_errors program 0 m1 0 == 0) ≡ true = ground arith in
              rw t (
                update_self cpu_ctrl 0 m1,
                present,
                fits,
                kept,
                λ k lt.
                    update_ne cpu_ctrl 0 (imem_base + k * 4) m1 (omega arith)
                    ∙ count_errors-none program m1 k (omega arith) e lt,
                MailboxReady-keeps b.mem (update cpu_ctrl 0 m1)
                    (λ a lo hi. same a (omega arith) (omega arith)) ready,
                Intact-same kernel b.mem _ (λ a lo. same a (omega arith) (omega arith)) intact,
                Saved-SameBackup kernel b.mem _ (λ a lo hi. same a (omega arith) (omega arith))
                    saved,
              )
          | no ne ↦
              let t : (count_errors program 0 m1 0 == 0) ≡ false = ground arith in
              rw t (update_ne reset_vector entry cpu_ctrl b.mem (omega arith) ∙ held, ne)
        ]

    release_loaded-Launched :
        (b : Board X S) (r : Loaded)
        → load_zx32_elf_into_imem elf elf_size b.mem ≡ r
        → ((a : ℕ) → (a < imem_base) ⊎ (imem_base + 0x4000 ≤ a) → loaded_mem r a ≡ b.mem a)
        → b.mem cpu_ctrl ≡ 1
        → b.backed_up ≡ true
        → MailboxReady b.mem
        → Intact kernel b.mem
        → Saved kernel b.mem
        → Launched m (release_loaded hdmi_putc elf elf_size program b r)
    unfolding release_loaded
    release_loaded-Launched b (fail code m') e keeps held kept ready intact saved =
        (keeps cpu_ctrl (inr (omega arith)) ∙ held, (b.mem, e))
    release_loaded-Launched b (loaded words entry m') e keeps held kept ready intact saved =
        verify_and_release-Launched words entry (record b { mem = m' })
          (keeps cpu_ctrl (inr (omega arith)) ∙ held) kept
          (MailboxReady-keeps b.mem m' (λ a lo hi. keeps a (inl (omega arith))) ready)
          (Intact-same kernel b.mem m' (λ a lo. keeps a (inl (omega arith))) intact)
          (Saved-SameBackup kernel b.mem m' (λ a lo hi. keeps a (inl (omega arith))) saved)

  check_ring-Launched :
      (m : Store) (b : Board X S)
      → Confined elf
      → length program ≤ 4096
      → artifacts_present m ≡ true
      → b.mem cpu_ctrl ≡ 1
      → b.backed_up ≡ true
      → Intact kernel b.mem
      → Saved kernel b.mem
      → Launched m (check_ring hdmi_putc elf elf_size program (m scratch_words) b)
  unfolding check_ring
  check_ring-Launched m b confined short present held kept intact saved =
      elim (Bool-cases (ring_fits (m scratch_words))) [
        | inl fits ↦ rw fits (
            release_loaded-Launched m present fits short
              (record b { mem = prepare_mailbox b.mem; sink = _ }) _ refl
              (λ a out. load_zx32_elf_into_imem-keeps elf elf_size a out _ confined)
              (prepare_mailbox-cpu_ctrl b.mem) kept (prepare_mailbox-MailboxReady b.mem)
              (Intact-same kernel b.mem _ (λ a lo. prepare_mailbox-below b.mem a lo) intact)
              (Saved-SameBackup kernel b.mem _
                (λ a lo hi. prepare_mailbox-below b.mem a (omega arith)) saved))
        | inr outside ↦ rw outside (held, outside)
      ]

put_back_artifacts-Preserved :
    {X S : Type 0} (hdmi_putc : ℕ → S → S) (kernel : Store) (b : Board X S)
    → Preserved kernel b.backed_up b.mem
    → Intact kernel (put_back_artifacts hdmi_putc b).mem
      × Preserved kernel
          (put_back_artifacts hdmi_putc b).backed_up
          (put_back_artifacts hdmi_putc b).mem
unfolding put_back_artifacts
put_back_artifacts-Preserved hdmi_putc kernel b (inl (first, intact)) =
    rw first (intact, inl (refl, intact))
put_back_artifacts-Preserved hdmi_putc kernel b (inr (again, saved)) =
    let back = restore_artifacts-Intact kernel b.mem saved in rw again (back.0, inr (refl, back.1))

keep_artifacts-Saved :
    {X S : Type 0} (hdmi_putc : ℕ → S → S) (kernel : Store) (b : Board X S)
    → Intact kernel b.mem
    → Preserved kernel b.backed_up b.mem
    → Intact kernel (keep_artifacts hdmi_putc b).mem × Saved kernel (keep_artifacts hdmi_putc b).mem
unfolding keep_artifacts
keep_artifacts-Saved hdmi_putc kernel b intact (inl (first, _)) =
    rw first (back_up_artifacts-Saved kernel b.mem intact)
keep_artifacts-Saved hdmi_putc kernel b intact (inr (before, saved)) = rw before (intact, saved)

put_back_artifacts-keeps :
    {X S : Type 0} (hdmi_putc : ℕ → S → S) (b : Board X S)
    → b.mem cpu_ctrl ≡ 1
    → (put_back_artifacts hdmi_putc b).mem cpu_ctrl ≡ 1
unfolding put_back_artifacts restore_artifacts
put_back_artifacts-keeps hdmi_putc b held = elim (Bool-cases b.backed_up) [
  | inl again ↦ simp again (
      blob_copied kernel_ps_addr boot_backup_ps_addr cpu_ctrl b.mem (omega arith) (omega arith)
        (inr (omega arith))
      ∙ held)
  | inr first ↦ simp first held
]

keep_artifacts-keeps :
    {X S : Type 0} (hdmi_putc : ℕ → S → S) (b : Board X S)
    → b.mem cpu_ctrl ≡ 1
    → ((keep_artifacts hdmi_putc b).mem cpu_ctrl ≡ 1)
      × ((keep_artifacts hdmi_putc b).backed_up ≡ true)
unfolding keep_artifacts back_up_artifacts
keep_artifacts-keeps hdmi_putc b held = elim (Bool-cases b.backed_up) [
  | inl before ↦ simp before (held, refl)
  | inr first ↦ simp first (
    blob_copied boot_backup_ps_addr kernel_ps_addr cpu_ctrl b.mem (omega arith) (omega arith)
          (inl (omega arith))
        ∙ held,
    refl,
  )
]

module _ {X S : Type 0} (xadc_in : ℕ → X → ℕ × X) (xadc_out : ℕ → ℕ → X → X) (hdmi_putc : ℕ → S → S)
    (init : S → S) where
  begin_boot-cpu_ctrl :
      (b : Board X S) → (begin_boot xadc_in xadc_out hdmi_putc init b).mem cpu_ctrl ≡ 1
  unfolding begin_boot
  begin_boot-cpu_ctrl b = put_back_artifacts-keeps hdmi_putc _ (
      publish-mem xadc_in xadc_out cpu_ctrl
        (record b { mem = update cpu_ctrl 1 b.mem; boot_count = add32 b.boot_count 1 })
        (omega arith)
      ∙ update_self cpu_ctrl 1 b.mem)

  -- What a boot finds is preserved up to the checks, and then the kernel is in its place.
  begin_boot-Preserved :
      (kernel : Store) (b : Board X S)
      → Preserved kernel b.backed_up b.mem
      → Intact kernel (begin_boot xadc_in xadc_out hdmi_putc init b).mem
        × Preserved kernel
            (begin_boot xadc_in xadc_out hdmi_putc init b).backed_up
            (begin_boot xadc_in xadc_out hdmi_putc init b).mem
  unfolding begin_boot put_back_artifacts publish
  begin_boot-Preserved kernel b preserved =
      let start = record b { mem = update cpu_ctrl 1 b.mem; boot_count = add32 b.boot_count 1 } in
      let published = publish xadc_in xadc_out start in
      let same : (a : ℕ) → a < boot_backup_ps_addr + boot_blob_bytes → published.mem a ≡ b.mem a =
        λ a low.
          publish-mem xadc_in xadc_out a start (omega arith)
          ∙ update_ne cpu_ctrl 1 a b.mem (omega arith) in
      put_back_artifacts-Preserved hdmi_putc kernel _
        (Preserved-same kernel b.backed_up b.mem published.mem same preserved)

  pub boot_linux_lem :
      (elf : Store) (elf_size : ℕ) (program : List ℕ) (kernel : Store) (b : Board X S)
      → Confined elf
      → length program ≤ 4096
      → Preserved kernel b.backed_up b.mem
      → Launched hdmi_putc elf elf_size program kernel
          (begin_boot xadc_in xadc_out hdmi_putc init b).mem
          (boot_linux xadc_in xadc_out hdmi_putc init elf elf_size program b)
  unfolding boot_linux
  boot_linux_lem elf elf_size program kernel b confined short preserved =
      let m = (begin_boot xadc_in xadc_out hdmi_putc init b).mem in
      let held = begin_boot-cpu_ctrl b in
      let found = begin_boot-Preserved kernel b preserved in
      elim (Bool-cases (artifacts_present m)) [
        | inl present ↦
            let kept = keep_artifacts-keeps hdmi_putc _ held in
            let backup = keep_artifacts-Saved hdmi_putc kernel _ found.0 found.1 in
            rw present (
              check_ring-Launched hdmi_putc elf elf_size program kernel m _ confined short present
                kept.0 kept.1 backup.0 backup.1)
        | inr missing ↦ rw missing (held, missing)
      ]
