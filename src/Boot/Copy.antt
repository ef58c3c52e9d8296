-- ===== src/Boot/Copy.antt =====
-- The copies of the boot artifacts (hw_bringup/ps_linux_boot.c, `copy_words_32`).
use zynq_cpu.Base.{
  ℕ, zero, suc, ◌+◌, ◌-◌, ◌*◌, ◌/◌, ◌%◌, ◌≤◌, ◌<◌, ◌≡◌, ◌⊎◌, inl, inr, ap, ◌∙◌, Store, update,
  update_lem, word, add32, for_range, leb, ltb, ◌==◌, ◌&&◌, if◌then◌else◌, arith,
}
use native.Mathlib.Decide.{ℕ_discrete}
use zynq_cpu.Boot.{
  kernel_ps_addr, dtb_ps_addr, boot_backup_ps_addr, boot_blob_bytes, copy_words_32,
  back_up_artifacts, restore_artifacts,
}

copies_lem :
    (dst src a n i : ℕ) (m : Store)
    → dst + (i + n) * 4 < word
    → src + (i + n) * 4 < word
    → (src + (i + n) * 4 ≤ dst) ⊎ (dst + (i + n) * 4 ≤ src)
    → for_range n i (λ k t. update (add32 dst (k * 4)) (t (add32 src (k * 4))) t) m a ≡ (
        if (leb (dst + i * 4) a && ltb a (dst + (i + n) * 4)) && ((a - dst) % 4 == 0)
        then m (src + (a - dst))
        else m a)
unfolding for_range
copies_lem dst src a zero i m h k apart = ground arith
copies_lem dst src a (suc n) i m h k apart =
    let to : add32 dst (i * 4) ≡ dst + i * 4 = omega arith in
    let from : add32 src (i * 4) ≡ src + i * 4 = omega arith in
    let next = update (dst + i * 4) (m (src + i * 4)) m in
    rw (to, from)
      (copies_lem dst src a n (i + 1) next (omega arith) (omega arith) (ground arith)
        ∙ elim (ℕ_discrete a (dst + i * 4)) [
          | yes e ↦
              let off : src + (a - dst) ≡ src + i * 4 = omega arith in
              ground (arith, ap m off, update_lem (dst + i * 4) (m (src + i * 4)) a m)
          | no ne ↦ ground (
            arith,
            update_lem (dst + i * 4) (m (src + i * 4)) a m,
            update_lem (dst + i * 4) (m (src + i * 4)) (src + (a - dst)) m,
          )
        ])

-- A word of the blob after a copy of it, and an address outside the copy.
pub blob_copied :
    (dst src a : ℕ) (m : Store)
    → dst + boot_blob_bytes < word
    → src + boot_blob_bytes < word
    → (src + boot_blob_bytes ≤ dst) ⊎ (dst + boot_blob_bytes ≤ src)
    → copy_words_32 dst src boot_blob_bytes m a ≡ (
        if (leb dst a && ltb a (dst + boot_blob_bytes)) && ((a - dst) % 4 == 0)
        then m (src + (a - dst))
        else m a)
unfolding copy_words_32
blob_copied dst src a m h k apart = ground (
  arith,
  copies_lem dst src a ((boot_blob_bytes + 3) / 4) 0 m (omega arith) (omega arith) (ground arith),
)

-- What was backed up comes back: after a backup, and whatever happens to the rest of the memory
-- afterwards, the way back leaves every word of the kernel's 19 MiB as it was at the backup.
pub restore_artifacts_lem :
    (m later : Store) (a : ℕ)
    → ((b : ℕ)
        → boot_backup_ps_addr ≤ b
        → b < boot_backup_ps_addr + boot_blob_bytes
        → later b ≡ back_up_artifacts m b)
    → kernel_ps_addr ≤ a
    → a < kernel_ps_addr + boot_blob_bytes
    → a % 4 ≡ 0
    → restore_artifacts later a ≡ m a
unfolding back_up_artifacts restore_artifacts
restore_artifacts_lem m later a kept lo hi whole =
    let b = boot_backup_ps_addr + (a - kernel_ps_addr) in
    let back : kernel_ps_addr + (b - boot_backup_ps_addr) ≡ a = omega arith in
    ground (
      arith,
      blob_copied kernel_ps_addr boot_backup_ps_addr a later (omega arith) (omega arith)
          (inr (omega arith)),
      blob_copied boot_backup_ps_addr kernel_ps_addr b m (omega arith) (omega arith)
          (inl (omega arith)),
      kept b (omega arith) (omega arith),
      ap m back,
    )

-- The copies leave the device tree out: the way back does not change it, and no word of the backup
-- depends on it.
pub restore_artifacts-dtb :
    (m m' later : Store) (a : ℕ)
    → ((b : ℕ) → b < kernel_ps_addr + boot_blob_bytes → m b ≡ m' b)
    → boot_backup_ps_addr ≤ a
    → a < boot_backup_ps_addr + boot_blob_bytes
    → a % 4 ≡ 0
    → (restore_artifacts later dtb_ps_addr ≡ later dtb_ps_addr)
      × (kernel_ps_addr + boot_blob_bytes ≤ dtb_ps_addr)
      × (back_up_artifacts m a ≡ back_up_artifacts m' a)
unfolding back_up_artifacts restore_artifacts
restore_artifacts-dtb m m' later a same lo hi whole =
    let at = kernel_ps_addr + (a - boot_backup_ps_addr) in
    (
      ground (
        arith,
        blob_copied kernel_ps_addr boot_backup_ps_addr dtb_ps_addr later (omega arith) (omega arith)
            (inr (omega arith)),
      ),
      omega arith,
      ground (
        arith,
        blob_copied boot_backup_ps_addr kernel_ps_addr a m (omega arith) (omega arith)
            (inl (omega arith)),
        blob_copied boot_backup_ps_addr kernel_ps_addr a m' (omega arith) (omega arith)
            (inl (omega arith)),
        same at (omega arith),
      ),
    )
