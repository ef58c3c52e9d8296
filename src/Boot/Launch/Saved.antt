-- ===== src/Boot/Launch/Saved.antt =====
-- The kernel in its place and in the backup (hw_bringup/ps_linux_boot.c, `main` and `copy_words_32`): 19 MiB
-- from each of the two addresses, in words.
use zynq_cpu.Base.{
  ℕ, ◌+◌, ◌-◌, ◌%◌, ◌≤◌, ◌<◌, ◌≡◌, ◌⊎◌, inl, inr, refl, ap, ◌∙◌, Store, Bool, true, false, arith,
}
use zynq_cpu.Boot.{
  boot_backup_ps_addr, kernel_ps_addr, boot_blob_bytes, back_up_artifacts, restore_artifacts,
}
use zynq_cpu.Boot.Copy.{blob_copied}

-- The copy of the word at `a`.
abbrev pub backup_of : ℕ → ℕ
backup_of a = boot_backup_ps_addr + (a - kernel_ps_addr)

-- In the memory, every word of the kernel `k` is in its place.
abbrev pub Intact : Store → Store → Type 0
Intact k m =
    (a : ℕ) → kernel_ps_addr ≤ a → a < kernel_ps_addr + boot_blob_bytes → a % 4 ≡ 0 → m a ≡ k a

-- In the memory, every word of the kernel `k` is in the backup.
abbrev pub Saved : Store → Store → Type 0
Saved k m =
    (a : ℕ)
    → kernel_ps_addr ≤ a
    → a < kernel_ps_addr + boot_blob_bytes
    → a % 4 ≡ 0
    → m (backup_of a) ≡ k a

-- The backup is the same in both memories.
abbrev pub SameBackup : Store → Store → Type 0
SameBackup m m' =
    (a : ℕ) → boot_backup_ps_addr ≤ a → a < boot_backup_ps_addr + boot_blob_bytes → m' a ≡ m a

pub Saved-SameBackup : (k m m' : Store) → SameBackup m m' → Saved k m → Saved k m'
Saved-SameBackup k m m' same saved a lo hi whole =
    same (backup_of a) (omega arith) (omega arith) ∙ saved a lo hi whole

pub Intact-same :
    (k m m' : Store)
    → ((a : ℕ) → a < boot_backup_ps_addr + boot_blob_bytes → m' a ≡ m a)
    → Intact k m
    → Intact k m'
Intact-same k m m' same intact a lo hi whole = same a (omega arith) ∙ intact a lo hi whole

pub back_up_artifacts-Saved :
    (k m : Store) → Intact k m → Intact k (back_up_artifacts m) × Saved k (back_up_artifacts m)
unfolding back_up_artifacts
back_up_artifacts-Saved k m intact = (
  λ a lo hi whole. ground (
    arith,
    blob_copied boot_backup_ps_addr kernel_ps_addr a m (omega arith) (omega arith)
        (inl (omega arith)),
    intact a lo hi whole,
  ),
  λ a lo hi whole.
      let back : kernel_ps_addr + (backup_of a - boot_backup_ps_addr) ≡ a = omega arith in
      ground (
        arith,
        blob_copied boot_backup_ps_addr kernel_ps_addr (backup_of a) m (omega arith) (omega arith)
            (inl (omega arith)),
        ap m back,
        intact a lo hi whole,
      ),
)

pub restore_artifacts-Intact :
    (k m : Store) → Saved k m → Intact k (restore_artifacts m) × Saved k (restore_artifacts m)
unfolding restore_artifacts
restore_artifacts-Intact k m saved = (
  λ a lo hi whole. ground (
    arith,
    blob_copied kernel_ps_addr boot_backup_ps_addr a m (omega arith) (omega arith)
        (inr (omega arith)),
    saved a lo hi whole,
  ),
  λ a lo hi whole. ground (
    arith,
    blob_copied kernel_ps_addr boot_backup_ps_addr (backup_of a) m (omega arith) (omega arith)
        (inr (omega arith)),
    saved a lo hi whole,
  ),
)

-- What a boot finds: at the first the kernel in its place, at a later one the kernel in the backup.
abbrev pub Preserved : Store → Bool → Store → Type 0
Preserved k backed_up m = ((backed_up ≡ false) × Intact k m) ⊎ ((backed_up ≡ true) × Saved k m)

pub Preserved-same :
    (k : Store) (backed_up : Bool) (m m' : Store)
    → ((a : ℕ) → a < boot_backup_ps_addr + boot_blob_bytes → m' a ≡ m a)
    → Preserved k backed_up m
    → Preserved k backed_up m'
Preserved-same k backed_up m m' same (inl (first, intact)) =
    inl (first, Intact-same k m m' same intact)
Preserved-same k backed_up m m' same (inr (again, saved)) =
    inr (again, Saved-SameBackup k m m' (λ a lo hi. same a hi) saved)

-- There is always such a kernel.
pub kernel-Preserved : (backed_up : Bool) (m : Store) → (k : Store) × Preserved k backed_up m
kernel-Preserved true m = (λ a. m (backup_of a), inr (refl, λ a lo hi whole. refl))
kernel-Preserved false m = (m, inl (refl, λ a lo hi whole. refl))
