-- ===== src/Boot/Launch/Ready.antt =====
-- What the boot leaves for the firmware: the program, word for word, and the mailbox
-- (hw_bringup/ps_linux_boot.c, `main`).
use zynq_cpu.Base.{
  ℕ, zero, suc, ◌+◌, ◌*◌, ◌≤◌, ◌<◌, ◌≡◌, inl, inr, refl, ap, ◌∙◌, Store, update, update_ne, word,
  add32, ◌==◌, Bool-cases, List, [], ◌∷◌, length, arith,
}
use zynq_cpu.Console.Writer.{char_at}
use zynq_cpu.Bridge.{tx_scratch, ring_head, ring_total, in_ring_head, in_ring_tail}
use zynq_cpu.Mailbox.{mail_status}
use zynq_cpu.Loader.{imem_base}
use zynq_cpu.Boot.{boot_backup_ps_addr, boot_blob_bytes, clear_linux_sbi_counters}
use zynq_cpu.Boot.Checks.{clear_linux_sbi_counters_lem}
use zynq_cpu.Boot.Words.{
  cpu_ctrl, linux_entry, linux_dtb, reset_magic, kernel_cpu_addr, dtb_cpu_addr, write_all,
  mailbox_words, prepare_mailbox, count_errors,
}

first-or-later :
    (w : ℕ) (ws : List ℕ) (i : ℕ) (m : Store) (k : ℕ)
    → k < length (w ∷ ws)
    → m (imem_base + i * 4) ≡ w
    → ((k : ℕ) → k < length ws → m (imem_base + (i + 1 + k) * 4) ≡ char_at ws k)
    → m (imem_base + (i + k) * 4) ≡ char_at (w ∷ ws) k
first-or-later w ws i m zero lt here later =
    let at : imem_base + (i + 0) * 4 ≡ imem_base + i * 4 = omega arith in ap m at ∙ here
first-or-later w ws i m (suc k) lt here later =
    let at : imem_base + (i + suc k) * 4 ≡ imem_base + (i + 1 + k) * 4 = omega arith in
    ap m at ∙ later k (omega arith)

-- The error count starts at `errors` and never falls; at the end it is zero only if all words match.
count_errors-zero :
    (ws : List ℕ) (i errors : ℕ) (m : Store)
    → errors + length ws < word
    → count_errors ws i m errors ≡ 0
    → (errors ≡ 0) × ((k : ℕ) → k < length ws → m (imem_base + (i + k) * 4) ≡ char_at ws k)
unfolding count_errors
count_errors-zero [] i errors m small e = (e, λ k lt. absurd (omega arith))
count_errors-zero (w ∷ ws) i errors m small e = elim (Bool-cases (m (imem_base + i * 4) == w)) [
  | inl same ↦
      let rest = count_errors-zero ws (i + 1) errors m (omega arith) (rw same at e) in
      (rest.0, λ k lt. first-or-later w ws i m k lt (ground (arith, same)) rest.1)
  | inr differs ↦
      let rest = count_errors-zero ws (i + 1) (add32 errors 1) m (omega arith) (rw differs at e) in
      absurd (omega (arith, rest.0))
]

-- The mailbox as the firmware and the monitor find it: the addresses of the kernel and of the device
-- tree, both rings empty, no status, and no request to reboot.
pub record MailboxReady (m : Store) : Type 0 where
  pub entry_set : m linux_entry ≡ kernel_cpu_addr
  pub dtb_set : m linux_dtb ≡ dtb_cpu_addr
  pub no_output : (m ring_head ≡ 0) × (m ring_total ≡ 0)
  pub no_input : (m in_ring_head ≡ 0) × (m in_ring_tail ≡ 0)
  pub no_status : m mail_status ≡ 0
  pub no_reboot : m reset_magic ≡ 0

pub MailboxReady-keeps :
    (m m' : Store)
    → ((a : ℕ) → tx_scratch ≤ a → a < tx_scratch + 0x400 → m' a ≡ m a)
    → MailboxReady m
    → MailboxReady m'
MailboxReady-keeps m m' same ready = record {
  entry_set = same linux_entry (omega arith) (omega arith) ∙ ready.entry_set;
  dtb_set = same linux_dtb (omega arith) (omega arith) ∙ ready.dtb_set;
  no_output = (
    same ring_head (omega arith) (omega arith) ∙ ready.no_output.0,
    same ring_total (omega arith) (omega arith) ∙ ready.no_output.1,
  );
  no_input = (
    same in_ring_head (omega arith) (omega arith) ∙ ready.no_input.0,
    same in_ring_tail (omega arith) (omega arith) ∙ ready.no_input.1,
  );
  no_status = same mail_status (omega arith) (omega arith) ∙ ready.no_status;
  no_reboot = same reset_magic (omega arith) (omega arith) ∙ ready.no_reboot;
}

pub prepare_mailbox-MailboxReady : (m : Store) → MailboxReady (prepare_mailbox m)
unfolding prepare_mailbox write_all update
prepare_mailbox-MailboxReady m = record {
  entry_set = clear_linux_sbi_counters_lem (write_all mailbox_words m) linux_entry;
  dtb_set = clear_linux_sbi_counters_lem (write_all mailbox_words m) linux_dtb;
  no_output = (
    clear_linux_sbi_counters_lem (write_all mailbox_words m) ring_head,
    clear_linux_sbi_counters_lem (write_all mailbox_words m) ring_total,
  );
  no_input = (
    clear_linux_sbi_counters_lem (write_all mailbox_words m) in_ring_head,
    clear_linux_sbi_counters_lem (write_all mailbox_words m) in_ring_tail,
  );
  no_status = refl;
  no_reboot = clear_linux_sbi_counters_lem (write_all mailbox_words m) reset_magic;
}

pub prepare_mailbox-cpu_ctrl : (m : Store) → prepare_mailbox m cpu_ctrl ≡ 1
unfolding prepare_mailbox write_all update
prepare_mailbox-cpu_ctrl m = clear_linux_sbi_counters_lem (write_all mailbox_words m) cpu_ctrl

-- The mailbox lies above the kernel and its backup.
pub prepare_mailbox-below :
    (m : Store) (a : ℕ) → a < boot_backup_ps_addr + boot_blob_bytes → prepare_mailbox m a ≡ m a
unfolding prepare_mailbox write_all
prepare_mailbox-below m a low =
    let words : write_all mailbox_words m a ≡ m a = unfold update in ground arith in
    ground (
      arith,
      update_ne mail_status 0 a (clear_linux_sbi_counters (write_all mailbox_words m))
          (omega arith),
      clear_linux_sbi_counters_lem (write_all mailbox_words m) a,
      words,
    )

-- No error leaves every word of the program in its place.
pub count_errors-none :
    (ws : List ℕ) (m : Store) (k : ℕ)
    → length ws < word
    → count_errors ws 0 m 0 ≡ 0
    → k < length ws
    → m (imem_base + k * 4) ≡ char_at ws k
count_errors-none ws m k small e lt =
    let at : imem_base + k * 4 ≡ imem_base + (0 + k) * 4 = omega arith in
    ap m at ∙ (count_errors-zero ws 0 0 m (omega arith) e).1 k lt
