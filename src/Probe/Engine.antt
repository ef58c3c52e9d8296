-- ===== src/Probe/Engine.antt =====
-- A DataMover that works, and the loopback over it (hw_bringup/ps_uart_probe_dma.c,
-- `run_datamover_loopback`).
use zynq_cpu.Base.{
  ℕ, zero, suc, ◌+◌, ◌*◌, ◌≤◌, ◌<◌, ◌≡◌, ◌≢◌, ◌⊎◌, refl, sym, ap, ◌∙◌, Store, update, update_ne,
  bit_and, List, [], ◌∷◌, arith,
}
use native.Mathlib.Decide.{ℕ_discrete}
use zynq_cpu.Bridge.{tx_scratch}
use zynq_cpu.Mailbox.{dma_status, wait_for_dma}
use zynq_cpu.Boot.Words.{write_all}
use zynq_cpu.Probe.Started.{Untouched, write_all-Untouched}
use zynq_cpu.Probe.Arrays.{update_at}
use zynq_cpu.Probe.Dma.{
  dma_ctrl, dma_ddr_addr, dma_local, dma_len, dma_tag, rx_scratch, dma_words, mm2s_done, s2mm_done,
  mm2s_err, s2mm_err, clear_done_err, pattern, fill_writes, out_all,
}

-- The engine as the program sees it: `view` is what a read of each address would give. Registers but
-- the status hold what is written; a transfer that is set off with a clear status is done within the
-- polls of the program, and has then moved the bytes that its registers ask for and nothing else.
pub record DataMover {D : Type 0} (in32 : ℕ → D → ℕ × D) (out32 : ℕ → ℕ → D → D) (view : D → Store)
    : Type 0 where
  pub reads : (a : ℕ) (d : D) → a ≢ dma_status → (in32 a d).0 ≡ view d a
  pub keeps : (a b : ℕ) (d : D) → a ≢ dma_status → view (in32 a d).1 b ≡ view d b
  pub writes :
      (a v b : ℕ) (d : D)
      → a ≢ dma_ctrl
      → a ≢ dma_status
      → view (out32 a v d) b ≡ update a v (view d) b
  pub clears :
      (b : ℕ) (d : D) → b ≢ dma_status → view (out32 dma_status clear_done_err d) b ≡ view d b
  pub cleared :
      (d : D) → bit_and (view (out32 dma_status clear_done_err d) dma_status) clear_done_err ≡ 0
  pub mm2s :
      (d : D)
      → bit_and (view d dma_status) clear_done_err ≡ 0
      → let r = wait_for_dma in32 mm2s_done mm2s_err (out32 dma_ctrl 1 d) in
        (r.0 ≡ 0)
        × ((k : ℕ)
            → k * 4 < view d dma_len
            → view r.2 (rx_scratch + view d dma_local + k * 4)
              ≡ view d (view d dma_ddr_addr + k * 4))
        × ((b : ℕ) → b < dma_ctrl → view r.2 b ≡ view d b)
  pub s2mm :
      (d : D)
      → bit_and (view d dma_status) clear_done_err ≡ 0
      → view d dma_ddr_addr + view d dma_len ≤ dma_ctrl
      → let r = wait_for_dma in32 s2mm_done s2mm_err (out32 dma_ctrl 2 d) in
        (r.0 ≡ 0)
        × ((k : ℕ)
            → k * 4 < view d dma_len
            → view r.2 (view d dma_ddr_addr + k * 4)
              ≡ view d (tx_scratch + view d dma_local + k * 4))
        × ((b : ℕ)
            → b < dma_ctrl
            → (b < view d dma_ddr_addr) ⊎ (view d dma_ddr_addr + view d dma_len ≤ b)
            → view r.2 b ≡ view d b)

-- Two arrays of 16 words in DDR, apart from each other.
abbrev pub TwoArrays : ℕ → ℕ → Type 0
TwoArrays src dst =
    (src + 64 ≤ 0x4000_0000) × (dst + 64 ≤ 0x4000_0000) × ((src + 64 ≤ dst) ⊎ (dst + 64 ≤ src))

fill_writes-Untouched :
    (top src dst i n k : ℕ)
    → TwoArrays src dst
    → k < i
    → i + n ≤ 16
    → Untouched (src + k * 4) (fill_writes top src dst i n)
fill_writes-Untouched top src dst i zero k apart lt end = tt
fill_writes-Untouched top src dst i (suc n) k apart lt end = (
  ground (arith, apart),
  (
    ground (arith, apart),
    fill_writes-Untouched top src dst (i + 1) n k apart (omega arith) (omega arith),
  ),
)

abbrev pub AllBelow : ℕ → List (ℕ × ℕ) → Type 0
AllBelow bound [] = Unit {0}
AllBelow bound ((a, v) ∷ writes) = (a < bound) × AllBelow bound writes

first_word :
    (top src dst i k : ℕ) (m : Store)
    → TwoArrays src dst
    → k ≡ i
    → i < 16
    → update (dst + i * 4) 0 (update (src + i * 4) (pattern top i) m) (src + k * 4) ≡ pattern top k
unfolding update
first_word top src dst i k m apart here lt =
    let value : pattern top i ≡ pattern top k = ap (pattern top) (sym here) in
    update_ne (dst + i * 4) 0 (src + k * 4) (update (src + i * 4) (pattern top i) m)
      (ground (arith, apart, here))
    ∙ update_at (src + i * 4) (pattern top i) (src + k * 4) m (omega (arith, here))
    ∙ value

pub fill_writes-src :
    (top src dst i n k : ℕ) (m : Store)
    → TwoArrays src dst
    → i ≤ k
    → k < i + n
    → i + n ≤ 16
    → write_all (fill_writes top src dst i n) m (src + k * 4) ≡ pattern top k
unfolding write_all update
fill_writes-src top src dst i zero k m apart le lt end = absurd (omega arith)
fill_writes-src top src dst i (suc n) k m apart le lt end = elim (ℕ_discrete k i) [
  | yes here ↦
      write_all-Untouched (src + k * 4) (fill_writes top src dst (i + 1) n)
        (update (dst + i * 4) 0 (update (src + i * 4) (pattern top i) m))
        (fill_writes-Untouched top src dst (i + 1) n k apart (omega arith) (omega arith))
      ∙ first_word top src dst i k m apart here (omega arith)
  | no later ↦
      fill_writes-src top src dst (i + 1) n k
        (update (dst + i * 4) 0 (update (src + i * 4) (pattern top i) m)) apart (omega arith)
        (omega arith) (omega arith)
]

update_same : (a v b : ℕ) (m m' : Store) → m b ≡ m' b → update a v m b ≡ update a v m' b
unfolding update
update_same a v b m m' same = ground (arith, same)

pub fill_writes-AllBelow :
    (top src dst i n : ℕ)
    → TwoArrays src dst
    → i + n ≤ 16
    → AllBelow dma_ctrl (fill_writes top src dst i n)
fill_writes-AllBelow top src dst i zero apart end = tt
fill_writes-AllBelow top src dst i (suc n) apart end = (
  ground (arith, apart),
  (ground (arith, apart), fill_writes-AllBelow top src dst (i + 1) n apart (omega arith)),
)

module _ {D : Type 0} (in32 : ℕ → D → ℕ × D) (out32 : ℕ → ℕ → D → D) (view : D → Store)
    (engine : DataMover in32 out32 view) where
  -- Writes to DDR.
  pub out_all-view :
      (writes : List (ℕ × ℕ)) (d : D) (m : Store) (b : ℕ)
      → ((b : ℕ) → view d b ≡ m b)
      → AllBelow dma_ctrl writes
      → view (out_all in32 out32 writes d) b ≡ write_all writes m b
  unfolding out_all write_all update
  out_all-view [] d m b same below = same b
  out_all-view ((a, v) ∷ writes) d m b same below =
      out_all-view writes (out32 a v d) (update a v m) b
        (λ c.
          engine.writes a v c d (ground (arith, below)) (ground (arith, below))
          ∙ update_same a v c (view d) m (same c))
        below.1

  past :
      (a v b : ℕ) (d : D) → a ≢ dma_ctrl → a ≢ dma_status → b ≢ a → view (out32 a v d) b ≡ view d b
  past a v b d no_ctrl no_status other =
      engine.writes a v b d no_ctrl no_status ∙ update_ne a v b (view d) other

  hit : (a v : ℕ) (d : D) → a ≢ dma_ctrl → a ≢ dma_status → view (out32 a v d) a ≡ v
  hit a v d no_ctrl no_status =
      engine.writes a v a d no_ctrl no_status ∙ update_at a v a (view d) refl

  -- The registers of a transfer from or to an array, set on a machine whose status is cleared first.
  abbrev pub set_up : ℕ → ℕ → D → D
  set_up ddr tag d = out32 dma_tag tag (
      out32 dma_len (dma_words * 4)
        (out32 dma_local 0 (out32 dma_ddr_addr ddr (out32 dma_status clear_done_err d))))

  set_up-past :
      (ddr tag b : ℕ) (d : D)
      → b ≢ dma_tag
      → b ≢ dma_len
      → b ≢ dma_local
      → b ≢ dma_ddr_addr
      → view (set_up ddr tag d) b ≡ view (out32 dma_status clear_done_err d) b
  set_up-past ddr tag b d n1 n2 n3 n4 =
      past dma_tag tag b _ (omega arith) (omega arith) n1
      ∙ past dma_len (dma_words * 4) b _ (omega arith) (omega arith) n2
      ∙ past dma_local 0 b _ (omega arith) (omega arith) n3
      ∙ past dma_ddr_addr ddr b _ (omega arith) (omega arith) n4

  pub set_up-kept :
      (ddr tag b : ℕ) (d : D)
      → (b < dma_ctrl) ⊎ (dma_ctrl + 0x18 ≤ b)
      → view (set_up ddr tag d) b ≡ view d b
  set_up-kept ddr tag b d out =
      set_up-past ddr tag b d (ground (arith, out)) (ground (arith, out)) (ground (arith, out))
        (ground (arith, out))
      ∙ engine.clears b d (ground (arith, out))

  pub set_up-clear :
      (ddr tag : ℕ) (d : D) → bit_and (view (set_up ddr tag d) dma_status) clear_done_err ≡ 0
  set_up-clear ddr tag d =
      ap (λ s. bit_and s clear_done_err)
        (set_up-past ddr tag dma_status d (omega arith) (omega arith) (omega arith) (omega arith))
      ∙ engine.cleared d

  -- The array, the place in the scratch memory and the length that are asked for.
  pub set_up-asks :
      (ddr tag : ℕ) (d : D)
      → (view (set_up ddr tag d) dma_ddr_addr ≡ ddr)
        × (view (set_up ddr tag d) dma_local ≡ 0)
        × (view (set_up ddr tag d) dma_len ≡ dma_words * 4)
  set_up-asks ddr tag d = (
    past dma_tag tag dma_ddr_addr _ (omega arith) (omega arith) (omega arith)
        ∙ past dma_len (dma_words * 4) dma_ddr_addr _ (omega arith) (omega arith) (omega arith)
        ∙ past dma_local 0 dma_ddr_addr _ (omega arith) (omega arith) (omega arith)
        ∙ hit dma_ddr_addr ddr _ (omega arith) (omega arith),
    past dma_tag tag dma_local _ (omega arith) (omega arith) (omega arith)
        ∙ past dma_len (dma_words * 4) dma_local _ (omega arith) (omega arith) (omega arith)
        ∙ hit dma_local 0 _ (omega arith) (omega arith),
    past dma_tag tag dma_len _ (omega arith) (omega arith) (omega arith)
        ∙ hit dma_len (dma_words * 4) _ (omega arith) (omega arith),
  )
