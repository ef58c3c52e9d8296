-- ===== src/Probe/Arrays.antt =====
-- The arrays that the smoke tests fill (hw_bringup/ps_uart_probe_cpu.c, ps_uart_probe_sbi.c).
use zynq_cpu.Base.{
  ℕ, zero, suc, ◌+◌, ◌*◌, ◌≤◌, ◌<◌, ◌≡◌, ◌⊎◌, inl, refl, ap, ◌∙◌, Store, update, ◌==◌,
  if◌then◌else◌, List, [], ◌∷◌, length, map, arith,
}
use zynq_cpu.Console.Writer.{char_at}
use zynq_cpu.Boot.Words.{write_all}
use zynq_cpu.Probe.{zeros_at, words_at}
use zynq_cpu.Probe.Started.{Untouched, write_all-Untouched}
use zynq_cpu.Probe.DeviceTree.{tree_word}

pub zeros_at-Untouched :
    (a base n : ℕ) → (a < base) ⊎ (base + n * 4 ≤ a) → Untouched a (zeros_at base n)
zeros_at-Untouched a base zero apart = tt
zeros_at-Untouched a base (suc n) apart =
    (ground (arith, apart), zeros_at-Untouched a (base + 4) n (ground (arith, apart)))

pub words_at-Untouched :
    (a base : ℕ) (ws : List ℕ)
    → (a < base) ⊎ (base + length ws * 4 ≤ a)
    → Untouched a (words_at base ws)
words_at-Untouched a base [] apart = tt
words_at-Untouched a base (w ∷ ws) apart =
    (ground (arith, apart), words_at-Untouched a (base + 4) ws (ground (arith, apart)))

pub update_at : (a v b : ℕ) (m : Store) → b ≡ a → update a v m b ≡ v
unfolding update
update_at a v b m e = ground arith

update_place :
    (base offset j w k : ℕ) (m : Store)
    → update (base + (offset + j) * 4) w m (base + (offset + k) * 4)
      ≡ (if k == j then w else m (base + (offset + k) * 4))
unfolding update
update_place base offset j w k m = ground arith

pub write_all-zeros_at :
    (base n k : ℕ) (m : Store) → k < n → write_all (zeros_at base n) m (base + k * 4) ≡ 0
unfolding write_all update
write_all-zeros_at base zero k m lt = absurd (omega arith)
write_all-zeros_at base (suc n) zero m lt =
    write_all-Untouched (base + 0 * 4) (zeros_at (base + 4) n) (update base 0 m)
      (zeros_at-Untouched (base + 0 * 4) (base + 4) n (inl (omega arith)))
    ∙ update_at base 0 (base + 0 * 4) m (omega arith)
write_all-zeros_at base (suc n) (suc k) m lt =
    let at : base + suc k * 4 ≡ base + 4 + k * 4 = omega arith in
    ap (write_all (zeros_at (base + 4) n) (update base 0 m)) at
    ∙ write_all-zeros_at (base + 4) n k (update base 0 m) (omega arith)

pub write_all-words_at :
    (base k : ℕ) (ws : List ℕ) (m : Store)
    → k < length ws
    → write_all (words_at base ws) m (base + k * 4) ≡ char_at ws k
unfolding write_all
write_all-words_at base k [] m lt = absurd (omega arith)
write_all-words_at base zero (w ∷ ws) m lt =
    write_all-Untouched (base + 0 * 4) (words_at (base + 4) ws) (update base w m)
      (words_at-Untouched (base + 0 * 4) (base + 4) ws (inl (omega arith)))
    ∙ update_at base w (base + 0 * 4) m (omega arith)
write_all-words_at base (suc k) (w ∷ ws) m lt =
    let at : base + suc k * 4 ≡ base + 4 + k * 4 = omega arith in
    ap (write_all (words_at (base + 4) ws) (update base w m)) at
    ∙ write_all-words_at (base + 4) k ws (update base w m) (omega arith)

-- Words that are put at places of an array.
pub write_all-placed :
    (base offset k : ℕ) (ws : List (ℕ × ℕ)) (m : Store)
    → write_all
        (map (λ (w : ℕ × ℕ). (base + (offset + w.0) * 4, w.1)) ws)
        m
        (base + (offset + k) * 4)
      ≡ tree_word ws k (m (base + (offset + k) * 4))
unfolding write_all
write_all-placed base offset k [] m = refl
write_all-placed base offset k ((j, w) ∷ ws) m =
    write_all-placed base offset k ws (update (base + (offset + j) * 4) w m)
    ∙ ap (tree_word ws k) (update_place base offset j w k m)
