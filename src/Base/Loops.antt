-- ===== src/Base/Loops.antt =====
-- Counted loops, upwards and downwards, with an invariant rule for each.
use Prim.Native.Nat.{ℕ, zero, suc, ◌+◌, ◌<◌, ◌≤◌}
use mathlib.Core.Path.{◌≡◌}
use native.Mathlib.Omega.{arith}

-- for (k = first; k < first + rounds; k++) state = step(k, state)
unfoldable pub for_range {ℓ} : {S : Type ℓ} → ℕ → ℕ → (ℕ → S → S) → S → S
for_range zero first step state = state
for_range (suc rounds) first step state = for_range rounds (first + 1) step (step first state)

-- for (k = lo + n - 1; k >= lo; k--) s = body(k, s), with n the rounds left.
unfoldable pub for_down {ℓ} : {S : Type ℓ} → ℕ → ℕ → (ℕ → S → S) → S → S
for_down zero lo body s = s
for_down (suc n) lo body s = for_down n lo body (body (lo + n) s)

-- What holds at the start and is kept by every round from `lo` to `hi` holds at `hi`.
pub for_range_inv {ℓ κ} :
    {S : Type ℓ} (P : ℕ → S → Type κ) (step : ℕ → S → S) (lo hi : ℕ)
    → ((k : ℕ) (state : S) → lo ≤ k → k < hi → P k state → P (k + 1) (step k state))
    → (rounds first : ℕ) (state : S) → lo ≤ first
    → first + rounds ≡ hi
    → P first state
    → P hi (for_range rounds first step state)
unfolding for_range
for_range_inv P step lo hi keep zero first state above end holds =
    let at_end : first ≡ hi = omega arith in rw (← at_end) holds
for_range_inv P step lo hi keep (suc rounds) first state above end holds =
    for_range_inv P step lo hi keep rounds (first + 1) (step first state) (omega arith)
      (omega arith) (keep first state above (omega arith) holds)

-- `P n` holds when n rounds are left.
pub for_down_inv {ℓ κ} :
    {S : Type ℓ} (P : ℕ → S → Type κ) (body : ℕ → S → S) (lo top : ℕ)
    → ((n : ℕ) (s : S) → n < top → P (suc n) s → P n (body (lo + n) s))
    → (n : ℕ) (s : S) → n ≤ top
    → P n s
    → P 0 (for_down n lo body s)
unfolding for_down
for_down_inv P body lo top keep zero s l h = h
for_down_inv P body lo top keep (suc n) s l h =
    for_down_inv P body lo top keep n (body (lo + n) s) (omega arith) (keep n s (omega arith) h)
