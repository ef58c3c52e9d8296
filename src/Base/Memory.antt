-- ===== src/Base/Memory.antt =====
-- Memory as a function from addresses to words, with the write as an update.
use Prim.Native.Nat.{ℕ}
use mathlib.Core.Path.{◌≡◌}
use mathlib.Core.Logic.{◌≢◌}
use native.Mathlib.Omega.{arith}
use zynq_cpu.Base.Tests.{◌==◌, if◌then◌else◌}

abbrev pub Store : Type 0
Store = ℕ → ℕ

unfoldable pub update : ℕ → ℕ → Store → Store
update a v m b = if b == a then v else m b

pub update_self : (a v : ℕ) (m : Store) → update a v m a ≡ v
unfolding update
update_self a v m = ground arith

pub update_ne : (a v b : ℕ) (m : Store) → b ≢ a → update a v m b ≡ m b
unfolding update
update_ne a v b m h = ground arith

-- The law in `if` form.
pub update_lem : (a v b : ℕ) (m : Store) → update a v m b ≡ (if b == a then v else m b)
unfolding update
update_lem a v b m = ground arith
