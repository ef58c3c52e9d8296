-- ===== src/Base/Word.antt =====
-- `u32` arithmetic: native numbers with the wrap-around written out.
use Prim.Native.Nat.{ℕ, ◌+◌, ◌-◌, ◌*◌, ◌%◌, ◌^◌}

abbrev pub word : ℕ
word = 0x1_0000_0000

abbrev pub u8 : ℕ → ℕ
u8 a = a % 256

abbrev pub add32 : ℕ → ℕ → ℕ
add32 a b = (a + b) % word

abbrev pub sub32 : ℕ → ℕ → ℕ
sub32 a b = (a % word + word - b % word) % word

abbrev pub mul32 : ℕ → ℕ → ℕ
mul32 a b = (a * b) % word

abbrev pub shl32 : ℕ → ℕ → ℕ
shl32 a k = (a * 2 ^ k) % word
