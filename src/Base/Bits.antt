-- ===== src/Base/Bits.antt =====
-- `bit_or` and `bit_and` at variables: a field placed above the bits in use is a sum, and a mask
-- of low bits is a remainder. Each goes by one equation for the lowest binary digit.
use Prim.Native.Nat.{ℕ, zero, suc, ◌+◌, ◌*◌, ◌/◌, ◌%◌, ◌^◌, ◌≤◌, ◌<◌}
use Prim.Native.Nat.{min, max, bit_and, bit_or, digits, bit_and-bitwise, bit_or-bitwise}
use native.Mathlib.Nat.{pow-suc}
use mathlib.Core.Path.{◌≡◌, refl, ap}
use mathlib.Core.Bool.{Bool, true, ◌&&◌}
use native.Mathlib.Omega.{arith}

-- A test that every number under `top` passes, by evaluation.
unfoldable pub all_below : ℕ → (ℕ → Bool) → Bool
all_below zero test = true
all_below (suc top) test = all_below top test && test top

pub all_below_sound :
    (top : ℕ) (test : ℕ → Bool) (k : ℕ) → all_below top test ≡ true → k < top → test k ≡ true
unfolding all_below
all_below_sound zero test k passes under = absurd (omega arith)
all_below_sound (suc top) test k passes under = ground (arith, all_below_sound top test k)

-- The digits do not depend on the fuel, once there is enough.
enough_fuel :
    (z : ℕ → ℕ) (f : ℕ → ℕ → ℕ) (a n m b : ℕ) → a ≤ n → a ≤ m → digits z f n a b ≡ digits z f m a b
enough_fuel z f zero zero zero b p q = refl
enough_fuel z f zero zero (suc m) b p q = refl
enough_fuel z f zero (suc n) zero b p q = refl
enough_fuel z f zero (suc n) (suc m) b p q = refl
enough_fuel z f (suc a) zero m b p q = absurd (omega arith)
enough_fuel z f (suc a) (suc n) zero b p q = absurd (omega arith)
enough_fuel z f (suc a) (suc n) (suc m) b p q =
    ap (λ t. t * 2 + f (suc a % 2) (b % 2))
      (enough_fuel z f (suc a / 2) n m (b / 2) (omega arith) (omega arith))

pub zero-bit_or : (b : ℕ) → bit_or 0 b ≡ b
zero-bit_or b = bit_or-bitwise 0 b

zero-bit_and : (b : ℕ) → bit_and 0 b ≡ 0
zero-bit_and b = bit_and-bitwise 0 b

pub bit_or_digit : (a b : ℕ) → bit_or a b ≡ bit_or (a / 2) (b / 2) * 2 + max (a % 2) (b % 2)
bit_or_digit zero b = omega (arith, zero-bit_or b, zero-bit_or (b / 2))
bit_or_digit (suc a) b = omega (
  arith,
  bit_or-bitwise (suc a) b,
  bit_or-bitwise (suc a / 2) (b / 2),
  enough_fuel (λ d. d) max (suc a / 2) a (suc a / 2) (b / 2) (omega arith) (omega arith),
)

pub bit_and_digit : (a b : ℕ) → bit_and a b ≡ bit_and (a / 2) (b / 2) * 2 + min (a % 2) (b % 2)
bit_and_digit zero b = omega (arith, zero-bit_and b, zero-bit_and (b / 2))
bit_and_digit (suc a) b = omega (
  arith,
  bit_and-bitwise (suc a) b,
  bit_and-bitwise (suc a / 2) (b / 2),
  enough_fuel (λ d. 0) min (suc a / 2) a (suc a / 2) (b / 2) (omega arith) (omega arith),
)

bit_or_zero_below : (n a : ℕ) → a ≤ n → bit_or a 0 ≡ a
bit_or_zero_below n zero h = zero-bit_or 0
bit_or_zero_below zero (suc a) h = absurd (omega arith)
bit_or_zero_below (suc n) (suc a) h =
    omega (arith, bit_or_digit (suc a) 0, bit_or_zero_below n (suc a / 2) (omega arith))

bit_or_zero : (a : ℕ) → bit_or a 0 ≡ a
bit_or_zero a = bit_or_zero_below a a (omega arith)

-- A field above the bits in use: `low | (x << k)` is a sum where `low` fits `k` bits.
pub bit_or-shifted : (k low x : ℕ) → low < 2 ^ k → bit_or low (x * 2 ^ k) ≡ low + x * 2 ^ k
bit_or-shifted zero low x fits = ground (arith, zero-bit_or (x * 1))
bit_or-shifted (suc k) low x fits = ground (
  arith,
  pow-suc 2 k,
  ap (λ (t : ℕ). x * t) (pow-suc 2 k),
  bit_or_digit low (x * 2 ^ suc k),
  bit_or-shifted k (low / 2) x (omega (arith, pow-suc 2 k)),
)

-- The same with the field first.
pub bit_or-field : (k x low : ℕ) → low < 2 ^ k → bit_or (x * 2 ^ k) low ≡ low + x * 2 ^ k
bit_or-field zero x low fits = ground (arith, bit_or_zero (x * 1))
bit_or-field (suc k) x low fits = ground (
  arith,
  pow-suc 2 k,
  ap (λ (t : ℕ). x * t) (pow-suc 2 k),
  bit_or_digit (x * 2 ^ suc k) low,
  bit_or-field k x (low / 2) (omega (arith, pow-suc 2 k)),
)

pub bit_and-zero_below : (n a : ℕ) → a ≤ n → bit_and a 0 ≡ 0
bit_and-zero_below n zero h = zero-bit_and 0
bit_and-zero_below zero (suc a) h = absurd (omega arith)
bit_and-zero_below (suc n) (suc a) h =
    omega (arith, bit_and_digit (suc a) 0, bit_and-zero_below n (suc a / 2) (omega arith))

pub bit_and_one : (a : ℕ) → bit_and a 1 ≡ a % 2
bit_and_one a = omega (arith, bit_and_digit a 1, bit_and-zero_below (a / 2) (a / 2) (omega arith))

pub bit_and_three : (a : ℕ) → bit_and a 3 ≡ a % 4
bit_and_three a = omega (arith, bit_and_digit a 3, bit_and_one (a / 2))

pub bit_and_seven : (a : ℕ) → bit_and a 7 ≡ a % 8
bit_and_seven a = omega (arith, bit_and_digit a 7, bit_and_three (a / 2))

pub bit_and_fifteen : (a : ℕ) → bit_and a 15 ≡ a % 16
bit_and_fifteen a = omega (arith, bit_and_digit a 15, bit_and_seven (a / 2))

bit_and_31 : (a : ℕ) → bit_and a 31 ≡ a % 32
bit_and_31 a = omega (arith, bit_and_digit a 31, bit_and_fifteen (a / 2))

bit_and_63 : (a : ℕ) → bit_and a 63 ≡ a % 64
bit_and_63 a = omega (arith, bit_and_digit a 63, bit_and_31 (a / 2))

pub bit_and_127 : (a : ℕ) → bit_and a 127 ≡ a % 128
bit_and_127 a = omega (arith, bit_and_digit a 127, bit_and_63 (a / 2))

pub bit_and_byte : (a : ℕ) → bit_and a 255 ≡ a % 256
bit_and_byte a = omega (arith, bit_and_digit a 255, bit_and_127 (a / 2))
