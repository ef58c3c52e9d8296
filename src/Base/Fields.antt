-- ===== src/Base/Fields.antt =====
-- `bit_and` and `bit_or` of two numbers, field by field.
use Prim.Native.Nat.{ℕ, zero, suc, ◌+◌, ◌-◌, ◌*◌, ◌/◌, ◌^◌, ◌≤◌, ◌<◌, bit_and, bit_or}
use native.Mathlib.Nat.{pow-suc}
use mathlib.Core.Path.{◌≡◌, ap}
use native.Mathlib.Omega.{arith}
use zynq_cpu.Base.Bits.{bit_and_digit, bit_or_digit, bit_or-shifted, bit_and-zero_below}

pub bit_and-fields :
    (k a b x y : ℕ)
    → a < 2 ^ k
    → b < 2 ^ k
    → bit_and (a + x * 2 ^ k) (b + y * 2 ^ k) ≡ bit_and a b + bit_and x y * 2 ^ k
bit_and-fields zero a b x y h l =
    let p : a ≡ 0 = omega arith in
    let q : b ≡ 0 = omega arith in
    let u : a + x * 1 ≡ x = omega arith in
    let v : b + y * 1 ≡ y = omega arith in
    rw (u, v, p, q) (omega (arith, bit_and-zero_below 0 0 (omega arith)))
bit_and-fields (suc k) a b x y h l = ground (
  arith,
  pow-suc 2 k,
  ap (λ (t : ℕ). x * t) (pow-suc 2 k),
  ap (λ (t : ℕ). y * t) (pow-suc 2 k),
  ap (λ (t : ℕ). bit_and x y * t) (pow-suc 2 k),
  bit_and_digit (a + x * 2 ^ suc k) (b + y * 2 ^ suc k),
  bit_and_digit a b,
  bit_and-fields k (a / 2) (b / 2) x y (omega (arith, pow-suc 2 k)) (omega (arith, pow-suc 2 k)),
)

bit_or-zero_below : (n a : ℕ) → a ≤ n → bit_or a 0 ≡ a
bit_or-zero_below n zero h = bit_or-shifted 0 0 0 (omega arith)
bit_or-zero_below zero (suc a) h = absurd (omega arith)
bit_or-zero_below (suc n) (suc a) h =
    omega (arith, bit_or_digit (suc a) 0, bit_or-zero_below n (suc a / 2) (omega arith))

pub bit_or-zero : (a : ℕ) → bit_or a 0 ≡ a
bit_or-zero a = bit_or-zero_below a a (omega arith)

pub bit_or-fields :
    (k a b x y : ℕ)
    → a < 2 ^ k
    → b < 2 ^ k
    → bit_or (a + x * 2 ^ k) (b + y * 2 ^ k) ≡ bit_or a b + bit_or x y * 2 ^ k
bit_or-fields zero a b x y h l =
    let p : a ≡ 0 = omega arith in
    let q : b ≡ 0 = omega arith in
    let u : a + x * 1 ≡ x = omega arith in
    let v : b + y * 1 ≡ y = omega arith in rw (u, v, p, q) (omega (arith, bit_or-zero 0))
bit_or-fields (suc k) a b x y h l = ground (
  arith,
  pow-suc 2 k,
  ap (λ (t : ℕ). x * t) (pow-suc 2 k),
  ap (λ (t : ℕ). y * t) (pow-suc 2 k),
  ap (λ (t : ℕ). bit_or x y * t) (pow-suc 2 k),
  bit_or_digit (a + x * 2 ^ suc k) (b + y * 2 ^ suc k),
  bit_or_digit a b,
  bit_or-fields k (a / 2) (b / 2) x y (omega (arith, pow-suc 2 k)) (omega (arith, pow-suc 2 k)),
)

-- A mask of ones keeps what fits it.
pub bit_and-ones : (k a : ℕ) → a < 2 ^ k → bit_and a (2 ^ k - 1) ≡ a
bit_and-ones zero a h = let z : a ≡ 0 = omega arith in rw z (bit_and-zero_below 0 0 (omega arith))
bit_and-ones (suc k) a h = omega (
  arith,
  pow-suc 2 k,
  bit_and_digit a (2 ^ suc k - 1),
  ap (bit_and (a / 2)) (half k),
  bit_and-ones k (a / 2) (omega (arith, pow-suc 2 k)),
  positive k,
)
  where
    positive : (k : ℕ) → 0 < 2 ^ k
    positive zero = omega arith
    positive (suc k) = omega (arith, positive k, pow-suc 2 k)

    half : (k : ℕ) → (2 ^ suc k - 1) / 2 ≡ 2 ^ k - 1
    half k = omega (arith, pow-suc 2 k, positive k)
