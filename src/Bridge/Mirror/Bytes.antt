-- ===== src/Bridge/Mirror/Bytes.antt =====
-- The bytes that the ring holds, by arithmetic (hw_bringup/ps_linux_boot.c,
-- `print_linux_console_mirror`).
use zynq_cpu.Base.{
  both, ℕ, zero, suc, ◌+◌, ◌*◌, ◌/◌, ◌%◌, ◌^◌, ◌≡◌, refl, Store, update, update_ne, add32, bit_and,
  ◌==◌, ==_iff, ◌&&◌, Bool, true, List, [], ◌∷◌, arith,
}
use zynq_cpu.Base.Bits.{all_below, all_below_sound, bit_and_byte}
use zynq_cpu.Bridge.{ring_base, ring_head}
use zynq_cpu.Bridge.Mirror.{ring_byte}

-- Byte number `i` of the ring: words of four bytes, the low one first, from `ring_base` on, over and over.
abbrev pub byte_of : Store → ℕ → ℕ
byte_of scratch i = scratch (ring_base + i % 256 / 4 * 4) / 256 ^ (i % 4) % 256

-- The bytes number `i`, …, `i + n - 1`, modulo 2^32.
abbrev pub bytes_from : Store → ℕ → ℕ → List ℕ
bytes_from scratch zero i = []
bytes_from scratch (suc n) i = byte_of scratch i ∷ bytes_from scratch n (add32 i 1)

place_table :
    all_below 256
      (λ i. (bit_and i 0xFFFF_FFFC == i / 4 * 4) && (2 ^ (bit_and i 3 * 8) == 256 ^ (i % 4)))
    ≡ true
unfolding all_below
place_table = refl

pub ring_byte_lem : (scratch : Store) (i : ℕ) → ring_byte scratch i ≡ byte_of scratch i
unfolding ring_byte
ring_byte_lem scratch i =
    let k = i % 256 in
    let test : ℕ → Bool =
      λ j. (bit_and j 0xFFFF_FFFC == j / 4 * 4) && (2 ^ (bit_and j 3 * 8) == 256 ^ (j % 4)) in
    let (at, lane) =
      (both (bit_and k 0xFFFF_FFFC == k / 4 * 4) (2 ^ (bit_and k 3 * 8) == 256 ^ (k % 4))).0
        (all_below_sound 256 test k place_table (omega arith)) in
    let at' : bit_and k 0xFFFF_FFFC ≡ k / 4 * 4 =
      (==_iff (bit_and k 0xFFFF_FFFC) (k / 4 * 4)).0 at in
    let lane' : 2 ^ (bit_and k 3 * 8) ≡ 256 ^ (k % 4) =
      (==_iff (2 ^ (bit_and k 3 * 8)) (256 ^ (k % 4))).0 lane in
    let low : k % 4 ≡ i % 4 = omega arith in
    rw
      (
        bit_and_byte i,
        at',
        lane',
        low,
        bit_and_byte (scratch (ring_base + k / 4 * 4) / 256 ^ (i % 4)),
      )
      refl

-- Giving a byte back does not change the ring.
pub bytes_from-head :
    (scratch : Store) (v n i : ℕ)
    → bytes_from (update ring_head v scratch) n i ≡ bytes_from scratch n i
bytes_from-head scratch v zero i = refl
bytes_from-head scratch v (suc n) i =
    rw
      (
        update_ne ring_head v (ring_base + i % 256 / 4 * 4) scratch (omega arith),
        bytes_from-head scratch v n (add32 i 1),
      )
      refl
