-- ===== src/Console/Screen/Packing.antt =====
-- The fields of the display's words: four characters, or eight attributes, to a word.
use zynq_cpu.Base.{
  ℕ, zero, suc, ◌+◌, ◌*◌, ◌/◌, ◌%◌, ◌^◌, ◌<◌, ◌≡◌, Store, u8, shl32, word, for_range, bit_or,
  bit_and, arith,
}
use zynq_cpu.Base.Bits.{bit_or-shifted, bit_and_fifteen}
use zynq_cpu.Console.Screen.{text_word, attr_word}

or-shl32 : (k low x : ℕ) → low < 2 ^ k → x * 2 ^ k < word → bit_or low (shl32 x k) ≡ low + x * 2 ^ k
or-shl32 k low x h small =
    let e : shl32 x k ≡ x * 2 ^ k = omega arith in rw e (bit_or-shifted k low x h)

pack4 :
    (a b c d : ℕ)
    → a < 256
    → b < 256
    → c < 256
    → d < 256
    → bit_or (bit_or (bit_or (bit_or 0 (shl32 a 0)) (shl32 b 8)) (shl32 c 16)) (shl32 d 24)
      ≡ a + b * 256 + c * 65536 + d * 16777216
pack4 a b c d ha hb hc hd =
    rw
      (
        or-shl32 0 0 a (omega arith) (omega arith),
        or-shl32 8 (0 + a * 1) b (omega arith) (omega arith),
        or-shl32 16 (0 + a * 1 + b * 256) c (omega arith) (omega arith),
        or-shl32 24 (0 + a * 1 + b * 256 + c * 65536) d (omega arith) (omega arith),
      )
      (omega arith)

text_word_sum :
    (m : Store) (c : ℕ)
    → text_word m c
      ≡ u8 (m (c + 0)) + u8 (m (c + 1)) * 256 + u8 (m (c + 2)) * 65536 + u8 (m (c + 3)) * 16777216
unfolding text_word for_range
text_word_sum m c =
    pack4 (u8 (m (c + 0))) (u8 (m (c + 1))) (u8 (m (c + 2))) (u8 (m (c + 3))) (omega arith)
      (omega arith) (omega arith) (omega arith)

abbrev nib : Store → ℕ → ℕ
nib m c = bit_and (u8 (m c)) 0x0f

nib-lt : (m : Store) (c : ℕ) → nib m c < 16
nib-lt m c = omega (arith, bit_and_fifteen (u8 (m c)))

pack8 :
    (a b c d e f g h : ℕ)
    → a < 16
    → b < 16
    → c < 16
    → d < 16
    → e < 16
    → f < 16
    → g < 16
    → h < 16
    → bit_or
        (bit_or
          (bit_or
            (bit_or
              (bit_or (bit_or (bit_or (bit_or 0 (shl32 a 0)) (shl32 b 4)) (shl32 c 8)) (shl32 d 12))
              (shl32 e 16))
            (shl32 f 20))
          (shl32 g 24))
        (shl32 h 28)
      ≡ a + b * 16 + c * 256 + d * 4096 + e * 65536 + f * 1048576 + g * 16777216 + h * 268435456
pack8 a b c d e f g h ha hb hc hd he hf hg hh =
    rw
      (
        or-shl32 0 0 a (omega arith) (omega arith),
        or-shl32 4 (0 + a * 1) b (omega arith) (omega arith),
        or-shl32 8 (0 + a * 1 + b * 16) c (omega arith) (omega arith),
        or-shl32 12 (0 + a * 1 + b * 16 + c * 256) d (omega arith) (omega arith),
        or-shl32 16 (0 + a * 1 + b * 16 + c * 256 + d * 4096) e (omega arith) (omega arith),
        or-shl32 20 (0 + a * 1 + b * 16 + c * 256 + d * 4096 + e * 65536) f (omega arith)
            (omega arith),
        or-shl32 24 (0 + a * 1 + b * 16 + c * 256 + d * 4096 + e * 65536 + f * 1048576) g
            (omega arith) (omega arith),
        or-shl32 28
            (0 + a * 1 + b * 16 + c * 256 + d * 4096 + e * 65536 + f * 1048576 + g * 16777216) h
            (omega arith) (omega arith),
      )
      (omega arith)

attr_word_sum :
    (m : Store) (c : ℕ)
    → attr_word m c
      ≡ nib m (c + 0)
        + nib m (c + 1) * 16
        + nib m (c + 2) * 256
        + nib m (c + 3) * 4096
        + nib m (c + 4) * 65536
        + nib m (c + 5) * 1048576
        + nib m (c + 6) * 16777216
        + nib m (c + 7) * 268435456
unfolding attr_word for_range
attr_word_sum m c =
    pack8 (nib m (c + 0)) (nib m (c + 1)) (nib m (c + 2)) (nib m (c + 3)) (nib m (c + 4))
      (nib m (c + 5)) (nib m (c + 6)) (nib m (c + 7)) (nib-lt m (c + 0)) (nib-lt m (c + 1))
      (nib-lt m (c + 2)) (nib-lt m (c + 3)) (nib-lt m (c + 4)) (nib-lt m (c + 5)) (nib-lt m (c + 6))
      (nib-lt m (c + 7))

-- Each field of a text word is the character of its cell.
pub text_field : (m : Store) (c i : ℕ) → i < 4 → text_word m c / 2 ^ (i * 8) % 256 ≡ u8 (m (c + i))
text_field m c zero h = omega (arith, text_word_sum m c)
text_field m c (suc zero) h = omega (arith, text_word_sum m c)
text_field m c (suc (suc zero)) h = omega (arith, text_word_sum m c)
text_field m c (suc (suc (suc zero))) h = omega (arith, text_word_sum m c)
text_field m c (suc (suc (suc (suc i)))) h = absurd (omega arith)

-- Each field of an attribute word is the low nibble of its cell.
pub attr_field :
    (m : Store) (c i : ℕ) → i < 8 → attr_word m c / 2 ^ (i * 4) % 16 ≡ bit_and (u8 (m (c + i))) 0x0f
attr_field m c zero h = omega (
  arith,
  attr_word_sum m c,
  nib-lt m (c + 0),
  nib-lt m (c + 1),
  nib-lt m (c + 2),
  nib-lt m (c + 3),
  nib-lt m (c + 4),
  nib-lt m (c + 5),
  nib-lt m (c + 6),
  nib-lt m (c + 7),
)
attr_field m c (suc zero) h = omega (
  arith,
  attr_word_sum m c,
  nib-lt m (c + 0),
  nib-lt m (c + 1),
  nib-lt m (c + 2),
  nib-lt m (c + 3),
  nib-lt m (c + 4),
  nib-lt m (c + 5),
  nib-lt m (c + 6),
  nib-lt m (c + 7),
)
attr_field m c (suc (suc zero)) h = omega (
  arith,
  attr_word_sum m c,
  nib-lt m (c + 0),
  nib-lt m (c + 1),
  nib-lt m (c + 2),
  nib-lt m (c + 3),
  nib-lt m (c + 4),
  nib-lt m (c + 5),
  nib-lt m (c + 6),
  nib-lt m (c + 7),
)
attr_field m c (suc (suc (suc zero))) h = omega (
  arith,
  attr_word_sum m c,
  nib-lt m (c + 0),
  nib-lt m (c + 1),
  nib-lt m (c + 2),
  nib-lt m (c + 3),
  nib-lt m (c + 4),
  nib-lt m (c + 5),
  nib-lt m (c + 6),
  nib-lt m (c + 7),
)
attr_field m c (suc (suc (suc (suc zero)))) h = omega (
  arith,
  attr_word_sum m c,
  nib-lt m (c + 0),
  nib-lt m (c + 1),
  nib-lt m (c + 2),
  nib-lt m (c + 3),
  nib-lt m (c + 4),
  nib-lt m (c + 5),
  nib-lt m (c + 6),
  nib-lt m (c + 7),
)
attr_field m c (suc (suc (suc (suc (suc zero))))) h = omega (
  arith,
  attr_word_sum m c,
  nib-lt m (c + 0),
  nib-lt m (c + 1),
  nib-lt m (c + 2),
  nib-lt m (c + 3),
  nib-lt m (c + 4),
  nib-lt m (c + 5),
  nib-lt m (c + 6),
  nib-lt m (c + 7),
)
attr_field m c (suc (suc (suc (suc (suc (suc zero)))))) h = omega (
  arith,
  attr_word_sum m c,
  nib-lt m (c + 0),
  nib-lt m (c + 1),
  nib-lt m (c + 2),
  nib-lt m (c + 3),
  nib-lt m (c + 4),
  nib-lt m (c + 5),
  nib-lt m (c + 6),
  nib-lt m (c + 7),
)
attr_field m c (suc (suc (suc (suc (suc (suc (suc zero))))))) h = omega (
  arith,
  attr_word_sum m c,
  nib-lt m (c + 0),
  nib-lt m (c + 1),
  nib-lt m (c + 2),
  nib-lt m (c + 3),
  nib-lt m (c + 4),
  nib-lt m (c + 5),
  nib-lt m (c + 6),
  nib-lt m (c + 7),
)
attr_field m c (suc (suc (suc (suc (suc (suc (suc (suc i)))))))) h = absurd (omega arith)
