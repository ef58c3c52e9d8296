-- ===== src/Bridge/Input/Word.antt =====
-- The four bytes of a word of the input ring (hw_bringup/ps_linux_boot.c).
use zynq_cpu.Base.{
  ℕ, zero, suc, ◌+◌, ◌-◌, ◌*◌, ◌/◌, ◌%◌, ◌^◌, ◌<◌, ◌≡◌, ◌∙◌, ap, refl, word, shl32, bit_and, bit_or,
  ◌==◌, if◌then◌else◌, arith,
}
use zynq_cpu.Base.Bits.{bit_and_three, zero-bit_or, bit_and-zero_below}
use zynq_cpu.Base.Fields.{bit_and-fields, bit_and-ones, bit_or-fields, bit_or-zero}
use zynq_cpu.Bridge.Input.{put_in_word}

module _ (e f lo mid hi ch : ℕ) (low : lo < 2 ^ e) (byte : mid < 2 ^ 8) (high : hi < 2 ^ f)
    (new : ch < 2 ^ 8) (pos : 0 < 2 ^ e) where
  masked :
      bit_and (lo + (mid + hi * 2 ^ 8) * 2 ^ e) (2 ^ e - 1 + (0 + (2 ^ f - 1) * 2 ^ 8) * 2 ^ e)
      ≡ lo + (0 + hi * 2 ^ 8) * 2 ^ e
  masked =
      rw
        (
          bit_and-fields e lo (2 ^ e - 1) (mid + hi * 2 ^ 8) (0 + (2 ^ f - 1) * 2 ^ 8) low
              (omega arith),
          bit_and-fields 8 mid 0 hi (2 ^ f - 1) byte (omega arith),
          bit_and-ones e lo low,
          bit_and-ones f hi high,
          bit_and-zero_below mid mid (omega arith),
        )
        refl

  merged :
      bit_or (lo + (0 + hi * 2 ^ 8) * 2 ^ e) (0 + (ch + 0 * 2 ^ 8) * 2 ^ e)
      ≡ lo + (ch + hi * 2 ^ 8) * 2 ^ e
  merged =
      rw
        (
          bit_or-fields e lo 0 (0 + hi * 2 ^ 8) (ch + 0 * 2 ^ 8) low pos,
          bit_or-fields 8 0 ch hi 0 (omega arith) new,
          bit_or-zero lo,
          bit_or-zero hi,
          zero-bit_or ch,
        )
        refl

-- With the byte at `e` bits and `f` bits above it.
put_lem :
    (e f w ch : ℕ)
    → 0 < 2 ^ e
    → w < 2 ^ 32
    → w / 2 ^ e / 2 ^ 8 < 2 ^ f
    → ch < 2 ^ 8
    → w % 2 ^ e < 2 ^ e
    → w ≡ w % 2 ^ e + (w / 2 ^ e % 2 ^ 8 + w / 2 ^ e / 2 ^ 8 * 2 ^ 8) * 2 ^ e
    → bit_or
        (bit_and w (2 ^ e - 1 + (0 + (2 ^ f - 1) * 2 ^ 8) * 2 ^ e))
        (0 + (ch + 0 * 2 ^ 8) * 2 ^ e)
      ≡ w % 2 ^ e + (ch + w / 2 ^ e / 2 ^ 8 * 2 ^ 8) * 2 ^ e
put_lem e f w ch pos small high new low parts =
    let lo = w % 2 ^ e in
    let mid = w / 2 ^ e % 2 ^ 8 in
    let hi = w / 2 ^ e / 2 ^ 8 in
    let mask = 2 ^ e - 1 + (0 + (2 ^ f - 1) * 2 ^ 8) * 2 ^ e in
    let byte = 0 + (ch + 0 * 2 ^ 8) * 2 ^ e in
    ap (λ v. bit_or (bit_and v mask) byte) parts
    ∙ ap (λ v. bit_or v byte) (masked e f lo mid hi ch low (omega arith) high new pos)
    ∙ merged e f lo mid hi ch low (omega arith) high new pos

abbrev pub field : ℕ → ℕ → ℕ
field w j = w / 2 ^ (j * 8) % 256

module _ (idx ch w : ℕ) (c : ch < 256) (h : w < word) where
  -- The word after the byte went to its place `k`.
  record Placed (k : ℕ) (r : ℕ) : Type 0 where
    small : r < word
    byte0 : field r 0 ≡ (if 0 == k then ch else field w 0)
    byte1 : field r 1 ≡ (if 1 == k then ch else field w 1)
    byte2 : field r 2 ≡ (if 2 == k then ch else field w 2)
    byte3 : field r 3 ≡ (if 3 == k then ch else field w 3)

  placed0 : idx % 4 ≡ 0 → Placed 0 (put_in_word idx ch w)
  unfolding put_in_word
  placed0 e =
      let shifted : shl32 ch (0 * 8) ≡ 0 + (ch + 0 * 2 ^ 8) * 2 ^ 0 = omega arith in
      let put = put_lem 0 24 w ch (omega arith) h (omega arith) c (omega arith) (omega arith) in
      let mask = word - 1 - shl32 0xff (0 * 8) in
      let whole : bit_or (bit_and w mask) (shl32 ch (0 * 8))
          ≡ w % 2 ^ 0 + (ch + w / 2 ^ 0 / 2 ^ 8 * 2 ^ 8) * 2 ^ 0 =
        rw shifted put in
      rw (bit_and_three idx, e, whole)
        (record {
          small = omega arith;
          byte0 = omega arith;
          byte1 = omega arith;
          byte2 = omega arith;
          byte3 = omega arith;
        })

  placed1 : idx % 4 ≡ 1 → Placed 1 (put_in_word idx ch w)
  unfolding put_in_word
  placed1 e =
      let shifted : shl32 ch (1 * 8) ≡ 0 + (ch + 0 * 2 ^ 8) * 2 ^ 8 = omega arith in
      let put = put_lem 8 16 w ch (omega arith) h (omega arith) c (omega arith) (omega arith) in
      let mask = word - 1 - shl32 0xff (1 * 8) in
      let whole : bit_or (bit_and w mask) (shl32 ch (1 * 8))
          ≡ w % 2 ^ 8 + (ch + w / 2 ^ 8 / 2 ^ 8 * 2 ^ 8) * 2 ^ 8 =
        rw shifted put in
      rw (bit_and_three idx, e, whole)
        (record {
          small = omega arith;
          byte0 = omega arith;
          byte1 = omega arith;
          byte2 = omega arith;
          byte3 = omega arith;
        })

  placed2 : idx % 4 ≡ 2 → Placed 2 (put_in_word idx ch w)
  unfolding put_in_word
  placed2 e =
      let shifted : shl32 ch (2 * 8) ≡ 0 + (ch + 0 * 2 ^ 8) * 2 ^ 16 = omega arith in
      let put = put_lem 16 8 w ch (omega arith) h (omega arith) c (omega arith) (omega arith) in
      let mask = word - 1 - shl32 0xff (2 * 8) in
      let whole : bit_or (bit_and w mask) (shl32 ch (2 * 8))
          ≡ w % 2 ^ 16 + (ch + w / 2 ^ 16 / 2 ^ 8 * 2 ^ 8) * 2 ^ 16 =
        rw shifted put in
      rw (bit_and_three idx, e, whole)
        (record {
          small = omega arith;
          byte0 = omega arith;
          byte1 = omega arith;
          byte2 = omega arith;
          byte3 = omega arith;
        })

  placed3 : idx % 4 ≡ 3 → Placed 3 (put_in_word idx ch w)
  unfolding put_in_word
  placed3 e =
      let shifted : shl32 ch (3 * 8) ≡ 0 + (ch + 0 * 2 ^ 8) * 2 ^ 24 = omega arith in
      let put = put_lem 24 0 w ch (omega arith) h (omega arith) c (omega arith) (omega arith) in
      let mask = word - 1 - shl32 0xff (3 * 8) in
      let whole : bit_or (bit_and w mask) (shl32 ch (3 * 8))
          ≡ w % 2 ^ 24 + (ch + w / 2 ^ 24 / 2 ^ 8 * 2 ^ 8) * 2 ^ 24 =
        rw shifted put in
      rw (bit_and_three idx, e, whole)
        (record {
          small = omega arith;
          byte0 = omega arith;
          byte1 = omega arith;
          byte2 = omega arith;
          byte3 = omega arith;
        })

  Placed-field :
      (k r : ℕ) → Placed k r → (j : ℕ) → j < 4 → field r j ≡ (if j == k then ch else field w j)
  Placed-field k r p zero lt = p.byte0
  Placed-field k r p (suc zero) lt = p.byte1
  Placed-field k r p (suc (suc zero)) lt = p.byte2
  Placed-field k r p (suc (suc (suc zero))) lt = p.byte3
  Placed-field k r p (suc (suc (suc (suc j)))) lt = absurd (omega arith)

  placed : (k : ℕ) → idx % 4 ≡ k → Placed k (put_in_word idx ch w)
  placed zero e = placed0 e
  placed (suc zero) e = placed1 e
  placed (suc (suc zero)) e = placed2 e
  placed (suc (suc (suc zero))) e = placed3 e
  placed (suc (suc (suc (suc k)))) e = absurd (omega arith)

  -- The byte stands at its place, the other three are as they were, and the word has 32 bits.
  pub put_in_word_lem :
      (j : ℕ)
      → j < 4
      → (field (put_in_word idx ch w) j ≡ (if j == idx % 4 then ch else field w j))
        × (put_in_word idx ch w < word)
  put_in_word_lem j lt =
      let p = placed (idx % 4) refl in
      (Placed-field (idx % 4) (put_in_word idx ch w) p j lt, p.small)
