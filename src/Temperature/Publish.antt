-- ===== src/Temperature/Publish.antt =====
-- The conversion of a sample and the registers that Linux reads (hw_bringup/ps_linux_boot.c).
use zynq_cpu.Base.{
  ℕ, ◌+◌, ◌*◌, ◌/◌, ◌%◌, ◌^◌, ◌≤◌, ◌<◌, ◌≡◌, refl, ap, ◌∙◌, word, add32, bit_and, ◌==◌,
  if◌then◌else◌, Option, none, some, arith,
}
use zynq_cpu.Base.Bits.{bit_and-zero_below}
use zynq_cpu.Base.Fields.{bit_and-fields, bit_and-ones}
use zynq_cpu.Temperature.{
  xadc_raw_to_millic, publish_sample, sysmon_status, sysmon_temp_raw, sysmon_temp_mc,
  sysmon_sample_seq,
}

bit_and-half : (a : ℕ) → bit_and a 0xffff ≡ a % 65536
bit_and-half a =
    let parts : a ≡ a % 2 ^ 16 + a / 2 ^ 16 * 2 ^ 16 = omega arith in
    ap (λ v. bit_and v 0xffff) parts
    ∙ bit_and-fields 16 (a % 2 ^ 16) 0xffff (a / 2 ^ 16) 0 (omega arith) (omega arith)
    ∙ rw
        (
          bit_and-ones 16 (a % 2 ^ 16) (omega arith),
          bit_and-zero_below (a / 2 ^ 16) (a / 2 ^ 16) (omega arith),
        )
        (omega arith)

-- The millidegrees, read as a signed number, are the nearest to raw * 503.975 / 65.536 - 273150 for
-- the low 16 bits of the sample: with 273150 added back, no 32-bit wrap is left, and the product is
-- within half a unit.
pub xadc_raw_to_millic_lem :
    (raw : ℕ)
    → (xadc_raw_to_millic raw < word)
      × ((xadc_raw_to_millic raw + 273150) % word * 65536 ≤ raw % 65536 * 503975 + 32768)
      × (raw % 65536 * 503975 + 32768 < ((xadc_raw_to_millic raw + 273150) % word + 1) * 65536)
unfolding xadc_raw_to_millic
xadc_raw_to_millic_lem raw = rw (bit_and-half raw) (omega arith, omega arith, omega arith)

-- A sample or its absence, as the registers have it: the status has its valid bit exactly for a
-- sample, and the other three registers change for a sample alone. `peek` is what a register holds,
-- where a write sets the register and no other.
pub publish_sample_lem :
    {D : Type 0} (in32 : ℕ → D → ℕ × D) (out32 : ℕ → ℕ → D → D) (peek : ℕ → D → ℕ)
    → ((a b v : ℕ) (d : D) → peek a (out32 b v d) ≡ (if a == b then v else peek a d))
    → (sample : Option ℕ) (seq : ℕ) (d : D)
    → (peek sysmon_status (publish_sample in32 out32 sample seq d).1
        ≡ (elim sample [ none ↦ 2 | some raw ↦ 3 ]))
      × (peek sysmon_temp_raw (publish_sample in32 out32 sample seq d).1
          ≡ (elim sample [ none ↦ peek sysmon_temp_raw d | some raw ↦ raw ]))
      × (peek sysmon_temp_mc (publish_sample in32 out32 sample seq d).1
          ≡ (elim sample [ none ↦ peek sysmon_temp_mc d | some raw ↦ xadc_raw_to_millic raw ]))
      × (peek sysmon_sample_seq (publish_sample in32 out32 sample seq d).1
          ≡ (elim sample [ none ↦ peek sysmon_sample_seq d | some raw ↦ add32 seq 1 ]))
      × ((publish_sample in32 out32 sample seq d).0
          ≡ (elim sample [ none ↦ seq | some raw ↦ add32 seq 1 ]))
unfolding publish_sample
publish_sample_lem in32 out32 peek law none seq d = (
  law sysmon_status sysmon_status 2 d,
  law sysmon_temp_raw sysmon_status 2 d,
  law sysmon_temp_mc sysmon_status 2 d,
  law sysmon_sample_seq sysmon_status 2 d,
  refl,
)
publish_sample_lem in32 out32 peek law (some raw) seq d =
    let d1 = out32 sysmon_temp_raw raw d in
    let d2 = out32 sysmon_temp_mc (xadc_raw_to_millic raw) d1 in
    let d3 = out32 sysmon_sample_seq (add32 seq 1) d2 in
    (
      law sysmon_status sysmon_status 3 d3,
      law sysmon_temp_raw sysmon_status 3 d3
          ∙ law sysmon_temp_raw sysmon_sample_seq (add32 seq 1) d2
          ∙ law sysmon_temp_raw sysmon_temp_mc (xadc_raw_to_millic raw) d1
          ∙ law sysmon_temp_raw sysmon_temp_raw raw d,
      law sysmon_temp_mc sysmon_status 3 d3
          ∙ law sysmon_temp_mc sysmon_sample_seq (add32 seq 1) d2
          ∙ law sysmon_temp_mc sysmon_temp_mc (xadc_raw_to_millic raw) d1,
      law sysmon_sample_seq sysmon_status 3 d3
          ∙ law sysmon_sample_seq sysmon_sample_seq (add32 seq 1) d2,
      refl,
    )
