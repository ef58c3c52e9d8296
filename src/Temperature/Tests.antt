-- ===== src/Temperature/Tests.antt =====
-- The temperature's theorems at concrete samples.
use zynq_cpu.Base.{
  ℕ, ◌+◌, ◌*◌, ◌%◌, ◌≤◌, ◌<◌, ◌≡◌, word, add32, Store, Option, none, some, update, update_lem,
}
use zynq_cpu.Temperature.{
  xadc_raw_to_millic, publish_sample, sysmon_status, sysmon_temp_raw, sysmon_temp_mc,
  sysmon_sample_seq,
}
use zynq_cpu.Temperature.Publish.{xadc_raw_to_millic_lem, publish_sample_lem}

xadc_raw_to_millic_lem_example :
    (xadc_raw_to_millic 40000 < word)
    × ((xadc_raw_to_millic 40000 + 273150) % word * 65536 ≤ 40000 % 65536 * 503975 + 32768)
    × (40000 % 65536 * 503975 + 32768 < ((xadc_raw_to_millic 40000 + 273150) % word + 1) * 65536)
xadc_raw_to_millic_lem_example = xadc_raw_to_millic_lem 40000

-- A device that is its registers.
abbrev load : ℕ → Store → ℕ × Store
load a m = (m a, m)

abbrev peek : ℕ → Store → ℕ
peek a m = m a

abbrev off : Store
off a = 0

abbrev sampled : Option ℕ
sampled = some 40000

publish_sample_lem_example :
    (peek sysmon_status (publish_sample load update sampled 7 off).1
      ≡ (elim sampled [ none ↦ 2 | some raw ↦ 3 ]))
    × (peek sysmon_temp_raw (publish_sample load update sampled 7 off).1
        ≡ (elim sampled [ none ↦ peek sysmon_temp_raw off | some raw ↦ raw ]))
    × (peek sysmon_temp_mc (publish_sample load update sampled 7 off).1
        ≡ (elim sampled [ none ↦ peek sysmon_temp_mc off | some raw ↦ xadc_raw_to_millic raw ]))
    × (peek sysmon_sample_seq (publish_sample load update sampled 7 off).1
        ≡ (elim sampled [ none ↦ peek sysmon_sample_seq off | some raw ↦ add32 7 1 ]))
    × ((publish_sample load update sampled 7 off).0
        ≡ (elim sampled [ none ↦ 7 | some raw ↦ add32 7 1 ]))
publish_sample_lem_example =
    publish_sample_lem load update peek (λ a b v d. update_lem b v a d) sampled 7 off
