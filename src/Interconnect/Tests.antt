-- ===== src/Interconnect/Tests.antt =====
-- A wire that stays too slow at every width.
use wattwatcher.Prelude.{ℕ, ◌≡◌, refl, true, false, ◌⊎◌, some}
use wattwatcher.Double.{nat_double}
use wattwatcher.Basic.{DeviceTy, CoreType}
use wattwatcher.Interconnect.{
  Interconnect, compute, fresh, too_slow, widen, widen_until, widenings, meet_latency,
  meet_throughput,
}
use wattwatcher.Interconnect.Widen.{widen_until-first, meet_latency-overflow}
use wattwatcher.Samples.{blank_input, wire}

abbrev slow : Interconnect ℕ
slow = compute wire (
    fresh (record blank_input { latency = 10; throughput = 10 }) DeviceTy.core_device CoreType.ooo 8
      40 true 1 true 1 1)

widen_until-first_example :
    let w = widen_until wire widenings 10 slow in
    (too_slow 10 w ≡ false)
    × ((w ≡ slow)
        ⊎ ((too_slow 10 slow ≡ true)
            × ((w ≡ widen wire slow)
                ⊎ ((too_slow 10 (widen wire slow) ≡ true) × (w ≡ widen wire (widen wire slow))))))
unfolding compute
widen_until-first_example = widen_until-first wire 10 slow refl

meet_latency-overflow_example :
    let w = meet_latency wire true slow in
    (w.latency ≡ slow.latency)
    × (w.latency_overflow ≡ nat_double.lt w.latency w.delay)
    × (w.latency_overflow ≡ true → nat_double.lt w.width_scaling 3 ≡ false)
unfolding compute
meet_latency-overflow_example = meet_latency-overflow wire slow refl refl

-- Four stages of ten.
abbrev staged : Interconnect ℕ
staged = record (widen wire (widen wire slow)) { num_pipe_stages = some 4; delay = 10 }

stages : meet_throughput wire true slow ≡ some staged
unfolding meet_throughput widen_until compute
stages = refl
