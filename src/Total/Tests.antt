-- ===== src/Total/Tests.antt =====
-- Three equal units, counted at once and one by one.
use wattwatcher.Prelude.{◌≡◌, refl, true, false}
use wattwatcher.Double.{nat_double, nat-IsExact}
use wattwatcher.Total.{add_units, no_total, for_units, homogeneous_step, add_total}
use wattwatcher.Total.Sums.{homogeneous-heterogeneous}
use wattwatcher.Samples.{part}

homogeneous-heterogeneous_example :
    let one = add_units true 3 (λ _. part 5) no_total in
    let all = add_units false 3 (λ _. part 5) no_total in
    (one.kind.area ≡ all.kind.area)
    × (one.kind.power ≡ all.kind.power)
    × (one.chip.area ≡ all.chip.area)
    × (one.chip.power ≡ all.chip.power)
homogeneous-heterogeneous_example = homogeneous-heterogeneous nat-IsExact 3 (part 5) no_total

area : (add_units true 3 (λ _. part 5) no_total).chip.area ≡ 15
unfolding add_units for_units homogeneous_step add_total
area = refl
