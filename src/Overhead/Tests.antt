-- ===== src/Overhead/Tests.antt =====
-- A cache of four banks.
use wattwatcher.Prelude.{ℕ, false, ◌≡◌, refl, true}
use wattwatcher.Double.{nat_double, ◌⊗◌}
use wattwatcher.Basic.{DeviceTy, CoreType}
use wattwatcher.Cacti.{InputParameter}
use wattwatcher.Overhead.{add_overheads}
use wattwatcher.Overhead.Cache.{add_overheads-power_gated}
use wattwatcher.Samples.{blank_input, blank_uca, technology}

abbrev cache : InputParameter ℕ
cache = record blank_input { is_cache = true; assoc = 2; nbanks = 4 }

add_overheads-power_gated_example :
    let out = add_overheads technology DeviceTy.llc_device CoreType.ooo cache blank_uca in
    let plain =
      add_overheads technology DeviceTy.llc_device CoreType.ooo
        (record cache { is_cache = false })
        blank_uca in
    (out.data_array2.power.read_op.power_gated_leakage
      ≡ plain.data_array2.power.read_op.power_gated_leakage ⊗ 4)
    × (out.data_array2.power.read_op.leakage ≡ plain.data_array2.power.read_op.leakage)
    × (out.power ≡ plain.power)
    × (out.tag_array2.power.read_op.power_gated_leakage ≡ 1 ⊗ 1)
    × (out.tag_array2.power.read_op.leakage ≡ 1 ⊗ 4 ⊗ 1)
add_overheads-power_gated_example =
    add_overheads-power_gated technology DeviceTy.llc_device CoreType.ooo cache blank_uca refl
