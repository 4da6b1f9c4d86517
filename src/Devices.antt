-- ===== src/Devices.antt =====
-- The device functions of CACTI that the controllers call, and the powers they make of them
-- (fast_mcpat/iocontrollers.cc, fast_mcpat/memoryctrl.cc).
use wattwatcher.Prelude.{false}
use wattwatcher.Double.{Double, ◌⊗◌}
use wattwatcher.Power.{PowerDef, no_components, no_power}
use wattwatcher.Basic.{
  DeviceTy, CoreType, Technology, longer_channel_device_reduction, power_gating_leakage_reduction,
}
use wattwatcher.Cacti.{InputParameter}

pub record Devices (F : Type 0) : Type 0 where
  -- the g_tp that init_interface leaves
  pub init_interface : InputParameter F → Technology F
  -- pmos_to_nmos_sz_ratio(), by the g_tp that the constructor finds
  pub pmos_to_nmos_sz_ratio : F
  -- cmos_Isub_leakage and cmos_Ig_leakage of a NAND gate with two inputs, by widths
  pub cmos_isub_leakage : Technology F → (nmos pmos : F) → F
  pub cmos_ig_leakage : Technology F → (nmos pmos : F) → F
  -- and of an inverter
  pub inverter_isub_leakage : Technology F → (nmos pmos : F) → F
  pub inverter_ig_leakage : Technology F → (nmos pmos : F) → F

module _ {F : Type 0} ⦃d : Double F⦄ where
  -- The two leakages of some gates, of transistors of that width.
  abbrev pub subthreshold : Devices F → Technology F → F → F → F
  subthreshold v g_tp w gates =
      gates ⊗ v.cmos_isub_leakage g_tp w (w ⊗ v.pmos_to_nmos_sz_ratio) ⊗ g_tp.vdd

  abbrev pub through_gate : Devices F → Technology F → F → F → F
  through_gate v g_tp w gates =
      gates ⊗ v.cmos_ig_leakage g_tp w (w ⊗ v.pmos_to_nmos_sz_ratio) ⊗ g_tp.vdd

  -- power_t, from the dynamic energy and the two leakages
  unfoldable pub base_power : Technology F → (dynamic leakage gate_leakage : F) → PowerDef F
  base_power g_tp dynamic leakage gate_leakage =
      let reduction =
        longer_channel_device_reduction g_tp DeviceTy.uncore_device CoreType.inorder in
      let gated = leakage ⊗ power_gating_leakage_reduction g_tp false in
      record no_power {
        read_op = record no_components {
          dynamic = dynamic;
          leakage = leakage;
          gate_leakage = gate_leakage;
          longer_channel_leakage = leakage ⊗ reduction;
          power_gated_leakage = gated;
          power_gated_with_long_channel_leakage = gated ⊗ reduction;
        };
      }
