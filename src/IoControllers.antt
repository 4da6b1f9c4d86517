-- ===== src/IoControllers.antt =====
-- The controllers of the chip's interfaces (fast_mcpat/iocontrollers.h, fast_mcpat/iocontrollers.cc):
-- what the three classes share. Their figures follow from measured designs, scaled to the feature
-- size and the voltage.
pub mod Niu
pub mod Pcie
pub mod Flash
pub mod Lanes
pub mod Gates
mod Tests
use wattwatcher.Prelude.{ℕ, false, ◌==◌, if◌then◌else◌}
use wattwatcher.Double.{Double, ◌⊕◌, ◌⊗◌, ◌⊘◌}
use wattwatcher.Power.{PowerDef, no_components, no_power}
use wattwatcher.Basic.{
  DeviceTy, CoreType, Technology, longer_channel_device_reduction, power_gating_leakage_reduction,
}
use wattwatcher.Cacti.{InputParameter}

module _ {F : Type 0} ⦃d : Double F⦄ where
  -- F_sz_um / 0.065
  abbrev pub feature : InputParameter F → F
  feature ip = ip.f_sz_um ⊘ d.lit 65 3

  -- x * (F_sz_um / 0.065) * (F_sz_um / 0.065)
  abbrev pub shrink : F → InputParameter F → F
  shrink x ip = x ⊗ feature ip ⊗ feature ip

  -- x * Vdd / v * Vdd / v
  abbrev pub by_voltage : F → F → Technology F → F
  by_voltage x v g_tp = x ⊗ g_tp.vdd ⊘ v ⊗ g_tp.vdd ⊘ v

  -- x * Vdd / 1.1 * Vdd / 1.1 * (F_sz_nm / 65.0)
  abbrev pub dynamic_at : F → Technology F → InputParameter F → F
  dynamic_at x g_tp ip = by_voltage x (d.lit 11 1) g_tp ⊗ (ip.f_sz_nm ⊘ d.lit 650 1)

  -- The widths of the n-transistors: five times the least one in a high-performance design.
  abbrev pub nmos_sizing : ℕ → Technology F → F
  nmos_sizing type g_tp = if type == 0 then d.nat 5 ⊗ g_tp.min_w_nmos else g_tp.min_w_nmos

  -- The power at a share of the full activity.
  abbrev pub at_activity : F → PowerDef F → PowerDef F
  at_activity share p = record p {
    read_op = record (p.read_op) { dynamic = p.read_op.dynamic ⊗ share };
  }
