-- ===== src/Basic.antt =====
-- fast_mcpat/basic_components.h and fast_mcpat/basic_components.cc: the enumerations, and the
-- reduction factors for long-channel and power-gated devices.
use wattwatcher.Prelude.{Bool, if◌then◌else◌}
use wattwatcher.Double.{Double, ◌⊕◌, ◌⊖◌, ◌⊗◌, ◌⊘◌}

pub data DeviceTy : Type 0 where
  core_device uncore_device llc_device : DeviceTy

pub data CoreType : Type 0 where
  ooo inorder : CoreType

-- The fields of the global g_tp that McPAT reads, filled in by CACTI.
pub record Technology (F : Type 0) : Type 0 where
  pub long_channel_leakage_reduction : F
  pub vcc_min : F
  pub vdd : F
  pub macro_layout_overhead : F
  pub chip_layout_overhead : F
  pub sckt_co_eff : F
  pub min_w_nmos : F
  pub core_tx_density : F

module _ {F : Type 0} ⦃d : Double F⦄ where
  abbrev core_percentage : CoreType → F
  core_percentage CoreType.ooo = d.lit 56 2
  core_percentage CoreType.inorder = d.lit 8 1

  -- The share of the devices that can have a longer channel.
  abbrev long_channel_percentage : DeviceTy → CoreType → F
  long_channel_percentage DeviceTy.core_device core_ty = core_percentage core_ty
  long_channel_percentage DeviceTy.uncore_device core_ty = d.lit 82 2
  long_channel_percentage DeviceTy.llc_device core_ty = d.lit 10 1

  unfoldable pub longer_channel_device_reduction : Technology F → DeviceTy → CoreType → F
  longer_channel_device_reduction g_tp device_ty core_ty =
      let percentage = long_channel_percentage device_ty core_ty in
      (d.nat 1 ⊖ percentage) ⊕ percentage ⊗ g_tp.long_channel_leakage_reduction

  unfoldable pub power_gating_leakage_reduction : Technology F → Bool → F
  power_gating_leakage_reduction g_tp retain_state =
      if retain_state then d.nat 1 ⊖ d.lit 43 2 else g_tp.vcc_min ⊘ g_tp.vdd
