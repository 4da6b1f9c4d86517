-- ===== src/Overhead.antt =====
-- The second half of ArrayST::optimize_array and the whole of ArrayST::leakage_feedback
-- (fast_mcpat/array.cc): CACTI's numbers for one bank become those of the laid-out array.
pub mod Cache
mod Tests
use wattwatcher.Prelude.{Bool, not, ◌&&◌, ◌||◌, ◌==◌, if◌then◌else◌}
use wattwatcher.Double.{Double, ◌⊗◌}
use wattwatcher.Power.{PowerDef, Pppm, set_pppm, scale_power}
use wattwatcher.Basic.{
  DeviceTy, CoreType, Technology, longer_channel_device_reduction, power_gating_leakage_reduction,
}
use wattwatcher.Cacti.{InputParameter, MemArray, UcaOrg}

module _ {F : Type 0} ⦃d : Double F⦄ where
  abbrev pub total_overhead : Technology F → F
  total_overhead g_tp = g_tp.macro_layout_overhead ⊗ g_tp.chip_layout_overhead

  -- Keeps the power density.
  abbrev pub density : Technology F → Pppm F
  density g_tp = set_pppm (total_overhead g_tp) (d.nat 1) (d.nat 1) (total_overhead g_tp)

  abbrev pub scale_dynamic : F → PowerDef F → PowerDef F
  scale_dynamic ratio p = record {
    read_op = record (p.read_op) { dynamic = p.read_op.dynamic ⊗ ratio };
    write_op = record (p.write_op) { dynamic = p.write_op.dynamic ⊗ ratio };
    search_op = record (p.search_op) { dynamic = p.search_op.dynamic ⊗ ratio };
  }

  -- The leakage of all banks. CACTI computes power-gated leakage but for a CAM, where `assoc` is 0.
  abbrev pub scale_leakage : InputParameter F → F → F → PowerDef F → PowerDef F
  scale_leakage l_ip reduction pg_reduction p =
      let leakage = p.read_op.leakage ⊗ d.nat l_ip.nbanks in
      let gated =
        if l_ip.assoc == 0
        then leakage ⊗ pg_reduction
        else p.read_op.power_gated_leakage ⊗ d.nat l_ip.nbanks in
      record p {
        read_op = record (p.read_op) {
          leakage = leakage;
          longer_channel_leakage = leakage ⊗ reduction;
          power_gated_leakage = gated;
          power_gated_with_long_channel_leakage = gated ⊗ reduction;
        };
      }

  abbrev pub scale_array_power : Technology F → InputParameter F → F → F → PowerDef F → PowerDef F
  scale_array_power g_tp l_ip reduction pg_reduction p =
      scale_power (scale_leakage l_ip reduction pg_reduction (scale_dynamic g_tp.sckt_co_eff p))
        (density g_tp)

  abbrev pub has_tags : InputParameter F → Bool
  has_tags l_ip = not (l_ip.pure_cam || l_ip.pure_ram || l_ip.fully_assoc) && l_ip.is_cache

  -- The tags: their own power-gated leakage is not scaled.
  abbrev pub scale_tag_power : Technology F → InputParameter F → F → PowerDef F → PowerDef F
  scale_tag_power g_tp l_ip reduction p =
      let p' = scale_dynamic g_tp.sckt_co_eff p in
      let leakage = p'.read_op.leakage ⊗ d.nat l_ip.nbanks in
      scale_power
        (record p' {
          read_op = record (p'.read_op) {
            leakage = leakage;
            longer_channel_leakage = leakage ⊗ reduction;
            power_gated_with_long_channel_leakage = p'.read_op.power_gated_leakage ⊗ reduction;
          };
        })
        (density g_tp)

  -- The branch for caches, which also multiplies the data array's power-gated leakage.
  abbrev pub scale_tags : Technology F → InputParameter F → F → UcaOrg F → UcaOrg F
  scale_tags g_tp l_ip reduction r =
      let p = r.data_array2.power in
      record r {
        data_array2 = record (r.data_array2) {
          power = record p {
            read_op = record (p.read_op) {
              power_gated_leakage = p.read_op.power_gated_leakage ⊗ d.nat l_ip.nbanks;
            };
          };
        };
        tag_array2 = record (r.tag_array2) {
          power = scale_tag_power g_tp l_ip reduction r.tag_array2.power;
        };
      }

  unfoldable pub add_overheads :
      Technology F → DeviceTy → CoreType → InputParameter F → UcaOrg F → UcaOrg F
  add_overheads g_tp device_ty core_ty l_ip r =
      let reduction = longer_channel_device_reduction g_tp device_ty core_ty in
      let pg_reduction = power_gating_leakage_reduction g_tp Bool.false in
      let scaled = record r {
        area = r.area ⊗ total_overhead g_tp;
        power = scale_array_power g_tp l_ip reduction pg_reduction r.power;
        data_array2 = record (r.data_array2) {
          power = scale_array_power g_tp l_ip reduction pg_reduction r.data_array2.power;
        };
      } in
      if has_tags l_ip then scale_tags g_tp l_ip reduction scaled else scaled

  -- leakage_feedback scales each of the three powers so, and leaves power gating aside.
  abbrev pub rescale_power : Technology F → InputParameter F → F → PowerDef F → PowerDef F
  rescale_power g_tp l_ip reduction p =
      let p' = scale_dynamic g_tp.sckt_co_eff p in
      let leakage = p'.read_op.leakage ⊗ d.nat l_ip.nbanks in
      scale_power
        (record p' {
          read_op = record (p'.read_op) {
            leakage = leakage;
            longer_channel_leakage = leakage ⊗ reduction;
          };
        })
        (density g_tp)

  unfoldable pub rescale :
      Technology F → DeviceTy → CoreType → InputParameter F → UcaOrg F → UcaOrg F
  rescale g_tp device_ty core_ty l_ip r =
      let reduction = longer_channel_device_reduction g_tp device_ty core_ty in
      let scaled = record r {
        power = rescale_power g_tp l_ip reduction r.power;
        data_array2 = record (r.data_array2) {
          power = rescale_power g_tp l_ip reduction r.data_array2.power;
        };
      } in
      if has_tags l_ip
      then record scaled {
        tag_array2 = record (r.tag_array2) {
          power = rescale_power g_tp l_ip reduction r.tag_array2.power;
        };
      }
      else scaled
