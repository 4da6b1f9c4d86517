-- ===== src/Overhead/Cache.antt =====
-- What add_overheads does to the leakage of a cache's two arrays.
use wattwatcher.Prelude.{refl, false, ◌≡◌, true, arith}
use wattwatcher.Double.{Double, ◌⊗◌}
use wattwatcher.Power.{scale_power}
use wattwatcher.Basic.{DeviceTy, CoreType, Technology}
use wattwatcher.Cacti.{InputParameter, UcaOrg}
use wattwatcher.Overhead.{add_overheads, has_tags}

module _ {F : Type 0} ⦃d : Double F⦄ (g_tp : Technology F) (device_ty : DeviceTy)
    (core_ty : CoreType) (l_ip : InputParameter F) (r : UcaOrg F) where
  -- In a cache, the power-gated leakage of the data array is that of the same array without tags times
  -- the banks once more, while its plain leakage and the power of the whole are the same; and that of
  -- the tags is not multiplied by the banks, though their plain leakage is.
  pub add_overheads-power_gated :
      has_tags l_ip ≡ true
      → let out = add_overheads g_tp device_ty core_ty l_ip r in
        let plain = add_overheads g_tp device_ty core_ty (record l_ip { is_cache = false }) r in
        let n = d.nat l_ip.nbanks in
        (out.data_array2.power.read_op.power_gated_leakage
          ≡ plain.data_array2.power.read_op.power_gated_leakage ⊗ n)
        × (out.data_array2.power.read_op.leakage ≡ plain.data_array2.power.read_op.leakage)
        × (out.power ≡ plain.power)
        × (out.tag_array2.power.read_op.power_gated_leakage
            ≡ r.tag_array2.power.read_op.power_gated_leakage ⊗ d.nat 1)
        × (out.tag_array2.power.read_op.leakage ≡ r.tag_array2.power.read_op.leakage ⊗ n ⊗ d.nat 1)
  unfolding add_overheads scale_power
  add_overheads-power_gated tags =
      let untagged : has_tags (record l_ip { is_cache = false }) ≡ false = ground arith in
      rw (tags, untagged) (refl, refl, refl, refl, refl)
