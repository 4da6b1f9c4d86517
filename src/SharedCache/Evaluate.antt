-- ===== src/SharedCache/Evaluate.antt =====
-- SharedCache::computeEnergy (fast_mcpat/sharedcache.cc): from the counts to the power.
use wattwatcher.Prelude.{ℕ, Bool, true, false, not, if◌then◌else◌}
use wattwatcher.Double.{Double, ◌⊕◌, ◌⊗◌}
use wattwatcher.Power.{PowerDef, no_components, no_power, add_power, scale_power, pppm_lkg}
use wattwatcher.Description.Root.{RootSystem}
use wattwatcher.SharedCache.Energy.{
  Counted, Buffers, Shared, is_shadow, has_homenode, count_peak, count_runtime,
}

module _ {F : Type 0} ⦃d : Double F⦄ where
  -- A write miss is also a write later.
  abbrev pub cache_dynamic : Counted F → F
  cache_dynamic c =
      let r = c.array.local_result in
      c.stats_t.read_ac.hit ⊗ r.power.read_op.dynamic
      ⊕ c.stats_t.read_ac.miss ⊗ r.tag_array2.power.read_op.dynamic
      ⊕ c.stats_t.write_ac.miss ⊗ r.tag_array2.power.write_op.dynamic
      ⊕ c.stats_t.write_ac.access ⊗ r.power.write_op.dynamic

  -- The bracket that opens behind the write hits closes behind the replacement writes.
  abbrev pub homenode_dynamic : Shared F → F
  homenode_dynamic s =
      let r = s.caches.array.local_result in
      let st = s.homenode_stats_t in
      st.read_ac.hit
        ⊗ (r.data_array2.power.read_op.dynamic ⊗ s.dir_overhead
            ⊕ r.tag_array2.power.read_op.dynamic)
      ⊕ st.read_ac.miss ⊗ r.tag_array2.power.read_op.dynamic
      ⊕ st.write_ac.miss ⊗ r.tag_array2.power.read_op.dynamic
      ⊕ st.write_ac.hit
        ⊗ (r.data_array2.power.write_op.dynamic ⊗ s.dir_overhead
            ⊕ r.tag_array2.power.read_op.dynamic
            ⊕ st.write_ac.miss ⊗ r.power.write_op.dynamic)

  -- A search and a write.
  abbrev pub buffer_dynamic : Counted F → F
  buffer_dynamic c =
      let r = c.array.local_result in
      c.stats_t.read_ac.access ⊗ r.power.search_op.dynamic
      ⊕ c.stats_t.write_ac.access ⊗ r.power.write_op.dynamic

  abbrev with_homenode : Shared F → F → F
  with_homenode s x = if has_homenode s then x ⊕ homenode_dynamic s else x

  -- power_t.readOp.dynamic, from reset
  unfoldable pub dynamic_energy : Shared F → F
  dynamic_energy s =
      if not (is_shadow s)
      then with_homenode s (d.nat 0 ⊕ cache_dynamic s.caches)
        ⊕ buffer_dynamic s.buffers.missb
        ⊕ buffer_dynamic s.buffers.ifb
        ⊕ buffer_dynamic s.buffers.prefetchb
        ⊕ buffer_dynamic s.buffers.wbb
      else d.nat 0 ⊕ buffer_dynamic s.caches

  abbrev pub energy : Shared F → PowerDef F
  energy s = record no_power { read_op = record no_components { dynamic = dynamic_energy s } }

  abbrev buffers_power : Buffers F → PowerDef F
  buffers_power b =
      add_power
        (add_power (add_power b.missb.array.local_result.power b.ifb.array.local_result.power)
          b.prefetchb.array.local_result.power)
        b.wbb.array.local_result.power

  -- What is set as power or as rt_power of unicache.
  unfoldable pub with_leakage : Shared F → PowerDef F → PowerDef F
  with_leakage s power_t =
      let p = add_power power_t (scale_power s.caches.array.local_result.power pppm_lkg) in
      if not (is_shadow s) then add_power p (scale_power (buffers_power s.buffers) pppm_lkg) else p

  unfoldable pub conclude_peak : Shared F → Shared F
  unfolding dynamic_energy with_leakage
  conclude_peak s =
      let total = with_leakage s (energy s) in
      record s {
        unicache_power_t = energy s;
        unicache_power = total;
        power = add_power s.power total;
      }

  unfoldable pub conclude_runtime : Shared F → Shared F
  unfolding dynamic_energy with_leakage
  conclude_runtime s =
      let total = with_leakage s (energy s) in
      record s {
        unicache_power_t = energy s;
        unicache_rt_power = total;
        rt_power = add_power s.rt_power total;
      }

  unfoldable pub compute_energy : RootSystem F → ℕ → Bool → Shared F → Shared F
  unfolding count_peak count_runtime conclude_peak conclude_runtime
  compute_energy t i true s = conclude_peak (count_peak s)
  compute_energy t i false s = conclude_runtime (count_runtime t i s)
