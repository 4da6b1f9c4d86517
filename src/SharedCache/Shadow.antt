-- ===== src/SharedCache/Shadow.antt =====
-- A directory of shadowed tags in SharedCache::computeEnergy (fast_mcpat/sharedcache.cc): its buffers are
-- null pointers.
use wattwatcher.Prelude.{ℕ, Bool, true, false, not, if◌then◌else◌, ◌≡◌, refl, sym, ap, ◌∙◌}
use wattwatcher.Double.{Double, ◌⊕◌}
use wattwatcher.Power.{PowerDef, no_components, no_power, add_power, scale_power, pppm_lkg}
use wattwatcher.Description.Root.{RootSystem}
use wattwatcher.SharedCache.Energy.{
  Buffers, Shared, is_shadow, set_tdp, set_rtp, peak_shadow, read_counts, homenode_counts,
  count_peak, count_runtime,
}
use wattwatcher.SharedCache.Evaluate.{
  buffer_dynamic, dynamic_energy, energy, with_leakage, conclude_peak, conclude_runtime,
  compute_energy,
}

pick_second : {A : Type 0} (b : Bool) (x y : A) → b ≡ true → (if not b then x else y) ≡ y
pick_second true x y h = refl
pick_second false x y h = cc

module _ {F : Type 0} ⦃d : Double F⦄ where
  -- The energy and the power of such a directory.
  abbrev tag_energy : Shared F → PowerDef F
  tag_energy s = record no_power {
    read_op = record no_components { dynamic = d.nat 0 ⊕ buffer_dynamic s.caches };
  }

  abbrev tag_power : Shared F → PowerDef F
  tag_power s = add_power (tag_energy s) (scale_power s.caches.array.local_result.power pppm_lkg)

  dynamic_energy-shadow : (s : Shared F) → is_shadow s ≡ true → energy s ≡ tag_energy s
  unfolding dynamic_energy
  dynamic_energy-shadow s h = rw h refl

  with_leakage-shadow :
      (s : Shared F) (p : PowerDef F)
      → is_shadow s ≡ true
      → with_leakage s p ≡ add_power p (scale_power s.caches.array.local_result.power pppm_lkg)
  unfolding with_leakage
  with_leakage-shadow s p h = rw h refl

  total-shadow : (s : Shared F) → is_shadow s ≡ true → with_leakage s (energy s) ≡ tag_power s
  total-shadow s h =
      ap (with_leakage s) (dynamic_energy-shadow s h) ∙ with_leakage-shadow s (tag_energy s) h

  abbrev peak_of : Shared F → PowerDef F → PowerDef F → Shared F
  peak_of s e p = record s { unicache_power_t = e; unicache_power = p; power = add_power s.power p }

  abbrev runtime_of : Shared F → PowerDef F → PowerDef F → Shared F
  runtime_of s e p = record s {
    unicache_power_t = e;
    unicache_rt_power = p;
    rt_power = add_power s.rt_power p;
  }

  conclude_peak-shadow :
      (s : Shared F) → is_shadow s ≡ true → conclude_peak s ≡ peak_of s (tag_energy s) (tag_power s)
  unfolding conclude_peak
  conclude_peak-shadow s h =
      ap (λ e. peak_of s e (with_leakage s (energy s))) (dynamic_energy-shadow s h)
      ∙ ap (peak_of s (tag_energy s)) (total-shadow s h)

  conclude_runtime-shadow :
      (s : Shared F)
      → is_shadow s ≡ true
      → conclude_runtime s ≡ runtime_of s (tag_energy s) (tag_power s)
  unfolding conclude_runtime
  conclude_runtime-shadow s h =
      ap (λ e. runtime_of s e (with_leakage s (energy s))) (dynamic_energy-shadow s h)
      ∙ ap (runtime_of s (tag_energy s)) (total-shadow s h)

  abbrev counted_peak : Shared F → Shared F
  counted_peak s = record s { caches = set_tdp (peak_shadow s) s.caches }

  abbrev counted_runtime : RootSystem F → ℕ → Shared F → Shared F
  counted_runtime t i s = record s {
    caches = set_rtp (read_counts t s.level i) s.caches;
    homenode_rtp_stats = homenode_counts t i s;
  }

  count_peak-shadow : (s : Shared F) → is_shadow s ≡ true → count_peak s ≡ counted_peak s
  unfolding count_peak
  count_peak-shadow s h = pick_second (is_shadow s) _ (counted_peak s) h

  count_runtime-shadow :
      (t : RootSystem F) (i : ℕ) (s : Shared F)
      → is_shadow s ≡ true
      → count_runtime t i s ≡ counted_runtime t i s
  unfolding count_runtime
  count_runtime-shadow t i s h =
      ap (λ b. record (counted_runtime t i s) { buffers = b })
        (pick_second (is_shadow s) _ s.buffers h)

  compute_energy-shadow :
      (t : RootSystem F) (i : ℕ) (s : Shared F) (is_tdp : Bool)
      → is_shadow s ≡ true
      → compute_energy t i is_tdp s ≡ (
          if is_tdp
          then peak_of (counted_peak s) (tag_energy (counted_peak s)) (tag_power (counted_peak s))
          else runtime_of
              (counted_runtime t i s)
              (tag_energy (counted_runtime t i s))
              (tag_power (counted_runtime t i s)))
  unfolding compute_energy
  compute_energy-shadow t i s true h =
      ap conclude_peak (count_peak-shadow s h) ∙ conclude_peak-shadow (counted_peak s) h
  compute_energy-shadow t i s false h =
      ap conclude_runtime (count_runtime-shadow t i s h)
      ∙ conclude_runtime-shadow (counted_runtime t i s) h

  -- An evaluation of a directory of shadowed tags neither reads nor changes its buffers: with any others in
  -- their place it does the same, peak or run time.
  pub compute_energy-buffers :
      (t : RootSystem F) (i : ℕ) (s : Shared F) (b : Buffers F) (is_tdp : Bool)
      → is_shadow s ≡ true
      → compute_energy t i is_tdp (record s { buffers = b })
        ≡ record (compute_energy t i is_tdp s) { buffers = b }
  compute_energy-buffers t i s b true h =
      compute_energy-shadow t i (record s { buffers = b }) true h
      ∙ ap (λ (x : Shared F). record x { buffers = b }) (sym (compute_energy-shadow t i s true h))
  compute_energy-buffers t i s b false h =
      compute_energy-shadow t i (record s { buffers = b }) false h
      ∙ ap (λ (x : Shared F). record x { buffers = b }) (sym (compute_energy-shadow t i s false h))
