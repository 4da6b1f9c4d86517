-- ===== src/SharedCache/Leakage.antt =====
-- The leakage that SharedCache::computeEnergy (fast_mcpat/sharedcache.cc) reports.
use wattwatcher.Prelude.{ℕ, Bool, true, false, not, if◌then◌else◌, ◌≡◌, refl, ap, ◌∙◌}
use wattwatcher.Double.{Double}
use wattwatcher.Power.{PowerDef, no_components, no_power, add_power, scale_power, pppm_lkg}
use wattwatcher.Array.{ArraySt}
use wattwatcher.Description.Root.{RootSystem}
use wattwatcher.SharedCache.Energy.{Buffers, Shared, is_shadow, count_peak, count_runtime}
use wattwatcher.SharedCache.Evaluate.{
  dynamic_energy, with_leakage, conclude_peak, conclude_runtime, compute_energy,
}

-- What no evaluation changes.
pub record Fixed (F : Type 0) : Type 0 where
  pub shadow : Bool
  pub caches : ArraySt F
  pub missb : ArraySt F
  pub ifb : ArraySt F
  pub prefetchb : ArraySt F
  pub wbb : ArraySt F

pub if_either :
    {A B : Type 0} (g : A → B) (b : Bool) (x y : A) (z : B)
    → g x ≡ z
    → g y ≡ z
    → g (if b then x else y) ≡ z
if_either g true x y z h k = h
if_either g false x y z h k = k

module _ {F : Type 0} where
  abbrev pub fixed : Shared F → Fixed F
  fixed s = record {
    shadow = is_shadow s;
    caches = s.caches.array;
    missb = s.buffers.missb.array;
    ifb = s.buffers.ifb.array;
    prefetchb = s.buffers.prefetchb.array;
    wbb = s.buffers.wbb.array;
  }

  -- A power with another dynamic energy of reads.
  abbrev pub with_read : F → PowerDef F → PowerDef F
  with_read x p = record p { read_op = record (p.read_op) { dynamic = x } }

module _ {F : Type 0} ⦃d : Double F⦄ where
  abbrev leakage : Fixed F → PowerDef F → PowerDef F
  leakage f power_t =
      let p = add_power power_t (scale_power f.caches.local_result.power pppm_lkg) in
      if not f.shadow
      then add_power p (
          scale_power
            (add_power
              (add_power (add_power f.missb.local_result.power f.ifb.local_result.power)
                f.prefetchb.local_result.power)
              f.wbb.local_result.power)
            pppm_lkg)
      else p

  abbrev dynamic_only : F → PowerDef F
  dynamic_only x = record no_power { read_op = record no_components { dynamic = x } }

  -- The dynamic energy does not reach the other fields.
  leakage-with_read :
      (shadow : Bool) (f : Fixed F) (p : PowerDef F) (x y : F)
      → with_read
          (add_power p (leakage (record f { shadow = shadow }) (dynamic_only y))).read_op.dynamic
          (add_power p (leakage (record f { shadow = shadow }) (dynamic_only x)))
        ≡ add_power p (leakage (record f { shadow = shadow }) (dynamic_only y))
  unfolding add_power scale_power
  leakage-with_read true f p x y = refl
  leakage-with_read false f p x y = refl

  same_leakage :
      (f : Fixed F) (base base' : PowerDef F) (x y : F) (p q : PowerDef F)
      → base' ≡ base
      → p ≡ add_power base (leakage f (dynamic_only x))
      → q ≡ add_power base' (leakage f (dynamic_only y))
      → with_read p.read_op.dynamic q ≡ p
  same_leakage f base base' x y p q e h k = rw (h, k, e) (leakage-with_read f.shadow f base y x)

  fixed-peak : (s : Shared F) → fixed (count_peak s) ≡ fixed s
  unfolding count_peak
  fixed-peak s = if_either fixed (not (is_shadow s)) _ _ (fixed s) refl refl

  rt_power-peak : (s : Shared F) → (count_peak s).rt_power ≡ s.rt_power
  unfolding count_peak
  rt_power-peak s =
      if_either (λ (s : Shared F). s.rt_power) (not (is_shadow s)) _ _ s.rt_power refl refl

  power-peak : (s : Shared F) → (count_peak s).power ≡ s.power
  unfolding count_peak
  power-peak s = if_either (λ (s : Shared F). s.power) (not (is_shadow s)) _ _ s.power refl refl

  fixed-runtime : (t : RootSystem F) (i : ℕ) (s : Shared F) → fixed (count_runtime t i s) ≡ fixed s
  unfolding count_runtime
  fixed-runtime t i s =
      if_either
        (λ (b : Buffers F). record (fixed s) {
          missb = b.missb.array;
          ifb = b.ifb.array;
          prefetchb = b.prefetchb.array;
          wbb = b.wbb.array;
        })
        (not (is_shadow s)) _ s.buffers (fixed s) refl refl

  runtime_power :
      (t : RootSystem F) (i : ℕ) (s : Shared F) → (count_runtime t i s).rt_power ≡ s.rt_power
  unfolding count_runtime
  runtime_power t i s = refl

  with_leakage-fixed :
      (s : Shared F) (x : F) → with_leakage s (dynamic_only x) ≡ leakage (fixed s) (dynamic_only x)
  unfolding with_leakage
  with_leakage-fixed s x = refl

  power-conclude :
      (s : Shared F)
      → (conclude_peak s).power
        ≡ add_power s.power (leakage (fixed s) (dynamic_only (dynamic_energy s)))
  unfolding conclude_peak
  power-conclude s = ap (add_power s.power) (with_leakage-fixed s (dynamic_energy s))

  rt_power-conclude :
      (s : Shared F)
      → (conclude_runtime s).rt_power
        ≡ add_power s.rt_power (leakage (fixed s) (dynamic_only (dynamic_energy s)))
  unfolding conclude_runtime
  rt_power-conclude s = ap (add_power s.rt_power) (with_leakage-fixed s (dynamic_energy s))

  kept :
      (s : Shared F)
      → (fixed (conclude_peak s) ≡ fixed s) × ((conclude_peak s).rt_power ≡ s.rt_power)
  unfolding conclude_peak
  kept s = (refl, refl)

module _ {F : Type 0} ⦃d : Double F⦄ (t : RootSystem F) (i : ℕ) (s : Shared F) where
  abbrev pub evaluated : Shared F
  evaluated = compute_energy t i false (compute_energy t i true s)

  evaluated-power :
      (x : F) × (evaluated.power ≡ add_power s.power (leakage (fixed s) (dynamic_only x)))
  unfolding compute_energy conclude_runtime count_runtime
  evaluated-power = (
    dynamic_energy (count_peak s),
    power-conclude (count_peak s)
        ∙ ap
            (λ p.
              add_power p
                (leakage (fixed (count_peak s)) (dynamic_only (dynamic_energy (count_peak s)))))
            (power-peak s)
        ∙ ap (λ f. add_power s.power (leakage f (dynamic_only (dynamic_energy (count_peak s)))))
            (fixed-peak s),
  )

  evaluated-rt_power :
      (x : F) × (evaluated.rt_power ≡ add_power s.rt_power (leakage (fixed s) (dynamic_only x)))
  unfolding compute_energy
  evaluated-rt_power =
      let s1 = conclude_peak (count_peak s) in
      let s2 = count_runtime t i s1 in
      let same : fixed s2 ≡ fixed s =
        fixed-runtime t i s1 ∙ (kept (count_peak s)).0 ∙ fixed-peak s in
      let before : s2.rt_power ≡ s.rt_power =
        runtime_power t i s1 ∙ (kept (count_peak s)).1 ∙ rt_power-peak s in
      (
        dynamic_energy s2,
        rt_power-conclude s2
            ∙ ap (λ p. add_power p (leakage (fixed s2) (dynamic_only (dynamic_energy s2)))) before
            ∙ ap (λ f. add_power s.rt_power (leakage f (dynamic_only (dynamic_energy s2)))) same,
      )

  -- If the two powers are equal before, as after the constructor, then after the peak and the run-time
  -- evaluation they differ in the dynamic energy of reads at most: both have the same leakage of every
  -- kind and the same figures for writes and searches, whatever the counts of the description are.
  pub evaluated-leakage :
      s.rt_power ≡ s.power
      → with_read evaluated.power.read_op.dynamic evaluated.rt_power ≡ evaluated.power
  evaluated-leakage e =
      let (x, p) = evaluated-power in
      let (y, q) = evaluated-rt_power in
      same_leakage (fixed s) s.power s.rt_power x y evaluated.power evaluated.rt_power e p q
