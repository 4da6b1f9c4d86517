-- ===== src/SharedCache/HomeNode.antt =====
-- What the run-time evaluation of SharedCache::computeEnergy (fast_mcpat/sharedcache.cc) takes from the
-- counts of the home node, and what it makes of them.
use wattwatcher.Prelude.{
  ℕ, Bool, true, false, not, if◌then◌else◌, ◌≡◌, refl, sym, ap, Bool-cases, inl, inr, ◌&&◌, ◌∙◌,
}
use wattwatcher.Double.{Double, IsExact, ◌⊕◌, ◌⊗◌}
use wattwatcher.Power.{PowerDef, add_power, scale_power}
use wattwatcher.SharedCache.{DirType}
use wattwatcher.Power.Algebra.{add-mul, zero-mul}
use wattwatcher.Description.Root.{RootSystem}
use wattwatcher.SharedCache.Energy.{
  StatsComponents, StatsDef, Shared, is_shadow, has_homenode, is_st, is_sbt, is_directory, set_rtp,
  read_counts, read_homenode, homenode_counts, runtime_buffers, count_runtime,
}
use wattwatcher.SharedCache.Evaluate.{
  buffer_dynamic, energy, cache_dynamic, dynamic_energy, homenode_dynamic, with_leakage,
  conclude_runtime, compute_energy,
}

miss_either :
    {F : Type 0} (b : Bool) (x y z : StatsDef F)
    → x.write_ac.miss ≡ y.write_ac.miss
    → (if b then x else z).write_ac.miss ≡ (if b then y else z).write_ac.miss
miss_either true x y z h = h
miss_either false x y z h = refl

module _ {F : Type 0} ⦃d : Double F⦄ (i : ℕ) (s : Shared F) where
  -- The run-time power by the counts of the cache and the write misses of the home node.
  abbrev by_misses : StatsDef F → F → PowerDef F
  by_misses st m =
      (conclude_runtime (record s {
        caches = set_rtp st s.caches;
        buffers =
            if not (is_shadow s)
            then runtime_buffers (has_homenode s) st.write_ac.miss m s.buffers
            else s.buffers;
      })).rt_power

  rt_power-misses :
      (t : RootSystem F)
      → (compute_energy t i false s).rt_power
        ≡ by_misses (read_counts t s.level i) (homenode_counts t i s).write_ac.miss
  unfolding compute_energy count_runtime conclude_runtime dynamic_energy with_leakage
  rt_power-misses t = refl

module _ {F : Type 0} ⦃d : Double F⦄ where
  -- The energy at a home node: a hit reads or writes data with the share of the directory, every
  -- access goes through the tags, and a write hit writes the cache as often as writes miss.
  abbrev pub home_energy : Shared F → StatsDef F → F
  home_energy s st =
      let r = s.caches.array.local_result in
      st.read_ac.hit ⊗ (s.dir_overhead ⊗ r.data_array2.power.read_op.dynamic)
      ⊕ st.write_ac.hit ⊗ (s.dir_overhead ⊗ r.data_array2.power.write_op.dynamic)
      ⊕ (st.read_ac.hit ⊕ st.read_ac.miss ⊕ st.write_ac.miss ⊕ st.write_ac.hit)
        ⊗ r.tag_array2.power.read_op.dynamic
      ⊕ st.write_ac.hit ⊗ (st.write_ac.miss ⊗ r.power.write_op.dynamic)

  abbrev pub nothing_counted : StatsDef F
  nothing_counted =
      let none_counted : StatsComponents F = record {
        access = d.nat 0;
        hit = d.nat 0;
        miss = d.nat 0;
      } in
      record { read_ac = none_counted; write_ac = none_counted }

  -- The cache with these counts of a last peak evaluation at its home node.
  abbrev pub with_counts : StatsDef F → Shared F → Shared F
  with_counts st s = record s { homenode_stats_t = st }

  rt_power-alike :
      (i : ℕ) (s : Shared F) (t t' : RootSystem F)
      → read_counts t s.level i ≡ read_counts t' s.level i
      → (read_homenode t s.level i s.homenode_rtp_stats).write_ac.miss
        ≡ (read_homenode t' s.level i s.homenode_rtp_stats).write_ac.miss
      → (compute_energy t i false s).rt_power ≡ (compute_energy t' i false s).rt_power
  rt_power-alike i s t t' e h =
      rt_power-misses i s t
      ∙ ap (by_misses i s (read_counts t s.level i))
          (miss_either (has_homenode s) _ _ s.homenode_rtp_stats h)
      ∙ ap (λ st. by_misses i s st (homenode_counts t' i s).write_ac.miss) e
      ∙ sym (rt_power-misses i s t')

  with_leakage-dynamic :
      (s : Shared F) (p : PowerDef F)
      → IsExact F
      → (with_leakage s p).read_op.dynamic ≡ p.read_op.dynamic
  unfolding with_leakage add_power scale_power
  with_leakage-dynamic s p exact = elim (Bool-cases (is_shadow s)) [
    | inl shadow ↦ rw shadow (simp (exact.mul-zero, exact.add-zero))
    | inr cache ↦ rw cache (simp (exact.mul-zero, exact.add-zero))
  ]

  module _ (exact : IsExact F) where
    add_left_comm : (x y z : F) → x ⊕ (y ⊕ z) ≡ y ⊕ (x ⊕ z)
    add_left_comm x y z =
        sym (exact.add_assoc x y z) ∙ ap (λ a. a ⊕ z) (exact.add_comm x y) ∙ exact.add_assoc y x z

    mul_left_comm : (x y z : F) → x ⊗ (y ⊗ z) ≡ y ⊗ (x ⊗ z)
    mul_left_comm x y z =
        sym (exact.mul_assoc x y z) ∙ ap (λ a. a ⊗ z) (exact.mul_comm x y) ∙ exact.mul_assoc y x z

    homenode_dynamic-home_energy :
        (s : Shared F) → homenode_dynamic s ≡ home_energy s s.homenode_stats_t
    homenode_dynamic-home_energy s = simp (
      exact.mul-add,
      add-mul exact,
      exact.mul_comm,
      mul_left_comm,
      exact.add_assoc,
      exact.add_comm,
      add_left_comm,
    )

    homenode_dynamic-nothing_counted :
        (s : Shared F) → homenode_dynamic (with_counts nothing_counted s) ≡ d.nat 0
    homenode_dynamic-nothing_counted s = simp (zero-mul exact, exact.add-zero)

    add-buffers :
        (p h z a b c e : F) → z ≡ d.nat 0 → (p ⊕ h) ⊕ a ⊕ b ⊕ c ⊕ e ≡ ((p ⊕ z) ⊕ a ⊕ b ⊕ c ⊕ e) ⊕ h
    add-buffers p h z a b c e empty =
        simp (empty, exact.add-zero, exact.add_assoc, exact.add_comm, add_left_comm)

    add-home :
        (ty : DirType) (directory : Bool) (p h z a b c e own : F)
        → z ≡ d.nat 0
        → (if not (is_st ty && directory)
            then (if is_sbt ty then p ⊕ h else p) ⊕ a ⊕ b ⊕ c ⊕ e
            else own)
          ≡ (if not (is_st ty && directory)
              then (if is_sbt ty then p ⊕ z else p) ⊕ a ⊕ b ⊕ c ⊕ e
              else own)
            ⊕ (if is_sbt ty then h else d.nat 0)
    add-home DirType.st directory p h z a b c e own empty = sym (exact.add-zero _)
    add-home DirType.dc directory p h z a b c e own empty = sym (exact.add-zero _)
    add-home DirType.sbt directory p h z a b c e own empty = add-buffers p h z a b c e empty
    add-home DirType.non_dir directory p h z a b c e own empty = sym (exact.add-zero _)

    dynamic_energy-home_energy :
        (s : Shared F) (st : StatsDef F)
        → dynamic_energy (with_counts st s)
          ≡ dynamic_energy (with_counts nothing_counted s)
            ⊕ (if has_homenode s then home_energy s st else d.nat 0)
    unfolding dynamic_energy
    dynamic_energy-home_energy s st =
        let none = with_counts nothing_counted s in
        add-home s.cachep.dir_ty (is_directory s.level) (d.nat 0 ⊕ cache_dynamic s.caches)
          (homenode_dynamic (with_counts st s)) (homenode_dynamic none)
          (buffer_dynamic s.buffers.missb) (buffer_dynamic s.buffers.ifb)
          (buffer_dynamic s.buffers.prefetchb) (buffer_dynamic s.buffers.wbb)
          (d.nat 0 ⊕ buffer_dynamic s.caches) (homenode_dynamic-nothing_counted s)
        ∙ ap (λ x. dynamic_energy none ⊕ (if has_homenode s then x else d.nat 0))
            (homenode_dynamic-home_energy (with_counts st s))

    runtime_dynamic :
        (t : RootSystem F) (i : ℕ) (s : Shared F)
        → (compute_energy t i false s).rt_power.read_op.dynamic
          ≡ s.rt_power.read_op.dynamic ⊕ dynamic_energy (count_runtime t i s)
    unfolding compute_energy conclude_runtime add_power
    runtime_dynamic t i s =
        let m = count_runtime t i s in
        ap (λ x. m.rt_power.read_op.dynamic ⊕ x) (with_leakage-dynamic m (energy m) exact)

    -- The run-time power of a cache or a directory is the same for two descriptions that agree in its own
    -- counts and in the write misses of its home node, whatever they say of the home node's accesses and
    -- read misses. Under exact arithmetic its dynamic energy is that of the same cache without counts in
    -- homenode_stats_t, and with a home node there is added the energy of the counts that stood there
    -- before, whatever they are: each hit reads or writes data with the share of the directory, each hit
    -- and each miss reads the tags, and each write hit writes the cache as often as there are write
    -- misses.
    pub rt_power-same :
        (t t' : RootSystem F) (i : ℕ) (s : Shared F) (st : StatsDef F)
        → read_counts t s.level i ≡ read_counts t' s.level i
        → (read_homenode t s.level i s.homenode_rtp_stats).write_ac.miss
          ≡ (read_homenode t' s.level i s.homenode_rtp_stats).write_ac.miss
        → let runtime : RootSystem F → StatsDef F → PowerDef F =
            λ t st. (compute_energy t i false (with_counts st s)).rt_power in
          (runtime t st ≡ runtime t' st)
          × ((runtime t st).read_op.dynamic
              ≡ (runtime t nothing_counted).read_op.dynamic
                ⊕ (if has_homenode s then home_energy s st else d.nat 0))
    unfolding count_runtime
    rt_power-same t t' i s st e h =
        let m = count_runtime t i s in
        (
          rt_power-alike i (with_counts st s) t t' e h,
          runtime_dynamic t i (with_counts st s)
              ∙ ap (λ x. s.rt_power.read_op.dynamic ⊕ x) (dynamic_energy-home_energy m st)
              ∙ sym (exact.add_assoc _ _ _)
              ∙ ap (λ x. x ⊕ (if has_homenode s then home_energy s st else d.nat 0))
                  (sym (runtime_dynamic t i (with_counts nothing_counted s))),
        )
