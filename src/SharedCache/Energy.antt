-- ===== src/SharedCache/Energy.antt =====
-- SharedCache::computeEnergy (fast_mcpat/sharedcache.cc): the counts of a shared cache or a directory
-- and its power. A directory of shadowed tags has no buffers, and what stands for them is not read.
use wattwatcher.Prelude.{ℕ, Bool, true, false, not, ◌&&◌, if◌then◌else◌}
use wattwatcher.Double.{Double, ◌⊕◌, ◌⊖◌, ◌⊗◌}
use wattwatcher.Power.{PowerDef}
use wattwatcher.Array.{ArraySt}
use wattwatcher.SharedCache.{CacheLevel, DirType, CacheDynParam}
use wattwatcher.Description.Root.{RootSystem}

pub record StatsComponents (F : Type 0) : Type 0 where
  pub access : F
  pub hit : F
  pub miss : F

-- searchAc is not used here.
pub record StatsDef (F : Type 0) : Type 0 where
  pub read_ac : StatsComponents F
  pub write_ac : StatsComponents F

-- An array with its counts.
pub record Counted (F : Type 0) : Type 0 where
  pub array : ArraySt F
  pub stats_t : StatsDef F
  pub tdp_stats : StatsDef F
  pub rtp_stats : StatsDef F

pub record Buffers (F : Type 0) : Type 0 where
  pub missb : Counted F
  pub ifb : Counted F
  pub prefetchb : Counted F
  pub wbb : Counted F

-- The fields of unicache are caches, buffers and those with its name; power and rt_power are those of
-- the whole, which grow with each call.
pub record Shared (F : Type 0) : Type 0 where
  pub level : CacheLevel
  pub cachep : CacheDynParam F
  pub dir_overhead : F
  pub homenode_stats_t : StatsDef F
  pub homenode_tdp_stats : StatsDef F
  pub homenode_rtp_stats : StatsDef F
  pub caches : Counted F
  pub buffers : Buffers F
  pub unicache_power_t : PowerDef F
  pub unicache_power : PowerDef F
  pub unicache_rt_power : PowerDef F
  pub power : PowerDef F
  pub rt_power : PowerDef F

abbrev pub is_st : DirType → Bool
is_st DirType.st = true
is_st DirType.dc = false
is_st DirType.sbt = false
is_st DirType.non_dir = false

abbrev pub is_sbt : DirType → Bool
is_sbt DirType.st = false
is_sbt DirType.dc = false
is_sbt DirType.sbt = true
is_sbt DirType.non_dir = false

abbrev pub is_directory : CacheLevel → Bool
is_directory CacheLevel.l2 = false
is_directory CacheLevel.l3 = false
is_directory CacheLevel.l1_directory = true
is_directory CacheLevel.l2_directory = true

module _ {F : Type 0} where
  -- A directory of shadowed tags.
  abbrev pub is_shadow : Shared F → Bool
  is_shadow s = is_st s.cachep.dir_ty && is_directory s.level

  abbrev pub has_homenode : Shared F → Bool
  has_homenode s = is_sbt s.cachep.dir_ty

  abbrev pub set_tdp : StatsDef F → Counted F → Counted F
  set_tdp st c = record c { stats_t = st; tdp_stats = st }

  abbrev pub set_rtp : StatsDef F → Counted F → Counted F
  set_rtp st c = record c { stats_t = st; rtp_stats = st }

  -- A buffer sets the accesses of its counts only.
  abbrev accesses : (reads writes : F) → StatsDef F → StatsDef F
  accesses reads writes st = record {
    read_ac = record (st.read_ac) { access = reads };
    write_ac = record (st.write_ac) { access = writes };
  }

module _ {F : Type 0} ⦃d : Double F⦄ where
  abbrev pub counts : (access miss : F) → StatsComponents F
  counts access miss = record { access = access; hit = access ⊖ miss; miss = miss }

  abbrev both : (reads read_misses writes write_misses : F) → StatsDef F
  both reads read_misses writes write_misses = record {
    read_ac = counts reads read_misses;
    write_ac = counts writes write_misses;
  }

  abbrev pub homenode_data_access : Shared F → F
  homenode_data_access s = if has_homenode s then d.lit 9 1 else d.lit 10 1

  abbrev peak_counts : Shared F → StatsDef F
  peak_counts s =
      let ports = d.nat s.caches.array.l_ip.num_rw_ports in
      both (d.lit 67 2 ⊗ ports ⊗ s.cachep.duty_cycle ⊗ homenode_data_access s) (d.nat 0)
        (d.lit 33 2 ⊗ ports ⊗ s.cachep.duty_cycle ⊗ homenode_data_access s) (d.nat 0)

  -- Reads and writes have the same share.
  abbrev peak_homenode : Shared F → StatsDef F
  peak_homenode s =
      let ports = d.nat s.caches.array.l_ip.num_rw_ports in
      let share =
        d.lit 67 2 ⊗ ports ⊗ s.cachep.dir_duty_cycle ⊗ (d.nat 1 ⊖ homenode_data_access s) in
      both share (d.nat 0) share (d.nat 0)

  abbrev pub peak_shadow : Shared F → StatsDef F
  peak_shadow s =
      both (d.nat s.caches.array.l_ip.num_search_ports ⊗ s.cachep.duty_cycle) (d.nat 0) (d.nat 0)
        (d.nat 0)

  abbrev searches : Shared F → Counted F → F
  searches s c = d.nat c.array.l_ip.num_search_ports ⊗ s.cachep.duty_cycle

  abbrev peak_buffer : (writes : F) → Shared F → Counted F → Counted F
  peak_buffer writes s c = set_tdp (accesses (searches s c) writes c.stats_t) c

  -- The writes of the prefetch buffer are counted by the ports of the fill buffer.
  abbrev peak_buffers : Shared F → Buffers F → Buffers F
  peak_buffers s b = record {
    missb = peak_buffer (searches s b.missb) s b.missb;
    ifb = peak_buffer (searches s b.ifb) s b.ifb;
    prefetchb = peak_buffer (searches s b.ifb) s b.prefetchb;
    wbb = peak_buffer (searches s b.wbb) s b.wbb;
  }

  unfoldable pub count_peak : Shared F → Shared F
  count_peak s =
      if not (is_shadow s)
      then record s {
        caches = set_tdp (peak_counts s) s.caches;
        homenode_stats_t = if has_homenode s then peak_homenode s else s.homenode_stats_t;
        homenode_tdp_stats = if has_homenode s then peak_homenode s else s.homenode_tdp_stats;
        buffers = peak_buffers s s.buffers;
      }
      else record s { caches = set_tdp (peak_shadow s) s.caches }

  -- The counts of the description.
  abbrev pub read_counts : RootSystem F → CacheLevel → ℕ → StatsDef F
  read_counts t CacheLevel.l2 i =
      let e = t.l2 i in both e.read_accesses e.read_misses e.write_accesses e.write_misses
  read_counts t CacheLevel.l3 i =
      let e = t.l3 i in both e.read_accesses e.read_misses e.write_accesses e.write_misses
  read_counts t CacheLevel.l1_directory i =
      let e = t.l1_directory i in both e.read_accesses e.read_misses e.write_accesses e.write_misses
  read_counts t CacheLevel.l2_directory i =
      let e = t.l2_directory i in both e.read_accesses e.read_misses e.write_accesses e.write_misses

  -- Only caches have counts of a home node in the description.
  abbrev pub read_homenode : RootSystem F → CacheLevel → ℕ → StatsDef F → StatsDef F
  read_homenode t CacheLevel.l2 i st =
      let e = t.l2 i in
      both e.homenode_read_accesses e.homenode_read_misses e.homenode_write_accesses
        e.homenode_write_misses
  read_homenode t CacheLevel.l3 i st =
      let e = t.l3 i in
      both e.homenode_read_accesses e.homenode_read_misses e.homenode_write_accesses
        e.homenode_write_misses
  read_homenode t CacheLevel.l1_directory i st = st
  read_homenode t CacheLevel.l2_directory i st = st

  abbrev pub homenode_counts : RootSystem F → ℕ → Shared F → StatsDef F
  homenode_counts t i s =
      if has_homenode s
      then read_homenode t s.level i s.homenode_rtp_stats
      else s.homenode_rtp_stats

  abbrev runtime_buffer : F → Counted F → Counted F
  runtime_buffer n c = set_rtp (accesses n n c.stats_t) c

  -- The miss buffer takes the misses of the home node twice.
  abbrev pub runtime_buffers : Bool → (misses homenode_misses : F) → Buffers F → Buffers F
  runtime_buffers homenode m h b = record {
    missb = runtime_buffer (if homenode then m ⊕ h ⊕ h else m) b.missb;
    ifb = runtime_buffer (if homenode then m ⊕ h else m) b.ifb;
    prefetchb = runtime_buffer (if homenode then m ⊕ h else m) b.prefetchb;
    wbb = runtime_buffer (if homenode then m ⊕ h else m) b.wbb;
  }

  unfoldable pub count_runtime : RootSystem F → ℕ → Shared F → Shared F
  count_runtime t i s =
      let st = read_counts t s.level i in
      let home = homenode_counts t i s in
      record s {
        caches = set_rtp st s.caches;
        homenode_rtp_stats = home;
        buffers =
            if not (is_shadow s)
            then runtime_buffers (has_homenode s) st.write_ac.miss home.write_ac.miss s.buffers
            else s.buffers;
      }
