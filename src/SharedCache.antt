-- ===== src/SharedCache.antt =====
-- SharedCache::set_cache_param (fast_mcpat/sharedcache.cc): what a second- or third-level cache or a
-- directory takes from the parsed description. `none` is a directory whose type names no value of
-- the enumeration, which C++ does not define. Sizes are not negative.
pub mod Described
pub mod Energy
pub mod Evaluate
pub mod Leakage
pub mod HomeNode
pub mod Shadow
mod EnergyTests
mod Tests
use wattwatcher.Prelude.{
  zero, suc, ℕ, Bool, true, false, not, ◌&&◌, String, Option, none, some, if◌then◌else◌, ◌>>=◌,
}
use wattwatcher.Double.{Double, ◌⊗◌, ◌⊘◌}
use wattwatcher.Cacti.{InputParameter, with_voltages}
use wattwatcher.System.{CacheSystem, DirectorySystem, System}

pub data CacheLevel : Type 0 where
  l2 l3 l1_directory l2_directory : CacheLevel

pub data DirType : Type 0 where
  st dc sbt non_dir : DirType

-- The entries of the description that shared caches read; the two functions are the voltages of the
-- cores.
pub record Tables (F : Type 0) : Type 0 where
  pub sys : System F
  pub core_vdd : ℕ → F
  pub core_power_gating_vcc : ℕ → F
  pub l2_table : ℕ → CacheSystem F
  pub l3_table : ℕ → CacheSystem F
  pub l1_directory_table : ℕ → DirectorySystem F
  pub l2_directory_table : ℕ → DirectorySystem F

pub record CacheDynParam (F : Type 0) : Type 0 where
  pub name : String
  pub dir_ty : DirType
  pub clock_rate : F
  pub execution_time : F
  pub capacity : F
  pub block_w : F
  pub assoc : F
  pub nbanks : F
  pub throughput : F
  pub latency : F
  pub duty_cycle : F
  pub dir_duty_cycle : F
  pub missb_size : ℕ
  pub fu_size : ℕ
  pub prefetchb_size : ℕ
  pub wbb_size : ℕ

-- The two members of a SharedCache that set_cache_param changes.
pub record SharedCache (F : Type 0) : Type 0 where
  pub cachep : CacheDynParam F
  pub interface_ip : InputParameter F

-- The cast of an int to the enumeration.
abbrev pub to_dir_type : ℕ → Option DirType
to_dir_type zero = some DirType.st
to_dir_type (suc zero) = some DirType.dc
to_dir_type (suc (suc zero)) = some DirType.sbt
to_dir_type (suc (suc (suc zero))) = some DirType.non_dir
to_dir_type (suc (suc (suc (suc n)))) = none

module _ {F : Type 0} ⦃d : Double F⦄ where
  abbrev pub set_device_types : ℕ → InputParameter F → InputParameter F
  set_device_types ty ip = record ip {
    data_arr_ram_cell_tech_type = ty;
    data_arr_peri_global_tech_type = ty;
    tag_arr_ram_cell_tech_type = ty;
    tag_arr_peri_global_tech_type = ty;
  }

  -- The duty cycle of a directory that is not there stays as it was.
  abbrev pub merge_dir : CacheSystem F → CacheDynParam F → CacheDynParam F
  merge_dir e p =
      if not e.merged_dir
      then record p { dir_ty = DirType.non_dir }
      else record p { dir_ty = DirType.sbt; dir_duty_cycle = e.dir_duty_cycle }

  abbrev set_vdd : Bool → F → InputParameter F → InputParameter F
  set_vdd guard vdd ip =
      if guard && d.lt (d.nat 0) vdd
      then record ip {
        specific_hp_vdd = true;
        specific_lop_vdd = true;
        specific_lstp_vdd = true;
        hp_vdd = vdd;
        lop_vdd = vdd;
        lstp_vdd = vdd;
      }
      else ip

  abbrev set_vcc_min : Bool → F → InputParameter F → InputParameter F
  set_vcc_min guard vcc ip =
      if guard && d.lt (d.neg (d.nat 1)) vcc
      then record ip { specific_vcc_min = true; user_defined_vcc_min = vcc }
      else ip

  -- A private cache has the voltages of its core.
  unfoldable pub l2_voltages : Tables F → ℕ → InputParameter F → InputParameter F
  l2_voltages t i ip =
      let private = t.sys.private_l2 in
      let e = t.l2_table i in
      set_vcc_min (not private) e.power_gating_vcc (
        set_vdd (not private) e.vdd
          (set_vcc_min private (t.core_power_gating_vcc i) (set_vdd private (t.core_vdd i) ip)))

  abbrev pub l2_param : System F → CacheSystem F → CacheDynParam F → CacheDynParam F
  l2_param sys e p =
      let clock = e.clockrate ⊗ d.nat 1_000_000 in
      record p {
        name = "L2";
        clock_rate = clock;
        execution_time = sys.total_cycles ⊘ (sys.target_core_clockrate ⊗ d.nat 1_000_000);
        capacity = e.cache_config 0;
        block_w = e.cache_config 1;
        assoc = e.cache_config 2;
        nbanks = e.cache_config 3;
        throughput = e.cache_config 4 ⊘ clock;
        latency = e.cache_config 5 ⊘ clock;
        missb_size = e.buffer_sizes 0;
        fu_size = e.buffer_sizes 1;
        prefetchb_size = e.buffer_sizes 2;
        wbb_size = e.buffer_sizes 3;
        duty_cycle = e.duty_cycle;
      }

  abbrev pub l3_param : System F → CacheSystem F → CacheDynParam F → CacheDynParam F
  l3_param sys e p =
      let clock = e.clockrate ⊗ d.nat 1_000_000 in
      record p {
        name = "L3";
        clock_rate = clock;
        execution_time = sys.total_cycles ⊘ (sys.target_core_clockrate ⊗ d.nat 1_000_000);
        capacity = e.cache_config 0;
        block_w = e.cache_config 1;
        assoc = e.cache_config 2;
        nbanks = e.cache_config 3;
        throughput = e.cache_config 4 ⊘ clock;
        latency = e.cache_config 5 ⊘ clock;
        missb_size = e.buffer_sizes 0;
        fu_size = e.buffer_sizes 1;
        prefetchb_size = e.buffer_sizes 2;
        wbb_size = e.buffer_sizes 3;
        duty_cycle = e.duty_cycle;
      }

  abbrev l1_directory_param : System F → DirectorySystem F → CacheDynParam F → CacheDynParam F
  l1_directory_param sys e p =
      let clock = e.clockrate ⊗ d.nat 1_000_000 in
      record p {
        name = "First Level Directory";
        clock_rate = clock;
        execution_time = sys.total_cycles ⊘ (sys.target_core_clockrate ⊗ d.nat 1_000_000);
        capacity = e.dir_config 0;
        block_w = e.dir_config 1;
        assoc = e.dir_config 2;
        nbanks = e.dir_config 3;
        throughput = e.dir_config 4 ⊘ clock;
        latency = e.dir_config 5 ⊘ clock;
        missb_size = e.buffer_sizes 0;
        fu_size = e.buffer_sizes 1;
        prefetchb_size = e.buffer_sizes 2;
        wbb_size = e.buffer_sizes 3;
        duty_cycle = e.duty_cycle;
      }

  abbrev l2_directory_param : System F → DirectorySystem F → CacheDynParam F → CacheDynParam F
  l2_directory_param sys e p =
      let clock = e.clockrate ⊗ d.nat 1_000_000 in
      record p {
        name = "Second Level Directory";
        clock_rate = clock;
        execution_time = sys.total_cycles ⊘ (sys.target_core_clockrate ⊗ d.nat 1_000_000);
        capacity = e.dir_config 0;
        block_w = e.dir_config 1;
        assoc = e.dir_config 2;
        nbanks = e.dir_config 3;
        throughput = e.dir_config 4 ⊘ clock;
        latency = e.dir_config 5 ⊘ clock;
        missb_size = e.buffer_sizes 0;
        fu_size = e.buffer_sizes 1;
        prefetchb_size = e.buffer_sizes 2;
        wbb_size = e.buffer_sizes 3;
        duty_cycle = e.duty_cycle;
      }

  -- The third level, too, reads the second level's merged_dir.
  unfoldable pub set_cache_param :
      Tables F → CacheLevel → ℕ → SharedCache F → Option (SharedCache F)
  set_cache_param t CacheLevel.l2 i s =
      let e = t.l2_table i in
      some (record {
        cachep = merge_dir e (l2_param t.sys e s.cachep);
        interface_ip = l2_voltages t i (set_device_types e.device_type s.interface_ip);
      })
  set_cache_param t CacheLevel.l3 i s =
      let e = t.l3_table i in
      some (record {
        cachep = merge_dir (t.l2_table i) (l3_param t.sys e s.cachep);
        interface_ip =
            with_voltages e.vdd e.power_gating_vcc (set_device_types e.device_type s.interface_ip);
      })
  set_cache_param t CacheLevel.l1_directory i s =
      let e = t.l1_directory_table i in
      to_dir_type e.directory_type >>= λ ty. some (record {
        cachep = l1_directory_param t.sys e (record (s.cachep) { dir_ty = ty });
        interface_ip =
            with_voltages e.vdd e.power_gating_vcc (set_device_types e.device_type s.interface_ip);
      })
  set_cache_param t CacheLevel.l2_directory i s =
      let e = t.l2_directory_table i in
      to_dir_type e.directory_type >>= λ ty. some (record {
        cachep = l2_directory_param t.sys e (record (s.cachep) { dir_ty = ty });
        interface_ip =
            with_voltages e.vdd e.power_gating_vcc (set_device_types e.device_type s.interface_ip);
      })
