-- ===== src/SharedCache/Described.antt =====
-- SharedCache::set_cache_param (fast_mcpat/sharedcache.cc) against one description of its four
-- branches: which entry of the tables a level reads, and what it makes of it.
use wattwatcher.Prelude.{ap₂, ℕ, String, Option, none, some, if◌then◌else◌, ◌>>=◌, ◌≡◌, refl, arith}
use wattwatcher.Double.{Double, ◌⊗◌, ◌⊘◌}
use wattwatcher.Cacti.{InputParameter, with_voltages}
use wattwatcher.System.{CacheSystem, DirectorySystem, System}
use wattwatcher.SharedCache.{
  CacheLevel, DirType, Tables, CacheDynParam, SharedCache, merge_dir, set_device_types, l2_param,
  l3_param, to_dir_type, l2_voltages, set_cache_param,
}

-- What the four kinds of entries have in common.
pub record Entry (F : Type 0) : Type 0 where
  pub name : String
  pub config : ℕ → F
  pub buffer_sizes : ℕ → ℕ
  pub clockrate : F
  pub device_type : ℕ
  pub duty_cycle : F
  pub vdd : F
  pub power_gating_vcc : F

bind-some :
    {A B C : Type 0} (o : Option A) (g : A → B) (f : B → Option C)
    → (o >>= λ a. f (g a)) ≡ ((o >>= λ a. some (g a)) >>= f)
bind-some none g f = refl
bind-some (some a) g f = refl

module _ {F : Type 0} where
  abbrev cache_entry : String → CacheSystem F → Entry F
  cache_entry name e = record {
    name = name;
    config = e.cache_config;
    buffer_sizes = e.buffer_sizes;
    clockrate = e.clockrate;
    device_type = e.device_type;
    duty_cycle = e.duty_cycle;
    vdd = e.vdd;
    power_gating_vcc = e.power_gating_vcc;
  }

  abbrev directory_entry : String → DirectorySystem F → Entry F
  directory_entry name e = record {
    name = name;
    config = e.dir_config;
    buffer_sizes = e.buffer_sizes;
    clockrate = e.clockrate;
    device_type = e.device_type;
    duty_cycle = e.duty_cycle;
    vdd = e.vdd;
    power_gating_vcc = e.power_gating_vcc;
  }

  -- The entry of a level, with the voltages of the core if it is a private second level.
  abbrev pub entry_of : Tables F → CacheLevel → ℕ → Entry F
  entry_of t CacheLevel.l2 i =
      let e = cache_entry "L2" (t.l2_table i) in
      let private = t.sys.private_l2 in
      record e {
        vdd = if private then t.core_vdd i else e.vdd;
        power_gating_vcc = if private then t.core_power_gating_vcc i else e.power_gating_vcc;
      }
  entry_of t CacheLevel.l3 i = cache_entry "L3" (t.l3_table i)
  entry_of t CacheLevel.l1_directory i =
      directory_entry "First Level Directory" (t.l1_directory_table i)
  entry_of t CacheLevel.l2_directory i =
      directory_entry "Second Level Directory" (t.l2_directory_table i)

  -- The directory of a level, and its duty cycle, where `old` is the one the object holds: a cache of
  -- either level has the one merged into the second-level cache.
  abbrev pub merged : CacheSystem F → F → DirType × F
  merged e old = if e.merged_dir then (DirType.sbt, e.dir_duty_cycle) else (DirType.non_dir, old)

  abbrev pub directory_of : Tables F → CacheLevel → ℕ → F → Option (DirType × F)
  directory_of t CacheLevel.l2 i old = some (merged (t.l2_table i) old)
  directory_of t CacheLevel.l3 i old = some (merged (t.l2_table i) old)
  directory_of t CacheLevel.l1_directory i old =
      to_dir_type ((t.l1_directory_table i).directory_type) >>= λ ty. some (ty, old)
  directory_of t CacheLevel.l2_directory i old =
      to_dir_type ((t.l2_directory_table i).directory_type) >>= λ ty. some (ty, old)

  module _ ⦃d : Double F⦄ where
    abbrev pub described : System F → Entry F → DirType × F → SharedCache F → SharedCache F
    described sys e dir s =
        let hertz = λ (mhz : F). mhz ⊗ d.nat 1_000_000 in
        record {
          cachep = record {
            name = e.name;
            dir_ty = dir.0;
            dir_duty_cycle = dir.1;
            clock_rate = hertz e.clockrate;
            execution_time = sys.total_cycles ⊘ hertz sys.target_core_clockrate;
            capacity = e.config 0;
            block_w = e.config 1;
            assoc = e.config 2;
            nbanks = e.config 3;
            throughput = e.config 4 ⊘ hertz e.clockrate;
            latency = e.config 5 ⊘ hertz e.clockrate;
            duty_cycle = e.duty_cycle;
            missb_size = e.buffer_sizes 0;
            fu_size = e.buffer_sizes 1;
            prefetchb_size = e.buffer_sizes 2;
            wbb_size = e.buffer_sizes 3;
          };
          interface_ip = with_voltages e.vdd e.power_gating_vcc (record (s.interface_ip) {
            data_arr_ram_cell_tech_type = e.device_type;
            data_arr_peri_global_tech_type = e.device_type;
            tag_arr_ram_cell_tech_type = e.device_type;
            tag_arr_peri_global_tech_type = e.device_type;
          });
        }

    l2_voltages_lem :
        (t : Tables F) (i : ℕ) (ip : InputParameter F)
        → l2_voltages t i ip
          ≡ with_voltages
              (entry_of t CacheLevel.l2 i).vdd
              (entry_of t CacheLevel.l2 i).power_gating_vcc
              ip
    unfolding l2_voltages with_voltages
    l2_voltages_lem t i ip = ground arith

    merge_dir_lem :
        (e : CacheSystem F) (p : CacheDynParam F)
        → merge_dir e p ≡ record p {
          dir_ty = (merged e p.dir_duty_cycle).0;
          dir_duty_cycle = (merged e p.dir_duty_cycle).1;
        }
    merge_dir_lem e p = ground arith

    -- For each level and number, what a shared cache reads is what the entry of its level says, with
    -- the voltages of its core if it is a private second-level cache; its directory is the one that
    -- is merged into the second-level cache of that number, for a third-level cache too; and there is
    -- no result if the type of a directory names no kind of directory.
    pub set_cache_param-described :
        (t : Tables F) (level : CacheLevel) (i : ℕ) (s : SharedCache F)
        → set_cache_param t level i s ≡ (
            directory_of t level i s.cachep.dir_duty_cycle >>= λ dir.
            some (described t.sys (entry_of t level i) dir s))
    unfolding set_cache_param
    set_cache_param-described t CacheLevel.l2 i s =
        ap₂ (λ cachep interface_ip. some (record { cachep = cachep; interface_ip = interface_ip }))
          (merge_dir_lem (t.l2_table i) (l2_param t.sys (t.l2_table i) s.cachep))
          (l2_voltages_lem t i (set_device_types (t.l2_table i).device_type s.interface_ip))
    set_cache_param-described t CacheLevel.l3 i s =
        rw (merge_dir_lem (t.l2_table i) (l3_param t.sys (t.l3_table i) s.cachep)) refl
    set_cache_param-described t CacheLevel.l1_directory i s =
        bind-some (to_dir_type (t.l1_directory_table i).directory_type)
          (λ ty. (ty, s.cachep.dir_duty_cycle))
          (λ dir. some (described t.sys (entry_of t CacheLevel.l1_directory i) dir s))
    set_cache_param-described t CacheLevel.l2_directory i s =
        bind-some (to_dir_type (t.l2_directory_table i).directory_type)
          (λ ty. (ty, s.cachep.dir_duty_cycle))
          (λ dir. some (described t.sys (entry_of t CacheLevel.l2_directory i) dir s))
