-- ===== src/SharedCache/Tests.antt =====
-- A chip with private second-level caches, third-level caches and two kinds of directories.
use wattwatcher.Prelude.{◌+◌, ◌≡◌, refl, true, false, none, some, ℕ, Bool, ◌>>=◌}
use wattwatcher.Double.{nat_double}
use wattwatcher.System.{CacheSystem, DirectorySystem}
use wattwatcher.SharedCache.{CacheLevel, DirType, Tables, SharedCache, l2_voltages, set_cache_param}
use wattwatcher.SharedCache.Described.{directory_of, described, entry_of, set_cache_param-described}
use wattwatcher.Samples.{blank_input, blank_system}

abbrev cache : ℕ → Bool → CacheSystem ℕ
cache n merged = record {
  cache_config = λ j. n + j;
  clockrate = 1;
  device_type = 2;
  buffer_sizes = λ j. j;
  vdd = n;
  power_gating_vcc = 1;
  duty_cycle = 1;
  merged_dir = merged;
  dir_duty_cycle = n;
}

abbrev directory : ℕ → DirectorySystem ℕ
directory type = record {
  directory_type = type;
  dir_config = λ j. j;
  buffer_sizes = λ j. j;
  clockrate = 1;
  device_type = 0;
  vdd = 0;
  power_gating_vcc = 0;
  duty_cycle = 1;
}

abbrev tables : Tables ℕ
tables = record {
  sys = record blank_system {
    private_l2 = true;
    total_cycles = 5_000_000;
    target_core_clockrate = 1;
  };
  core_vdd = λ i. i + 7;
  core_power_gating_vcc = λ i. 3;
  l2_table = λ i. cache (i + 10) true;
  l3_table = λ i. cache (i + 20) false;
  l1_directory_table = λ i. directory 1;
  l2_directory_table = λ i. directory 4;
}

abbrev blank_cache : SharedCache ℕ
blank_cache = record {
  cachep = record {
    name = "";
    dir_ty = DirType.st;
    clock_rate = 0;
    execution_time = 0;
    capacity = 0;
    block_w = 0;
    assoc = 0;
    nbanks = 0;
    throughput = 0;
    latency = 0;
    duty_cycle = 0;
    dir_duty_cycle = 0;
    missb_size = 0;
    fu_size = 0;
    prefetchb_size = 0;
    wbb_size = 0;
  };
  interface_ip = blank_input;
}

set_cache_param-described_example : set_cache_param tables CacheLevel.l3 2 blank_cache ≡ (
    directory_of tables CacheLevel.l3 2 0 >>= λ dir.
    some (described tables.sys (entry_of tables CacheLevel.l3 2) dir blank_cache))
set_cache_param-described_example = set_cache_param-described tables CacheLevel.l3 2 blank_cache

-- The voltage of core 2 and not that of the cache.
private_voltage :
    (set_cache_param tables CacheLevel.l2 2 blank_cache >>= λ s. some s.interface_ip.hp_vdd)
    ≡ some 9
unfolding set_cache_param l2_voltages
private_voltage = refl

-- The directory of the second-level cache.
third_level_directory :
    (set_cache_param tables CacheLevel.l3 2 blank_cache >>= λ s. some s.cachep.dir_ty)
    ≡ some DirType.sbt
unfolding set_cache_param
third_level_directory = refl

unknown_directory : set_cache_param tables CacheLevel.l2_directory 0 blank_cache ≡ none
unfolding set_cache_param
unknown_directory = refl
