-- ===== src/SharedCache/EnergyTests.antt =====
-- A second-level cache with a home node, and a directory of shadowed tags.
use wattwatcher.Prelude.{ℕ, true, false, ◌≡◌, refl}
use wattwatcher.Double.{nat_double, nat-IsExact, ◌⊕◌}
use wattwatcher.Power.{PowerDef, no_power}
use wattwatcher.Basic.{DeviceTy, CoreType}
use wattwatcher.Array.{ArraySt}
use wattwatcher.Samples.{blank_input, blank_uca}
use wattwatcher.Description.Root.{RootSystem}
use wattwatcher.Description.Zero.{zero_root_system}
use wattwatcher.SharedCache.{CacheLevel, DirType, CacheDynParam}
use wattwatcher.SharedCache.Energy.{StatsDef, Counted, Buffers, Shared, count_runtime}
use wattwatcher.SharedCache.Evaluate.{compute_energy}
use wattwatcher.SharedCache.Leakage.{with_read, evaluated, evaluated-leakage}
use wattwatcher.SharedCache.HomeNode.{home_energy, nothing_counted, with_counts, rt_power-same}
use wattwatcher.SharedCache.Shadow.{compute_energy-buffers}

abbrev array : ArraySt ℕ
array = record {
  l_ip = record blank_input { num_rw_ports = 1; num_search_ports = 1 };
  name = "";
  device_ty = DeviceTy.uncore_device;
  opt_local = true;
  core_ty = CoreType.inorder;
  is_default = true;
  local_result = blank_uca;
}

abbrev no_counts : StatsDef ℕ
no_counts = record {
  read_ac = record { access = 0; hit = 0; miss = 0 };
  write_ac = record { access = 0; hit = 0; miss = 0 };
}

abbrev unit : Counted ℕ
unit = record { array = array; stats_t = no_counts; tdp_stats = no_counts; rtp_stats = no_counts }

abbrev busy : Counted ℕ
busy = record unit {
  stats_t = record no_counts { read_ac = record { access = 9; hit = 9; miss = 0 } };
}

abbrev buffers : Buffers ℕ
buffers = record { missb = unit; ifb = unit; prefetchb = unit; wbb = unit }

abbrev param : DirType → CacheDynParam ℕ
param ty = record {
  name = "L2";
  dir_ty = ty;
  clock_rate = 1;
  execution_time = 1;
  capacity = 64;
  block_w = 8;
  assoc = 1;
  nbanks = 1;
  throughput = 1;
  latency = 1;
  duty_cycle = 1;
  dir_duty_cycle = 1;
  missb_size = 1;
  fu_size = 1;
  prefetchb_size = 1;
  wbb_size = 1;
}

abbrev shared : CacheLevel → DirType → Shared ℕ
shared level ty = record {
  level = level;
  cachep = param ty;
  dir_overhead = 0;
  homenode_stats_t = no_counts;
  homenode_tdp_stats = no_counts;
  homenode_rtp_stats = no_counts;
  caches = unit;
  buffers = buffers;
  unicache_power_t = no_power;
  unicache_power = no_power;
  unicache_rt_power = no_power;
  power = no_power;
  rt_power = no_power;
}

-- Ten writes that miss twice, three misses at the home node, and so many reads there.
abbrev counted : ℕ → RootSystem ℕ
counted reads = record zero_root_system {
  l2 = λ i. record (zero_root_system.l2 i) {
    write_accesses = 10;
    write_misses = 2;
    homenode_write_misses = 3;
    homenode_read_accesses = reads;
  };
}

abbrev cache : Shared ℕ
cache = record (shared CacheLevel.l2 DirType.sbt) { dir_overhead = 2 }

abbrev directory : Shared ℕ
directory = shared CacheLevel.l1_directory DirType.st

evaluated-leakage_example :
    with_read
      (evaluated (counted 5) 0 cache).power.read_op.dynamic
      (evaluated (counted 5) 0 cache).rt_power
    ≡ (evaluated (counted 5) 0 cache).power
evaluated-leakage_example = evaluated-leakage (counted 5) 0 cache refl

-- Four reads that hit, two that miss, three writes that hit and one that misses.
abbrev home : StatsDef ℕ
home = record {
  read_ac = record { access = 6; hit = 4; miss = 2 };
  write_ac = record { access = 4; hit = 3; miss = 1 };
}

rt_power-same_example :
    let runtime : RootSystem ℕ → StatsDef ℕ → PowerDef ℕ =
      λ t st. (compute_energy t 0 false (with_counts st cache)).rt_power in
    (runtime (counted 5) home ≡ runtime (counted 1000) home)
    × ((runtime (counted 5) home).read_op.dynamic
        ≡ (runtime (counted 5) nothing_counted).read_op.dynamic ⊕ home_energy cache home)
rt_power-same_example = rt_power-same nat-IsExact (counted 5) (counted 1000) 0 cache home refl refl

compute_energy-buffers_example :
    compute_energy (counted 5) 0 true (record directory { buffers = record buffers { wbb = busy } })
    ≡ record (compute_energy (counted 5) 0 true directory) {
      buffers = record buffers { wbb = busy };
    }
compute_energy-buffers_example =
    compute_energy-buffers (counted 5) 0 directory (record buffers { wbb = busy }) true refl

-- 2 misses and, twice, 3 at the home node; the fill buffer counts those once.
miss_buffer : (count_runtime (counted 5) 0 cache).buffers.missb.stats_t.read_ac.access ≡ 8
unfolding count_runtime
miss_buffer = refl

fill_buffer : (count_runtime (counted 5) 0 cache).buffers.ifb.stats_t.read_ac.access ≡ 5
unfolding count_runtime
fill_buffer = refl
