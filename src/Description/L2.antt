-- ===== src/Description/L2.antt =====
-- system_L2 of fast_mcpat/XML_Parse.h, and what fast_mcpat/XML_Parse.cc reads of it.
use wattwatcher.Prelude.{ℕ, List, [], ◌∷◌, Bool, false, String}
use wattwatcher.Double.{Double}
use wattwatcher.Text.{ℤ}
use wattwatcher.Description.{Entry, int, bool, double, text, ints, doubles}

pub record SystemL2 (F : Type 0) : Type 0 where
  pub l2_config : ℕ → F
  pub clockrate : ℤ
  pub ports : ℕ → ℤ
  pub device_type : ℤ
  pub cache_policy : ℤ
  pub three_d_stack : String
  pub buffer_sizes : ℕ → ℤ
  pub vdd : F
  pub power_gating_vcc : F
  pub total_accesses : F
  pub read_accesses : F
  pub write_accesses : F
  pub total_hits : F
  pub total_misses : F
  pub read_hits : F
  pub write_hits : F
  pub read_misses : F
  pub write_misses : F
  pub replacements : F
  pub write_backs : F
  pub miss_buffer_accesses : F
  pub fill_buffer_accesses : F
  pub prefetch_buffer_accesses : F
  pub prefetch_buffer_writes : F
  pub prefetch_buffer_reads : F
  pub prefetch_buffer_hits : F
  pub wbb_writes : F
  pub wbb_reads : F
  pub conflicts : F
  pub duty_cycle : F
  pub merged_dir : Bool
  pub homenode_read_accesses : F
  pub homenode_write_accesses : F
  pub homenode_read_hits : F
  pub homenode_write_hits : F
  pub homenode_read_misses : F
  pub homenode_write_misses : F
  pub dir_duty_cycle : F

module _ {F : Type 0} ⦃d : Double F⦄ where
  unfoldable pub l2_params : List (Entry F (SystemL2 F))
  l2_params =
      doubles "L2_config" (λ r. r.l2_config) (λ v r. record r { l2_config = v })
      ∷ int "clockrate" (λ v r. record r { clockrate = v })
      ∷ double "vdd" (λ v r. record r { vdd = v })
      ∷ double "power_gating_vcc" (λ v r. record r { power_gating_vcc = v })
      ∷ bool "merged_dir" (λ v r. record r { merged_dir = v })
      ∷ ints "ports" (λ r. r.ports) (λ v r. record r { ports = v })
      ∷ int "device_type" (λ v r. record r { device_type = v })
      ∷ text "threeD_stack" (λ v r. record r { three_d_stack = v })
      ∷ ints "buffer_sizes" (λ r. r.buffer_sizes) (λ v r. record r { buffer_sizes = v })
      ∷ []

  unfoldable pub l2_stats : List (Entry F (SystemL2 F))
  l2_stats =
      double "total_accesses" (λ v r. record r { total_accesses = v })
      ∷ double "read_accesses" (λ v r. record r { read_accesses = v })
      ∷ double "write_accesses" (λ v r. record r { write_accesses = v })
      ∷ double "total_hits" (λ v r. record r { total_hits = v })
      ∷ double "total_misses" (λ v r. record r { total_misses = v })
      ∷ double "read_hits" (λ v r. record r { read_hits = v })
      ∷ double "write_hits" (λ v r. record r { write_hits = v })
      ∷ double "read_misses" (λ v r. record r { read_misses = v })
      ∷ double "write_misses" (λ v r. record r { write_misses = v })
      ∷ double "replacements" (λ v r. record r { replacements = v })
      ∷ double "write_backs" (λ v r. record r { write_backs = v })
      ∷ double "miss_buffer_accesses" (λ v r. record r { miss_buffer_accesses = v })
      ∷ double "fill_buffer_accesses" (λ v r. record r { fill_buffer_accesses = v })
      ∷ double "prefetch_buffer_accesses" (λ v r. record r { prefetch_buffer_accesses = v })
      ∷ double "prefetch_buffer_writes" (λ v r. record r { prefetch_buffer_writes = v })
      ∷ double "prefetch_buffer_reads" (λ v r. record r { prefetch_buffer_reads = v })
      ∷ double "prefetch_buffer_hits" (λ v r. record r { prefetch_buffer_hits = v })
      ∷ double "wbb_writes" (λ v r. record r { wbb_writes = v })
      ∷ double "wbb_reads" (λ v r. record r { wbb_reads = v })
      ∷ double "conflicts" (λ v r. record r { conflicts = v })
      ∷ double "duty_cycle" (λ v r. record r { duty_cycle = v })
      ∷ double "homenode_read_accesses" (λ v r. record r { homenode_read_accesses = v })
      ∷ double "homenode_read_accesses" (λ v r. record r { homenode_read_accesses = v })
      ∷ double "homenode_read_hits" (λ v r. record r { homenode_read_hits = v })
      ∷ double "homenode_write_hits" (λ v r. record r { homenode_write_hits = v })
      ∷ double "homenode_read_misses" (λ v r. record r { homenode_read_misses = v })
      ∷ double "homenode_write_misses" (λ v r. record r { homenode_write_misses = v })
      ∷ double "dir_duty_cycle" (λ v r. record r { dir_duty_cycle = v })
      ∷ []

  unfoldable pub initialize_l2 : SystemL2 F → SystemL2 F
  initialize_l2 r = record r {
    l2_config = λ j. d.nat 1;
    clockrate = ℤ.pos 1;
    ports = λ j. ℤ.pos 1;
    device_type = ℤ.pos 1;
    vdd = d.nat 0;
    power_gating_vcc = d.neg (d.nat 1);
    three_d_stack = "default";
    buffer_sizes = λ j. ℤ.pos 1;
    total_accesses = d.nat 1;
    read_accesses = d.nat 1;
    write_accesses = d.nat 1;
    total_hits = d.nat 1;
    total_misses = d.nat 1;
    read_hits = d.nat 1;
    write_hits = d.nat 1;
    read_misses = d.nat 1;
    write_misses = d.nat 1;
    replacements = d.nat 1;
    write_backs = d.nat 1;
    miss_buffer_accesses = d.nat 1;
    fill_buffer_accesses = d.nat 1;
    prefetch_buffer_accesses = d.nat 1;
    prefetch_buffer_writes = d.nat 1;
    prefetch_buffer_reads = d.nat 1;
    prefetch_buffer_hits = d.nat 1;
    wbb_writes = d.nat 1;
    wbb_reads = d.nat 1;
    duty_cycle = d.nat 1;
    merged_dir = false;
    homenode_read_accesses = d.nat 1;
    homenode_write_accesses = d.nat 1;
    homenode_read_hits = d.nat 1;
    homenode_write_hits = d.nat 1;
    homenode_read_misses = d.nat 1;
    homenode_write_misses = d.nat 1;
    dir_duty_cycle = d.nat 1;
  }
