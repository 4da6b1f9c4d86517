-- ===== src/Description/Dcache.antt =====
-- dcache_systemcore of fast_mcpat/XML_Parse.h, and what fast_mcpat/XML_Parse.cc reads of it.
use wattwatcher.Prelude.{ℕ, List, [], ◌∷◌}
use wattwatcher.Double.{Double}
use wattwatcher.Text.{ℤ}
use wattwatcher.Description.{Entry, double, ints, doubles}

pub record DcacheSystemcore (F : Type 0) : Type 0 where
  pub dcache_config : ℕ → F
  pub buffer_sizes : ℕ → ℤ
  pub cache_policy : ℤ
  pub total_accesses : F
  pub read_accesses : F
  pub write_accesses : F
  pub total_hits : F
  pub total_misses : F
  pub read_hits : F
  pub write_hits : F
  pub read_misses : F
  pub write_misses : F
  pub replacements : F
  pub write_backs : F
  pub miss_buffer_access : F
  pub fill_buffer_accesses : F
  pub prefetch_buffer_accesses : F
  pub prefetch_buffer_writes : F
  pub prefetch_buffer_reads : F
  pub prefetch_buffer_hits : F
  pub wbb_writes : F
  pub wbb_reads : F
  pub conflicts : F

module _ {F : Type 0} ⦃d : Double F⦄ where
  unfoldable pub dcache_params : List (Entry F (DcacheSystemcore F))
  dcache_params =
      doubles "dcache_config" (λ r. r.dcache_config) (λ v r. record r { dcache_config = v })
      ∷ ints "buffer_sizes" (λ r. r.buffer_sizes) (λ v r. record r { buffer_sizes = v })
      ∷ []

  unfoldable pub dcache_stats : List (Entry F (DcacheSystemcore F))
  dcache_stats =
      double "total_accesses" (λ v r. record r { total_accesses = v })
      ∷ double "read_accesses" (λ v r. record r { read_accesses = v })
      ∷ double "write_accesses" (λ v r. record r { write_accesses = v })
      ∷ double "total_hits" (λ v r. record r { total_hits = v })
      ∷ double "total_misses" (λ v r. record r { total_misses = v })
      ∷ double "read_hits" (λ v r. record r { read_hits = v })
      ∷ double "write_hits" (λ v r. record r { write_hits = v })
      ∷ double "read_misses" (λ v r. record r { read_misses = v })
      ∷ double "write_misses" (λ v r. record r { write_misses = v })
      ∷ double "replacements" (λ v r. record r { replacements = v })
      ∷ double "write_backs" (λ v r. record r { write_backs = v })
      ∷ double "miss_buffer_access" (λ v r. record r { miss_buffer_access = v })
      ∷ double "fill_buffer_accesses" (λ v r. record r { fill_buffer_accesses = v })
      ∷ double "prefetch_buffer_accesses" (λ v r. record r { prefetch_buffer_accesses = v })
      ∷ double "prefetch_buffer_writes" (λ v r. record r { prefetch_buffer_writes = v })
      ∷ double "prefetch_buffer_reads" (λ v r. record r { prefetch_buffer_reads = v })
      ∷ double "prefetch_buffer_hits" (λ v r. record r { prefetch_buffer_hits = v })
      ∷ double "wbb_writes" (λ v r. record r { wbb_writes = v })
      ∷ double "wbb_reads" (λ v r. record r { wbb_reads = v })
      ∷ double "conflicts" (λ v r. record r { conflicts = v })
      ∷ []

  unfoldable pub initialize_dcache : DcacheSystemcore F → DcacheSystemcore F
  initialize_dcache r = record r {
    dcache_config = λ j. d.nat 1;
    total_accesses = d.nat 1;
    read_accesses = d.nat 1;
    write_accesses = d.nat 1;
    total_hits = d.nat 1;
    total_misses = d.nat 1;
    read_hits = d.nat 1;
    write_hits = d.nat 1;
    read_misses = d.nat 1;
    write_misses = d.nat 1;
    replacements = d.nat 1;
    write_backs = d.nat 1;
    miss_buffer_access = d.nat 1;
    fill_buffer_accesses = d.nat 1;
    prefetch_buffer_accesses = d.nat 1;
    prefetch_buffer_writes = d.nat 1;
    prefetch_buffer_reads = d.nat 1;
    prefetch_buffer_hits = d.nat 1;
    wbb_writes = d.nat 1;
    wbb_reads = d.nat 1;
  }
