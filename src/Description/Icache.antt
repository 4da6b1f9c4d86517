-- ===== src/Description/Icache.antt =====
-- icache_systemcore of fast_mcpat/XML_Parse.h, and what fast_mcpat/XML_Parse.cc reads of it.
use wattwatcher.Prelude.{ℕ, List, [], ◌∷◌}
use wattwatcher.Double.{Double}
use wattwatcher.Text.{ℤ}
use wattwatcher.Description.{Entry, double, ints, doubles}

pub record IcacheSystemcore (F : Type 0) : Type 0 where
  pub icache_config : ℕ → F
  pub buffer_sizes : ℕ → ℤ
  pub cache_policy : ℤ
  pub total_accesses : F
  pub read_accesses : F
  pub read_misses : F
  pub replacements : F
  pub read_hits : F
  pub total_hits : F
  pub total_misses : F
  pub miss_buffer_access : F
  pub fill_buffer_accesses : F
  pub prefetch_buffer_accesses : F
  pub prefetch_buffer_writes : F
  pub prefetch_buffer_reads : F
  pub prefetch_buffer_hits : F
  pub conflicts : F

module _ {F : Type 0} ⦃d : Double F⦄ where
  unfoldable pub icache_params : List (Entry F (IcacheSystemcore F))
  icache_params =
      doubles "icache_config" (λ r. r.icache_config) (λ v r. record r { icache_config = v })
      ∷ ints "buffer_sizes" (λ r. r.buffer_sizes) (λ v r. record r { buffer_sizes = v })
      ∷ []

  unfoldable pub icache_stats : List (Entry F (IcacheSystemcore F))
  icache_stats =
      double "total_accesses" (λ v r. record r { total_accesses = v })
      ∷ double "read_accesses" (λ v r. record r { read_accesses = v })
      ∷ double "read_misses" (λ v r. record r { read_misses = v })
      ∷ double "replacements" (λ v r. record r { replacements = v })
      ∷ double "read_hits" (λ v r. record r { read_hits = v })
      ∷ double "total_hits" (λ v r. record r { total_hits = v })
      ∷ double "total_misses" (λ v r. record r { total_misses = v })
      ∷ double "miss_buffer_access" (λ v r. record r { miss_buffer_access = v })
      ∷ double "fill_buffer_accesses" (λ v r. record r { fill_buffer_accesses = v })
      ∷ double "prefetch_buffer_accesses" (λ v r. record r { prefetch_buffer_accesses = v })
      ∷ double "prefetch_buffer_writes" (λ v r. record r { prefetch_buffer_writes = v })
      ∷ double "prefetch_buffer_reads" (λ v r. record r { prefetch_buffer_reads = v })
      ∷ double "prefetch_buffer_hits" (λ v r. record r { prefetch_buffer_hits = v })
      ∷ double "conflicts" (λ v r. record r { conflicts = v })
      ∷ []

  unfoldable pub initialize_icache : IcacheSystemcore F → IcacheSystemcore F
  initialize_icache r = record r {
    icache_config = λ j. d.nat 1;
    total_accesses = d.nat 1;
    read_accesses = d.nat 1;
    read_misses = d.nat 1;
    replacements = d.nat 1;
    read_hits = d.nat 1;
    total_hits = d.nat 1;
    total_misses = d.nat 1;
    miss_buffer_access = d.nat 1;
    fill_buffer_accesses = d.nat 1;
    prefetch_buffer_accesses = d.nat 1;
    prefetch_buffer_writes = d.nat 1;
    prefetch_buffer_reads = d.nat 1;
    prefetch_buffer_hits = d.nat 1;
  }
