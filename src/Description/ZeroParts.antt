-- ===== src/Description/ZeroParts.antt =====
-- Zeroes of the records of fast_mcpat/XML_Parse.h, which fast_mcpat/XML_Parse.cc starts from.
use wattwatcher.Prelude.{ℕ}
use wattwatcher.Text.{ℤ}
use wattwatcher.Description.Predictor.{PredictorSystemcore}
use wattwatcher.Description.Itlb.{ItlbSystemcore}
use wattwatcher.Description.Icache.{IcacheSystemcore}
use wattwatcher.Description.Dtlb.{DtlbSystemcore}
use wattwatcher.Description.Dcache.{DcacheSystemcore}
use wattwatcher.Description.Btb.{BtbSystemcore}

abbrev pub zero_predictor_systemcore : PredictorSystemcore ℕ
zero_predictor_systemcore = record {
  prediction_width = ℤ.pos 0;
  prediction_scheme = "";
  predictor_size = ℤ.pos 0;
  predictor_entries = ℤ.pos 0;
  local_predictor_size = λ j. ℤ.pos 0;
  local_predictor_entries = ℤ.pos 0;
  global_predictor_entries = ℤ.pos 0;
  global_predictor_bits = ℤ.pos 0;
  chooser_predictor_entries = ℤ.pos 0;
  chooser_predictor_bits = ℤ.pos 0;
  predictor_accesses = 0;
}

abbrev pub zero_itlb_systemcore : ItlbSystemcore ℕ
zero_itlb_systemcore = record {
  number_entries = ℤ.pos 0;
  cache_policy = ℤ.pos 0;
  total_hits = 0;
  total_accesses = 0;
  total_misses = 0;
  conflicts = 0;
}

abbrev pub zero_icache_systemcore : IcacheSystemcore ℕ
zero_icache_systemcore = record {
  icache_config = λ j. 0;
  buffer_sizes = λ j. ℤ.pos 0;
  cache_policy = ℤ.pos 0;
  total_accesses = 0;
  read_accesses = 0;
  read_misses = 0;
  replacements = 0;
  read_hits = 0;
  total_hits = 0;
  total_misses = 0;
  miss_buffer_access = 0;
  fill_buffer_accesses = 0;
  prefetch_buffer_accesses = 0;
  prefetch_buffer_writes = 0;
  prefetch_buffer_reads = 0;
  prefetch_buffer_hits = 0;
  conflicts = 0;
}

abbrev pub zero_dtlb_systemcore : DtlbSystemcore ℕ
zero_dtlb_systemcore = record {
  number_entries = ℤ.pos 0;
  cache_policy = ℤ.pos 0;
  total_accesses = 0;
  read_accesses = 0;
  write_accesses = 0;
  write_hits = 0;
  read_hits = 0;
  read_misses = 0;
  write_misses = 0;
  total_hits = 0;
  total_misses = 0;
  conflicts = 0;
}

abbrev pub zero_dcache_systemcore : DcacheSystemcore ℕ
zero_dcache_systemcore = record {
  dcache_config = λ j. 0;
  buffer_sizes = λ j. ℤ.pos 0;
  cache_policy = ℤ.pos 0;
  total_accesses = 0;
  read_accesses = 0;
  write_accesses = 0;
  total_hits = 0;
  total_misses = 0;
  read_hits = 0;
  write_hits = 0;
  read_misses = 0;
  write_misses = 0;
  replacements = 0;
  write_backs = 0;
  miss_buffer_access = 0;
  fill_buffer_accesses = 0;
  prefetch_buffer_accesses = 0;
  prefetch_buffer_writes = 0;
  prefetch_buffer_reads = 0;
  prefetch_buffer_hits = 0;
  wbb_writes = 0;
  wbb_reads = 0;
  conflicts = 0;
}

abbrev pub zero_btb_systemcore : BtbSystemcore ℕ
zero_btb_systemcore = record {
  btb_config = λ j. ℤ.pos 0;
  total_accesses = 0;
  read_accesses = 0;
  write_accesses = 0;
  total_hits = 0;
  total_misses = 0;
  read_hits = 0;
  write_hits = 0;
  read_misses = 0;
  write_misses = 0;
  replacements = 0;
}
