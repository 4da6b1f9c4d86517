-- ===== src/Description/ZeroCaches.antt =====
-- Zeroes of the records of fast_mcpat/XML_Parse.h, which fast_mcpat/XML_Parse.cc starts from.
use wattwatcher.Prelude.{ℕ, false}
use wattwatcher.Text.{ℤ}
use wattwatcher.Description.L1Directory.{SystemL1Directory}
use wattwatcher.Description.L2Directory.{SystemL2Directory}
use wattwatcher.Description.L2.{SystemL2}
use wattwatcher.Description.L3.{SystemL3}
use wattwatcher.Description.Noc.{Xbar0SystemNoc, SystemNoc}

abbrev pub zero_system_l1_directory : SystemL1Directory ℕ
zero_system_l1_directory = record {
  directory_type = ℤ.pos 0;
  dir_config = λ j. 0;
  buffer_sizes = λ j. ℤ.pos 0;
  clockrate = ℤ.pos 0;
  ports = λ j. ℤ.pos 0;
  device_type = ℤ.pos 0;
  cache_policy = ℤ.pos 0;
  three_d_stack = "";
  vdd = 0;
  power_gating_vcc = 0;
  total_accesses = 0;
  read_accesses = 0;
  write_accesses = 0;
  read_misses = 0;
  write_misses = 0;
  conflicts = 0;
  duty_cycle = 0;
}

abbrev pub zero_system_l2_directory : SystemL2Directory ℕ
zero_system_l2_directory = record {
  directory_type = ℤ.pos 0;
  dir_config = λ j. 0;
  buffer_sizes = λ j. ℤ.pos 0;
  clockrate = ℤ.pos 0;
  ports = λ j. ℤ.pos 0;
  device_type = ℤ.pos 0;
  cache_policy = ℤ.pos 0;
  three_d_stack = "";
  vdd = 0;
  power_gating_vcc = 0;
  total_accesses = 0;
  read_accesses = 0;
  write_accesses = 0;
  read_misses = 0;
  write_misses = 0;
  conflicts = 0;
  duty_cycle = 0;
}

abbrev pub zero_system_l2 : SystemL2 ℕ
zero_system_l2 = record {
  l2_config = λ j. 0;
  clockrate = ℤ.pos 0;
  ports = λ j. ℤ.pos 0;
  device_type = ℤ.pos 0;
  cache_policy = ℤ.pos 0;
  three_d_stack = "";
  buffer_sizes = λ j. ℤ.pos 0;
  vdd = 0;
  power_gating_vcc = 0;
  total_accesses = 0;
  read_accesses = 0;
  write_accesses = 0;
  total_hits = 0;
  total_misses = 0;
  read_hits = 0;
  write_hits = 0;
  read_misses = 0;
  write_misses = 0;
  replacements = 0;
  write_backs = 0;
  miss_buffer_accesses = 0;
  fill_buffer_accesses = 0;
  prefetch_buffer_accesses = 0;
  prefetch_buffer_writes = 0;
  prefetch_buffer_reads = 0;
  prefetch_buffer_hits = 0;
  wbb_writes = 0;
  wbb_reads = 0;
  conflicts = 0;
  duty_cycle = 0;
  merged_dir = false;
  homenode_read_accesses = 0;
  homenode_write_accesses = 0;
  homenode_read_hits = 0;
  homenode_write_hits = 0;
  homenode_read_misses = 0;
  homenode_write_misses = 0;
  dir_duty_cycle = 0;
}

abbrev pub zero_system_l3 : SystemL3 ℕ
zero_system_l3 = record {
  l3_config = λ j. 0;
  clockrate = ℤ.pos 0;
  ports = λ j. ℤ.pos 0;
  device_type = ℤ.pos 0;
  cache_policy = ℤ.pos 0;
  three_d_stack = "";
  buffer_sizes = λ j. ℤ.pos 0;
  vdd = 0;
  power_gating_vcc = 0;
  total_accesses = 0;
  read_accesses = 0;
  write_accesses = 0;
  total_hits = 0;
  total_misses = 0;
  read_hits = 0;
  write_hits = 0;
  read_misses = 0;
  write_misses = 0;
  replacements = 0;
  write_backs = 0;
  miss_buffer_accesses = 0;
  fill_buffer_accesses = 0;
  prefetch_buffer_accesses = 0;
  prefetch_buffer_writes = 0;
  prefetch_buffer_reads = 0;
  prefetch_buffer_hits = 0;
  wbb_writes = 0;
  wbb_reads = 0;
  conflicts = 0;
  duty_cycle = 0;
  merged_dir = false;
  homenode_read_accesses = 0;
  homenode_write_accesses = 0;
  homenode_read_hits = 0;
  homenode_write_hits = 0;
  homenode_read_misses = 0;
  homenode_write_misses = 0;
  dir_duty_cycle = 0;
}

abbrev zero_xbar0_system_noc : Xbar0SystemNoc ℕ
zero_xbar0_system_noc = record {
  number_of_inputs_of_crossbars = ℤ.pos 0;
  number_of_outputs_of_crossbars = ℤ.pos 0;
  flit_bits = ℤ.pos 0;
  input_buffer_entries_per_port = ℤ.pos 0;
  ports_of_input_buffer = λ j. ℤ.pos 0;
  crossbar_accesses = 0;
}

abbrev pub zero_system_noc : SystemNoc ℕ
zero_system_noc = record {
  clockrate = ℤ.pos 0;
  type = false;
  has_global_link = false;
  topology = "";
  horizontal_nodes = ℤ.pos 0;
  vertical_nodes = ℤ.pos 0;
  link_throughput = ℤ.pos 0;
  link_latency = ℤ.pos 0;
  input_ports = ℤ.pos 0;
  output_ports = ℤ.pos 0;
  virtual_channel_per_port = ℤ.pos 0;
  flit_bits = ℤ.pos 0;
  input_buffer_entries_per_vc = ℤ.pos 0;
  ports_of_input_buffer = λ j. ℤ.pos 0;
  dual_pump = ℤ.pos 0;
  number_of_crossbars = ℤ.pos 0;
  crossbar_type = "";
  crosspoint_type = "";
  xbar0 = zero_xbar0_system_noc;
  arbiter_type = ℤ.pos 0;
  chip_coverage = 0;
  vdd = 0;
  power_gating_vcc = 0;
  total_accesses = 0;
  duty_cycle = 0;
  route_over_perc = 0;
}
