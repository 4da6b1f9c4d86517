-- ===== src/Description/Zero.antt =====
-- Zeroes of the records of fast_mcpat/XML_Parse.h, which fast_mcpat/XML_Parse.cc starts from.
use wattwatcher.Prelude.{ℕ, false}
use wattwatcher.Text.{ℤ}
use wattwatcher.Description.Controllers.{SystemMem, SystemMc, SystemNiu, SystemPcie}
use wattwatcher.Description.Root.{RootSystem}
use wattwatcher.Description.ZeroCore.{zero_system_core}
use wattwatcher.Description.ZeroCaches.{
  zero_system_l1_directory, zero_system_l2_directory, zero_system_l2, zero_system_l3,
  zero_system_noc,
}

abbrev zero_system_mem : SystemMem ℕ
zero_system_mem = record {
  mem_tech_node = ℤ.pos 0;
  device_clock = ℤ.pos 0;
  peak_transfer_rate = ℤ.pos 0;
  internal_prefetch_of_dram_chip = ℤ.pos 0;
  capacity_per_channel = ℤ.pos 0;
  number_ranks = ℤ.pos 0;
  num_banks_of_dram_chip = ℤ.pos 0;
  block_width_of_dram_chip = ℤ.pos 0;
  output_width_of_dram_chip = ℤ.pos 0;
  page_size_of_dram_chip = ℤ.pos 0;
  burstlength_of_dram_chip = ℤ.pos 0;
  memory_accesses = 0;
  memory_reads = 0;
  memory_writes = 0;
}

abbrev zero_system_mc : SystemMc ℕ
zero_system_mc = record {
  peak_transfer_rate = 0;
  number_mcs = ℤ.pos 0;
  with_phy = false;
  type = ℤ.pos 0;
  duty_cycle = 0;
  total_load_perc = 0;
  mc_clock = ℤ.pos 0;
  llc_line_length = ℤ.pos 0;
  memory_channels_per_mc = ℤ.pos 0;
  number_ranks = ℤ.pos 0;
  req_window_size_per_channel = ℤ.pos 0;
  io_buffer_size_per_channel = ℤ.pos 0;
  databus_width = ℤ.pos 0;
  addressbus_width = ℤ.pos 0;
  lvds = false;
  vdd = 0;
  power_gating_vcc = 0;
  memory_accesses = 0;
  memory_reads = 0;
  memory_writes = 0;
}

abbrev zero_system_niu : SystemNiu ℕ
zero_system_niu = record {
  clockrate = ℤ.pos 0;
  number_units = ℤ.pos 0;
  type = ℤ.pos 0;
  vdd = 0;
  power_gating_vcc = 0;
  duty_cycle = 0;
  total_load_perc = 0;
}

abbrev zero_system_pcie : SystemPcie ℕ
zero_system_pcie = record {
  clockrate = ℤ.pos 0;
  number_units = ℤ.pos 0;
  num_channels = ℤ.pos 0;
  type = ℤ.pos 0;
  with_phy = false;
  vdd = 0;
  power_gating_vcc = 0;
  duty_cycle = 0;
  total_load_perc = 0;
}

abbrev pub zero_root_system : RootSystem ℕ
zero_root_system = record {
  number_of_cores = ℤ.pos 0;
  number_of_l1_directories = ℤ.pos 0;
  number_of_l2_directories = ℤ.pos 0;
  number_of_l2s = ℤ.pos 0;
  private_l2 = false;
  number_of_l3s = ℤ.pos 0;
  number_of_nocs = ℤ.pos 0;
  number_of_dir_levels = ℤ.pos 0;
  domain_size = ℤ.pos 0;
  first_level_dir = ℤ.pos 0;
  homogeneous_cores = ℤ.pos 0;
  homogeneous_l1_directories = ℤ.pos 0;
  homogeneous_l2_directories = ℤ.pos 0;
  core_tech_node = 0;
  target_core_clockrate = ℤ.pos 0;
  target_chip_area = ℤ.pos 0;
  temperature = ℤ.pos 0;
  number_cache_levels = ℤ.pos 0;
  l1_property = ℤ.pos 0;
  l2_property = ℤ.pos 0;
  homogeneous_l2s = ℤ.pos 0;
  l3_property = ℤ.pos 0;
  homogeneous_l3s = ℤ.pos 0;
  homogeneous_nocs = ℤ.pos 0;
  homogeneous_ccs = ℤ.pos 0;
  max_area_deviation = ℤ.pos 0;
  max_power_deviation = ℤ.pos 0;
  device_type = ℤ.pos 0;
  longer_channel_device = false;
  power_gating = false;
  embedded = false;
  opt_dynamic_power = false;
  opt_lakage_power = false;
  opt_clockrate = false;
  opt_area = false;
  interconnect_projection_type = ℤ.pos 0;
  machine_bits = ℤ.pos 0;
  virtual_address_width = ℤ.pos 0;
  physical_address_width = ℤ.pos 0;
  virtual_memory_page_size = ℤ.pos 0;
  total_cycles = 0;
  vdd = 0;
  power_gating_vcc = 0;
  core = λ j. zero_system_core;
  l1_directory = λ j. zero_system_l1_directory;
  l2_directory = λ j. zero_system_l2_directory;
  l2 = λ j. zero_system_l2;
  l3 = λ j. zero_system_l3;
  noc = λ j. zero_system_noc;
  mem = zero_system_mem;
  mc = zero_system_mc;
  flashc = zero_system_mc;
  niu = zero_system_niu;
  pcie = zero_system_pcie;
}
