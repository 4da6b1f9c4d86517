-- ===== src/Description/ZeroCore.antt =====
-- Zeroes of the records of fast_mcpat/XML_Parse.h, which fast_mcpat/XML_Parse.cc starts from.
use wattwatcher.Prelude.{ℕ, false}
use wattwatcher.Text.{ℤ}
use wattwatcher.Description.Core.{SystemCore}
use wattwatcher.Description.ZeroParts.{
  zero_predictor_systemcore, zero_itlb_systemcore, zero_icache_systemcore, zero_dtlb_systemcore,
  zero_dcache_systemcore, zero_btb_systemcore,
}

abbrev pub zero_system_core : SystemCore ℕ
zero_system_core = record {
  clock_rate = ℤ.pos 0;
  opt_local = false;
  x86 = false;
  machine_bits = ℤ.pos 0;
  virtual_address_width = ℤ.pos 0;
  physical_address_width = ℤ.pos 0;
  opcode_width = ℤ.pos 0;
  micro_opcode_width = ℤ.pos 0;
  instruction_length = ℤ.pos 0;
  machine_type = ℤ.pos 0;
  internal_datapath_width = ℤ.pos 0;
  number_hardware_threads = ℤ.pos 0;
  fetch_width = ℤ.pos 0;
  number_instruction_fetch_ports = ℤ.pos 0;
  decode_width = ℤ.pos 0;
  issue_width = ℤ.pos 0;
  peak_issue_width = ℤ.pos 0;
  commit_width = ℤ.pos 0;
  pipelines_per_core = λ j. ℤ.pos 0;
  pipeline_depth = λ j. ℤ.pos 0;
  fpu = "";
  divider_multiplier = "";
  alu_per_core = ℤ.pos 0;
  fpu_per_core = 0;
  mul_per_core = ℤ.pos 0;
  instruction_buffer_size = ℤ.pos 0;
  decoded_stream_buffer_size = ℤ.pos 0;
  instruction_window_scheme = ℤ.pos 0;
  instruction_window_size = ℤ.pos 0;
  fp_instruction_window_size = ℤ.pos 0;
  rob_size = ℤ.pos 0;
  archi_regs_irf_size = ℤ.pos 0;
  archi_regs_frf_size = ℤ.pos 0;
  phy_regs_irf_size = ℤ.pos 0;
  phy_regs_frf_size = ℤ.pos 0;
  rename_scheme = ℤ.pos 0;
  register_windows_size = ℤ.pos 0;
  lsu_order = "";
  store_buffer_size = ℤ.pos 0;
  load_buffer_size = ℤ.pos 0;
  memory_ports = ℤ.pos 0;
  dcache_dual_pump = "";
  ras_size = ℤ.pos 0;
  fp_issue_width = ℤ.pos 0;
  prediction_width = ℤ.pos 0;
  number_of_btb = ℤ.pos 0;
  number_of_bpt = ℤ.pos 0;
  total_instructions = 0;
  int_instructions = 0;
  fp_instructions = 0;
  branch_instructions = 0;
  branch_mispredictions = 0;
  committed_instructions = 0;
  committed_int_instructions = 0;
  committed_fp_instructions = 0;
  load_instructions = 0;
  store_instructions = 0;
  total_cycles = 0;
  idle_cycles = 0;
  busy_cycles = 0;
  instruction_buffer_reads = 0;
  instruction_buffer_write = 0;
  rob_reads = 0;
  rob_writes = 0;
  rename_accesses = 0;
  fp_rename_accesses = 0;
  rename_reads = 0;
  rename_writes = 0;
  fp_rename_reads = 0;
  fp_rename_writes = 0;
  inst_window_reads = 0;
  inst_window_writes = 0;
  inst_window_wakeup_accesses = 0;
  inst_window_selections = 0;
  fp_inst_window_reads = 0;
  fp_inst_window_writes = 0;
  fp_inst_window_wakeup_accesses = 0;
  fp_inst_window_selections = 0;
  archi_int_regfile_reads = 0;
  archi_float_regfile_reads = 0;
  phy_int_regfile_reads = 0;
  phy_float_regfile_reads = 0;
  phy_int_regfile_writes = 0;
  phy_float_regfile_writes = 0;
  archi_int_regfile_writes = 0;
  archi_float_regfile_writes = 0;
  int_regfile_reads = 0;
  float_regfile_reads = 0;
  int_regfile_writes = 0;
  float_regfile_writes = 0;
  windowed_reg_accesses = 0;
  windowed_reg_transports = 0;
  function_calls = 0;
  context_switches = 0;
  ialu_accesses = 0;
  fpu_accesses = 0;
  mul_accesses = 0;
  cdb_alu_accesses = 0;
  cdb_mul_accesses = 0;
  cdb_fpu_accesses = 0;
  load_buffer_reads = 0;
  load_buffer_writes = 0;
  load_buffer_cams = 0;
  store_buffer_reads = 0;
  store_buffer_writes = 0;
  store_buffer_cams = 0;
  store_buffer_forwards = 0;
  main_memory_access = 0;
  main_memory_read = 0;
  main_memory_write = 0;
  pipeline_duty_cycle = 0;
  ifu_duty_cycle = 0;
  br_duty_cycle = 0;
  lsu_duty_cycle = 0;
  memmanu_i_duty_cycle = 0;
  memmanu_d_duty_cycle = 0;
  alu_duty_cycle = 0;
  mul_duty_cycle = 0;
  fpu_duty_cycle = 0;
  alu_cdb_duty_cycle = 0;
  mul_cdb_duty_cycle = 0;
  fpu_cdb_duty_cycle = 0;
  vdd = 0;
  power_gating_vcc = 0;
  predictor = zero_predictor_systemcore;
  itlb = zero_itlb_systemcore;
  icache = zero_icache_systemcore;
  dtlb = zero_dtlb_systemcore;
  dcache = zero_dcache_systemcore;
  btb = zero_btb_systemcore;
}
