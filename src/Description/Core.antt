-- ===== src/Description/Core.antt =====
-- system_core of fast_mcpat/XML_Parse.h.
use wattwatcher.Prelude.{ℕ, Bool, String}
use wattwatcher.Text.{ℤ}
use wattwatcher.Description.Predictor.{PredictorSystemcore}
use wattwatcher.Description.Itlb.{ItlbSystemcore}
use wattwatcher.Description.Icache.{IcacheSystemcore}
use wattwatcher.Description.Dtlb.{DtlbSystemcore}
use wattwatcher.Description.Dcache.{DcacheSystemcore}
use wattwatcher.Description.Btb.{BtbSystemcore}

pub record SystemCore (F : Type 0) : Type 0 where
  pub clock_rate : ℤ
  pub opt_local : Bool
  pub x86 : Bool
  pub machine_bits : ℤ
  pub virtual_address_width : ℤ
  pub physical_address_width : ℤ
  pub opcode_width : ℤ
  pub micro_opcode_width : ℤ
  pub instruction_length : ℤ
  pub machine_type : ℤ
  pub internal_datapath_width : ℤ
  pub number_hardware_threads : ℤ
  pub fetch_width : ℤ
  pub number_instruction_fetch_ports : ℤ
  pub decode_width : ℤ
  pub issue_width : ℤ
  pub peak_issue_width : ℤ
  pub commit_width : ℤ
  pub pipelines_per_core : ℕ → ℤ
  pub pipeline_depth : ℕ → ℤ
  pub fpu : String
  pub divider_multiplier : String
  pub alu_per_core : ℤ
  pub fpu_per_core : F
  pub mul_per_core : ℤ
  pub instruction_buffer_size : ℤ
  pub decoded_stream_buffer_size : ℤ
  pub instruction_window_scheme : ℤ
  pub instruction_window_size : ℤ
  pub fp_instruction_window_size : ℤ
  pub rob_size : ℤ
  pub archi_regs_irf_size : ℤ
  pub archi_regs_frf_size : ℤ
  pub phy_regs_irf_size : ℤ
  pub phy_regs_frf_size : ℤ
  pub rename_scheme : ℤ
  pub register_windows_size : ℤ
  pub lsu_order : String
  pub store_buffer_size : ℤ
  pub load_buffer_size : ℤ
  pub memory_ports : ℤ
  pub dcache_dual_pump : String
  pub ras_size : ℤ
  pub fp_issue_width : ℤ
  pub prediction_width : ℤ
  pub number_of_btb : ℤ
  pub number_of_bpt : ℤ
  pub total_instructions : F
  pub int_instructions : F
  pub fp_instructions : F
  pub branch_instructions : F
  pub branch_mispredictions : F
  pub committed_instructions : F
  pub committed_int_instructions : F
  pub committed_fp_instructions : F
  pub load_instructions : F
  pub store_instructions : F
  pub total_cycles : F
  pub idle_cycles : F
  pub busy_cycles : F
  pub instruction_buffer_reads : F
  pub instruction_buffer_write : F
  pub rob_reads : F
  pub rob_writes : F
  pub rename_accesses : F
  pub fp_rename_accesses : F
  pub rename_reads : F
  pub rename_writes : F
  pub fp_rename_reads : F
  pub fp_rename_writes : F
  pub inst_window_reads : F
  pub inst_window_writes : F
  pub inst_window_wakeup_accesses : F
  pub inst_window_selections : F
  pub fp_inst_window_reads : F
  pub fp_inst_window_writes : F
  pub fp_inst_window_wakeup_accesses : F
  pub fp_inst_window_selections : F
  pub archi_int_regfile_reads : F
  pub archi_float_regfile_reads : F
  pub phy_int_regfile_reads : F
  pub phy_float_regfile_reads : F
  pub phy_int_regfile_writes : F
  pub phy_float_regfile_writes : F
  pub archi_int_regfile_writes : F
  pub archi_float_regfile_writes : F
  pub int_regfile_reads : F
  pub float_regfile_reads : F
  pub int_regfile_writes : F
  pub float_regfile_writes : F
  pub windowed_reg_accesses : F
  pub windowed_reg_transports : F
  pub function_calls : F
  pub context_switches : F
  pub ialu_accesses : F
  pub fpu_accesses : F
  pub mul_accesses : F
  pub cdb_alu_accesses : F
  pub cdb_mul_accesses : F
  pub cdb_fpu_accesses : F
  pub load_buffer_reads : F
  pub load_buffer_writes : F
  pub load_buffer_cams : F
  pub store_buffer_reads : F
  pub store_buffer_writes : F
  pub store_buffer_cams : F
  pub store_buffer_forwards : F
  pub main_memory_access : F
  pub main_memory_read : F
  pub main_memory_write : F
  pub pipeline_duty_cycle : F
  pub ifu_duty_cycle : F
  pub br_duty_cycle : F
  pub lsu_duty_cycle : F
  pub memmanu_i_duty_cycle : F
  pub memmanu_d_duty_cycle : F
  pub alu_duty_cycle : F
  pub mul_duty_cycle : F
  pub fpu_duty_cycle : F
  pub alu_cdb_duty_cycle : F
  pub mul_cdb_duty_cycle : F
  pub fpu_cdb_duty_cycle : F
  pub vdd : F
  pub power_gating_vcc : F
  pub predictor : PredictorSystemcore F
  pub itlb : ItlbSystemcore F
  pub icache : IcacheSystemcore F
  pub dtlb : DtlbSystemcore F
  pub dcache : DcacheSystemcore F
  pub btb : BtbSystemcore F
