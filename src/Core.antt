-- ===== src/Core.antt =====
-- class Core (fast_mcpat/core.h): what a core reads of the parsed description (system_core of
-- fast_mcpat/XML_Parse.h) and the parameters it makes of it. Sizes are not negative.
pub mod Param
pub mod Registers
mod Tests
use wattwatcher.Prelude.{ℕ, Bool}
use wattwatcher.Power.{Pppm}
use wattwatcher.Basic.{CoreType}
use wattwatcher.Cacti.{InputParameter}

pub data RenamingType : Type 0 where
  ram_based cam_based : RenamingType

pub data SchedulerType : Type 0 where
  physical_reg_file reservation_station : SchedulerType

-- The fields of system_core that the core reads.
pub record CoreSystem (F : Type 0) : Type 0 where
  pub clock_rate : F
  pub opt_local : Bool
  pub x86 : Bool
  pub opcode_width : ℕ
  pub micro_opcode_width : ℕ
  pub instruction_length : ℕ
  pub machine_type : ℕ
  pub number_hardware_threads : ℕ
  pub fetch_width : ℕ
  pub decode_width : ℕ
  pub issue_width : ℕ
  pub peak_issue_width : ℕ
  pub commit_width : ℕ
  pub pipelines_per_core : ℕ → ℕ
  pub pipeline_depth : ℕ → ℕ
  pub alu_per_core : ℕ
  pub fpu_per_core : F
  pub mul_per_core : ℕ
  pub instruction_window_scheme : ℕ
  pub rob_size : ℕ
  pub archi_regs_irf_size : ℕ
  pub archi_regs_frf_size : ℕ
  pub phy_regs_irf_size : ℕ
  pub phy_regs_frf_size : ℕ
  pub rename_scheme : ℕ
  pub register_windows_size : ℕ
  pub fp_issue_width : ℕ
  pub prediction_width : ℕ
  pub total_cycles : F
  pub idle_cycles : F
  pub busy_cycles : F
  pub pipeline_duty_cycle : F
  pub ifu_duty_cycle : F
  pub br_duty_cycle : F
  pub lsu_duty_cycle : F
  pub mem_man_u_i_duty_cycle : F
  pub mem_man_u_d_duty_cycle : F
  pub alu_duty_cycle : F
  pub mul_duty_cycle : F
  pub fpu_duty_cycle : F
  pub alu_cdb_duty_cycle : F
  pub mul_cdb_duty_cycle : F
  pub fpu_cdb_duty_cycle : F
  pub vdd : F
  pub power_gating_vcc : F

-- The fields of root_system that the core reads.
pub record Machine : Type 0 where
  pub embedded : Bool
  pub machine_bits : ℕ
  pub virtual_address_width : ℕ
  pub physical_address_width : ℕ

pub record CoreDynParam (F : Type 0) : Type 0 where
  pub opt_local : Bool
  pub x86 : Bool
  pub embedded : Bool
  pub core_ty : CoreType
  pub rm_ty : RenamingType
  pub scheu_ty : SchedulerType
  pub clock_rate : F
  pub execution_time : F
  pub arch_ireg_width : ℕ
  pub arch_freg_width : ℕ
  pub phy_ireg_width : ℕ
  pub phy_freg_width : ℕ
  pub num_irf_entry : ℕ
  pub num_frf_entry : ℕ
  pub num_ifreelist_entries : ℕ
  pub num_ffreelist_entries : ℕ
  pub fetch_w : ℕ
  pub decode_w : ℕ
  pub issue_w : ℕ
  pub peak_issue_w : ℕ
  pub commit_w : ℕ
  pub peak_commit_w : ℕ
  pub prediction_w : ℕ
  pub fp_issue_w : ℕ
  pub fp_decode_w : ℕ
  pub per_thread_state : ℕ
  pub global_checkpoint : ℕ
  pub instruction_length : ℕ
  pub pc_width : ℕ
  pub opcode_length : ℕ
  pub micro_opcode_length : ℕ
  pub num_hthreads : ℕ
  pub pipeline_stages : ℕ
  pub fp_pipeline_stages : ℕ
  pub num_pipelines : ℕ
  pub num_fp_pipelines : ℕ
  pub num_alus : ℕ
  pub num_muls : ℕ
  pub num_fpus : F
  pub int_data_width : ℕ
  pub fp_data_width : ℕ
  pub v_address_width : ℕ
  pub p_address_width : ℕ
  pub pipeline_duty_cycle : F
  pub total_cycles : F
  pub busy_cycles : F
  pub idle_cycles : F
  pub reg_windowing : Bool
  pub multithreaded : Bool
  pub pppm_lkg_multhread : Pppm F
  pub ifu_duty_cycle : F
  pub br_duty_cycle : F
  pub lsu_duty_cycle : F
  pub mem_man_u_i_duty_cycle : F
  pub mem_man_u_d_duty_cycle : F
  pub alu_duty_cycle : F
  pub mul_duty_cycle : F
  pub fpu_duty_cycle : F
  pub alu_cdb_duty_cycle : F
  pub mul_cdb_duty_cycle : F
  pub fpu_cdb_duty_cycle : F
  pub vdd : F
  pub power_gating_vcc : F

-- The two members of a Core that set_core_param changes.
pub record Core (F : Type 0) : Type 0 where
  pub coredynp : CoreDynParam F
  pub interface_ip : InputParameter F
