-- ===== src/Core/Tests.antt =====
-- An out-of-order core with 100 physical and 16 architectural registers.
use wattwatcher.Prelude.{
  ℕ, suc, zero, ◌≤◌, ltb, ◌&&◌, Ensures, ◌>>=◌, ◌+◌, ◌*◌, ◌≡◌, refl, false, some, none, arith,
  is_some,
}
use Prim.Native.Nat.{◌^◌}
use native.Mathlib.Numerals.{unary_clauses}
use wattwatcher.Double.{nat_double}
use wattwatcher.Power.{set_pppm}
use wattwatcher.Basic.{CoreType}
use wattwatcher.Core.{RenamingType, SchedulerType, CoreSystem, Machine, Core}
use wattwatcher.Core.Param.{set_core_param}
use wattwatcher.Core.Registers.{IsTagged, set_core_param-is_some, set_core_param-IsTagged}
use wattwatcher.Samples.{blank_input}

abbrev machine : Machine
machine = record {
  embedded = false;
  machine_bits = 64;
  virtual_address_width = 64;
  physical_address_width = 52;
}

abbrev entry : CoreSystem ℕ
entry = record {
  clock_rate = 1;
  opt_local = false;
  x86 = false;
  opcode_width = 3;
  micro_opcode_width = 3;
  instruction_length = 3;
  machine_type = 0;
  number_hardware_threads = 3;
  fetch_width = 3;
  decode_width = 3;
  issue_width = 3;
  peak_issue_width = 3;
  commit_width = 3;
  pipelines_per_core = λ j. j + 1;
  pipeline_depth = λ j. j + 1;
  alu_per_core = 3;
  fpu_per_core = 1;
  mul_per_core = 3;
  instruction_window_scheme = 0;
  rob_size = 80;
  archi_regs_irf_size = 16;
  archi_regs_frf_size = 32;
  phy_regs_irf_size = 100;
  phy_regs_frf_size = 90;
  rename_scheme = 1;
  register_windows_size = 3;
  fp_issue_width = 3;
  prediction_width = 3;
  total_cycles = 1;
  idle_cycles = 1;
  busy_cycles = 1;
  pipeline_duty_cycle = 1;
  ifu_duty_cycle = 1;
  br_duty_cycle = 1;
  lsu_duty_cycle = 1;
  mem_man_u_i_duty_cycle = 1;
  mem_man_u_d_duty_cycle = 1;
  alu_duty_cycle = 1;
  mul_duty_cycle = 1;
  fpu_duty_cycle = 1;
  alu_cdb_duty_cycle = 1;
  mul_cdb_duty_cycle = 1;
  fpu_cdb_duty_cycle = 1;
  vdd = 1;
  power_gating_vcc = 1;
}

abbrev core : Core ℕ
core = record {
  coredynp = record {
    opt_local = false;
    x86 = false;
    embedded = false;
    core_ty = CoreType.ooo;
    rm_ty = RenamingType.ram_based;
    scheu_ty = SchedulerType.physical_reg_file;
    clock_rate = 1;
    execution_time = 1;
    arch_ireg_width = 3;
    arch_freg_width = 3;
    phy_ireg_width = 3;
    phy_freg_width = 3;
    num_irf_entry = 3;
    num_frf_entry = 3;
    num_ifreelist_entries = 3;
    num_ffreelist_entries = 3;
    fetch_w = 3;
    decode_w = 3;
    issue_w = 3;
    peak_issue_w = 3;
    commit_w = 3;
    peak_commit_w = 3;
    prediction_w = 3;
    fp_issue_w = 3;
    fp_decode_w = 3;
    per_thread_state = 3;
    global_checkpoint = 3;
    instruction_length = 3;
    pc_width = 3;
    opcode_length = 3;
    micro_opcode_length = 3;
    num_hthreads = 3;
    pipeline_stages = 3;
    fp_pipeline_stages = 3;
    num_pipelines = 3;
    num_fp_pipelines = 3;
    num_alus = 3;
    num_muls = 3;
    num_fpus = 1;
    int_data_width = 3;
    fp_data_width = 3;
    v_address_width = 3;
    p_address_width = 3;
    pipeline_duty_cycle = 1;
    total_cycles = 1;
    busy_cycles = 1;
    idle_cycles = 1;
    reg_windowing = false;
    multithreaded = false;
    pppm_lkg_multhread = set_pppm 0 0 0 0;
    ifu_duty_cycle = 1;
    br_duty_cycle = 1;
    lsu_duty_cycle = 1;
    mem_man_u_i_duty_cycle = 1;
    mem_man_u_d_duty_cycle = 1;
    alu_duty_cycle = 1;
    mul_duty_cycle = 1;
    fpu_duty_cycle = 1;
    alu_cdb_duty_cycle = 1;
    mul_cdb_duty_cycle = 1;
    fpu_cdb_duty_cycle = 1;
    vdd = 1;
    power_gating_vcc = 1;
  };
  interface_ip = blank_input;
}

-- The logarithm of these numbers is the number itself, which is more than enough.
lt-pow : (n : ℕ) → suc n ≤ 2 ^ n
lt-pow zero = omega arith
lt-pow (suc n) = simp unary_clauses (omega (arith, lt-pow n))

le-pow : (n : ℕ) → n ≤ 2 ^ n
le-pow n = omega (arith, lt-pow n)

set_core_param-is_some_example :
    is_some (set_core_param machine (record entry { rename_scheme = 2 }) core)
    ≡ (ltb 0 2 && (ltb 0 2 && ltb 2 2))
set_core_param-is_some_example =
    set_core_param-is_some machine (record entry { rename_scheme = 2 }) core

set_core_param-IsTagged_example : Ensures IsTagged (set_core_param machine entry core)
set_core_param-IsTagged_example = set_core_param-IsTagged le-pow machine entry core

-- The free list and the register file have the 100 physical registers.
physical_registers :
    (set_core_param machine entry core >>= λ c. some c.coredynp.num_irf_entry) ≡ some 100
unfolding set_core_param
physical_registers = refl

-- With reservation stations the register file is the architecture's, and the free list is as long as
-- the reorder buffer.
reorder_buffer :
    (set_core_param machine (record entry { instruction_window_scheme = 1 }) core >>= λ c.
    some (c.coredynp.num_irf_entry + 1000 * c.coredynp.num_ifreelist_entries))
    ≡ some 80_016
unfolding set_core_param
reorder_buffer = refl

refused : set_core_param machine (record entry { rename_scheme = 2 }) core ≡ none
unfolding set_core_param
refused = refl
