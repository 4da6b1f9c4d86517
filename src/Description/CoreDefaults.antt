-- ===== src/Description/CoreDefaults.antt =====
-- The values of a core that ParseXML::initialize (fast_mcpat/XML_Parse.cc) sets.
use wattwatcher.Prelude.{true, false}
use wattwatcher.Double.{Double}
use wattwatcher.Text.{ℤ}
use wattwatcher.Description.Core.{SystemCore}
use wattwatcher.Description.Predictor.{initialize_predictor}
use wattwatcher.Description.Itlb.{initialize_itlb}
use wattwatcher.Description.Icache.{initialize_icache}
use wattwatcher.Description.Dtlb.{initialize_dtlb}
use wattwatcher.Description.Dcache.{initialize_dcache}
use wattwatcher.Description.Btb.{initialize_btb}

module _ {F : Type 0} ⦃d : Double F⦄ where
  unfoldable pub initialize_core : SystemCore F → SystemCore F
  initialize_core r = record r {
    vdd = d.nat 0;
    power_gating_vcc = d.neg (d.nat 1);
    clock_rate = ℤ.pos 1;
    opt_local = true;
    x86 = false;
    machine_bits = ℤ.pos 1;
    virtual_address_width = ℤ.pos 1;
    physical_address_width = ℤ.pos 1;
    opcode_width = ℤ.pos 1;
    micro_opcode_width = ℤ.pos 1;
    internal_datapath_width = ℤ.pos 1;
    number_hardware_threads = ℤ.pos 1;
    fetch_width = ℤ.pos 1;
    number_instruction_fetch_ports = ℤ.pos 1;
    decode_width = ℤ.pos 1;
    issue_width = ℤ.pos 1;
    peak_issue_width = ℤ.pos 1;
    commit_width = ℤ.pos 1;
    pipelines_per_core = λ j. ℤ.pos 1;
    pipeline_depth = λ j. ℤ.pos 1;
    fpu = "default";
    divider_multiplier = "default";
    alu_per_core = ℤ.pos 1;
    fpu_per_core = d.nat 1;
    mul_per_core = ℤ.pos 1;
    instruction_buffer_size = ℤ.pos 1;
    decoded_stream_buffer_size = ℤ.pos 1;
    instruction_window_size = ℤ.pos 1;
    rob_size = ℤ.pos 1;
    archi_regs_irf_size = ℤ.pos 1;
    archi_regs_frf_size = ℤ.pos 1;
    phy_regs_irf_size = ℤ.pos 1;
    phy_regs_frf_size = ℤ.pos 1;
    register_windows_size = ℤ.pos 1;
    lsu_order = "default";
    store_buffer_size = ℤ.pos 1;
    load_buffer_size = ℤ.pos 1;
    memory_ports = ℤ.pos 1;
    dcache_dual_pump = "default";
    ras_size = ℤ.pos 1;
    total_instructions = d.nat 1;
    int_instructions = d.nat 1;
    fp_instructions = d.nat 1;
    branch_instructions = d.nat 1;
    branch_mispredictions = d.nat 1;
    committed_instructions = d.nat 1;
    load_instructions = d.nat 1;
    store_instructions = d.nat 1;
    total_cycles = d.nat 1;
    idle_cycles = d.nat 1;
    busy_cycles = d.nat 1;
    instruction_buffer_reads = d.nat 1;
    instruction_buffer_write = d.nat 1;
    rob_reads = d.nat 1;
    rob_writes = d.nat 1;
    rename_accesses = d.nat 1;
    inst_window_reads = d.nat 1;
    inst_window_writes = d.nat 1;
    inst_window_wakeup_accesses = d.nat 1;
    inst_window_selections = d.nat 1;
    archi_int_regfile_reads = d.nat 1;
    archi_float_regfile_reads = d.nat 1;
    phy_int_regfile_reads = d.nat 1;
    phy_float_regfile_reads = d.nat 1;
    windowed_reg_accesses = d.nat 1;
    windowed_reg_transports = d.nat 1;
    function_calls = d.nat 1;
    ialu_accesses = d.nat 1;
    fpu_accesses = d.nat 1;
    mul_accesses = d.nat 1;
    cdb_alu_accesses = d.nat 1;
    cdb_mul_accesses = d.nat 1;
    cdb_fpu_accesses = d.nat 1;
    load_buffer_reads = d.nat 1;
    load_buffer_writes = d.nat 1;
    load_buffer_cams = d.nat 1;
    store_buffer_reads = d.nat 1;
    store_buffer_writes = d.nat 1;
    store_buffer_cams = d.nat 1;
    store_buffer_forwards = d.nat 1;
    main_memory_access = d.nat 1;
    main_memory_read = d.nat 1;
    main_memory_write = d.nat 1;
    ifu_duty_cycle = d.nat 1;
    br_duty_cycle = d.nat 1;
    lsu_duty_cycle = d.nat 1;
    memmanu_i_duty_cycle = d.nat 1;
    memmanu_d_duty_cycle = d.nat 1;
    alu_duty_cycle = d.nat 1;
    mul_duty_cycle = d.nat 1;
    fpu_duty_cycle = d.nat 1;
    alu_cdb_duty_cycle = d.nat 1;
    mul_cdb_duty_cycle = d.nat 1;
    fpu_cdb_duty_cycle = d.nat 1;
    predictor = initialize_predictor r.predictor;
    itlb = initialize_itlb r.itlb;
    icache = initialize_icache r.icache;
    dtlb = initialize_dtlb r.dtlb;
    dcache = initialize_dcache r.dcache;
    btb = initialize_btb r.btb;
  }
