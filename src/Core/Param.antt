-- ===== src/Core/Param.antt =====
-- Core::set_core_param (fast_mcpat/core.cc): `none` is a type of core, scheduler or renaming that the
-- program refuses. int(ceil(log2(n))) of n = 0 has no meaning in C++.
use wattwatcher.Prelude.{zero, suc, ℕ, ◌*◌, Bool, true, false, ◌&&◌, Option, none, some, ltb, ◌>>=◌}
use wattwatcher.Double.{Double, ◌⊗◌, ◌⊘◌}
use wattwatcher.Power.{set_pppm}
use wattwatcher.Basic.{CoreType}
use wattwatcher.Cacti.{with_voltages}
use wattwatcher.Core.{RenamingType, SchedulerType, CoreSystem, Machine, CoreDynParam, Core}

-- The casts of an int, with the refusal of values that the enumeration does not name.
abbrev pub to_core_type : ℕ → Option CoreType
to_core_type zero = some CoreType.ooo
to_core_type (suc zero) = some CoreType.inorder
to_core_type (suc (suc n)) = none

abbrev pub to_scheduler_type : ℕ → Option SchedulerType
to_scheduler_type zero = some SchedulerType.physical_reg_file
to_scheduler_type (suc zero) = some SchedulerType.reservation_station
to_scheduler_type (suc (suc n)) = none

abbrev pub to_renaming_type : ℕ → Option RenamingType
to_renaming_type zero = some RenamingType.ram_based
to_renaming_type (suc zero) = some RenamingType.cam_based
to_renaming_type (suc (suc n)) = none

abbrev is_inorder : CoreType → Bool
is_inorder CoreType.ooo = false
is_inorder CoreType.inorder = true

-- int(ceil(log2(n)))
abbrev pub width_of : {F : Type 0} → Double F → ℕ → ℕ
width_of d n = d.ceil (d.log2 (d.nat n))

module _ {F : Type 0} ⦃d : Double F⦄ where
  -- The settings before the types are tested.
  abbrev core_sizes :
      Machine
      → CoreSystem F
      → CoreType
      → SchedulerType
      → RenamingType
      → CoreDynParam F
      → CoreDynParam F
  core_sizes sys e core_ty scheu_ty rm_ty p =
      let data_width = d.ceil (d.nat sys.machine_bits ⊘ d.lit 320 1) * 32 in
      record p {
        opt_local = e.opt_local;
        x86 = e.x86;
        embedded = sys.embedded;
        core_ty = core_ty;
        rm_ty = rm_ty;
        fetch_w = e.fetch_width;
        decode_w = e.decode_width;
        issue_w = e.issue_width;
        peak_issue_w = e.peak_issue_width;
        commit_w = e.commit_width;
        peak_commit_w = e.peak_issue_width;
        prediction_w = e.prediction_width;
        fp_issue_w = e.fp_issue_width;
        fp_decode_w = e.fp_issue_width;
        num_alus = e.alu_per_core;
        num_fpus = e.fpu_per_core;
        num_muls = e.mul_per_core;
        vdd = e.vdd;
        power_gating_vcc = e.power_gating_vcc;
        num_hthreads = e.number_hardware_threads;
        multithreaded = ltb 1 e.number_hardware_threads;
        instruction_length = e.instruction_length;
        pc_width = sys.virtual_address_width;
        opcode_length = e.opcode_width;
        micro_opcode_length = e.micro_opcode_width;
        num_pipelines = e.pipelines_per_core 0;
        pipeline_stages = e.pipeline_depth 0;
        num_fp_pipelines = e.pipelines_per_core 1;
        fp_pipeline_stages = e.pipeline_depth 1;
        int_data_width = data_width;
        fp_data_width = data_width;
        v_address_width = sys.virtual_address_width;
        p_address_width = sys.physical_address_width;
        scheu_ty = scheu_ty;
        arch_ireg_width = width_of d e.archi_regs_irf_size;
        arch_freg_width = width_of d e.archi_regs_frf_size;
        num_irf_entry = e.archi_regs_irf_size;
        num_frf_entry = e.archi_regs_frf_size;
        pipeline_duty_cycle = e.pipeline_duty_cycle;
        total_cycles = e.total_cycles;
        busy_cycles = e.busy_cycles;
        idle_cycles = e.idle_cycles;
        ifu_duty_cycle = e.ifu_duty_cycle;
        br_duty_cycle = e.br_duty_cycle;
        lsu_duty_cycle = e.lsu_duty_cycle;
        mem_man_u_i_duty_cycle = e.mem_man_u_i_duty_cycle;
        mem_man_u_d_duty_cycle = e.mem_man_u_d_duty_cycle;
        alu_duty_cycle = e.alu_duty_cycle;
        mul_duty_cycle = e.mul_duty_cycle;
        fpu_duty_cycle = e.fpu_duty_cycle;
        alu_cdb_duty_cycle = e.alu_cdb_duty_cycle;
        mul_cdb_duty_cycle = e.mul_cdb_duty_cycle;
        fpu_cdb_duty_cycle = e.fpu_cdb_duty_cycle;
      }

  -- The reorder buffer serves as the physical registers where there are reservation stations; an
  -- in-order core keeps what the object held.
  abbrev pub rename_registers :
      CoreSystem F → CoreType → SchedulerType → CoreDynParam F → CoreDynParam F
  rename_registers e CoreType.inorder scheu_ty p = p
  rename_registers e CoreType.ooo SchedulerType.physical_reg_file p = record p {
    phy_ireg_width = width_of d e.phy_regs_irf_size;
    phy_freg_width = width_of d e.phy_regs_frf_size;
    num_ifreelist_entries = e.phy_regs_irf_size;
    num_irf_entry = e.phy_regs_irf_size;
    num_ffreelist_entries = e.phy_regs_frf_size;
    num_frf_entry = e.phy_regs_frf_size;
  }
  rename_registers e CoreType.ooo SchedulerType.reservation_station p = record p {
    phy_ireg_width = width_of d e.rob_size;
    phy_freg_width = width_of d e.rob_size;
    num_ifreelist_entries = e.rob_size;
    num_ffreelist_entries = e.rob_size;
  }

  -- The settings after the types are tested.
  abbrev core_clock : CoreSystem F → CoreDynParam F → CoreDynParam F
  core_clock e p =
      let clock = e.clock_rate ⊗ d.nat 1_000_000 in
      record p {
        global_checkpoint = 8;
        per_thread_state = 8;
        instruction_length = 32;
        clock_rate = clock;
        reg_windowing = ltb 0 e.register_windows_size && is_inorder p.core_ty;
        execution_time = p.total_cycles ⊘ clock;
        pppm_lkg_multhread =
            set_pppm (d.nat 0) (d.nat p.num_hthreads) (d.nat p.num_hthreads) (d.nat 0);
      }

  abbrev pub settle :
      Machine → CoreSystem F → Core F → CoreType → SchedulerType → RenamingType → Core F
  settle sys e c core_ty scheu_ty rm_ty =
      let sizes = core_sizes sys e core_ty scheu_ty rm_ty c.coredynp in
      record {
        coredynp = core_clock e (rename_registers e core_ty scheu_ty sizes);
        interface_ip = with_voltages e.vdd e.power_gating_vcc c.interface_ip;
      }

  unfoldable pub set_core_param : Machine → CoreSystem F → Core F → Option (Core F)
  set_core_param sys e c = to_core_type e.machine_type >>= λ core_ty.
      to_scheduler_type e.instruction_window_scheme >>= λ scheu_ty.
      to_renaming_type e.rename_scheme >>= λ rm_ty. some (settle sys e c core_ty scheu_ty rm_ty)
