-- ===== src/Description/CoreStats.antt =====
-- The stats of a core that ParseXML::parse (fast_mcpat/XML_Parse.cc) reads.
use wattwatcher.Prelude.{List, [], ◌∷◌}
use wattwatcher.Double.{Double}
use wattwatcher.Description.{Entry, int, double, of_int}
use wattwatcher.Description.Core.{SystemCore}

module _ {F : Type 0} ⦃d : Double F⦄ where
  unfoldable pub core_stats : List (Entry F (SystemCore F))
  core_stats =
      double "total_instructions" (λ v r. record r { total_instructions = v })
      ∷ double "int_instructions" (λ v r. record r { int_instructions = v })
      ∷ double "fp_instructions" (λ v r. record r { fp_instructions = v })
      ∷ double "branch_instructions" (λ v r. record r { branch_instructions = v })
      ∷ double "branch_mispredictions" (λ v r. record r { branch_mispredictions = v })
      ∷ double "committed_instructions" (λ v r. record r { committed_instructions = v })
      ∷ double "committed_int_instructions" (λ v r. record r { committed_int_instructions = v })
      ∷ double "committed_fp_instructions" (λ v r. record r { committed_fp_instructions = v })
      ∷ double "load_instructions" (λ v r. record r { load_instructions = v })
      ∷ double "store_instructions" (λ v r. record r { store_instructions = v })
      ∷ double "total_cycles" (λ v r. record r { total_cycles = v })
      ∷ double "idle_cycles" (λ v r. record r { idle_cycles = v })
      ∷ double "busy_cycles" (λ v r. record r { busy_cycles = v })
      ∷ double "instruction_buffer_reads" (λ v r. record r { instruction_buffer_reads = v })
      ∷ double "instruction_buffer_write" (λ v r. record r { instruction_buffer_write = v })
      ∷ double "ROB_reads" (λ v r. record r { rob_reads = v })
      ∷ double "ROB_writes" (λ v r. record r { rob_writes = v })
      ∷ double "rename_reads" (λ v r. record r { rename_reads = v })
      ∷ double "rename_writes" (λ v r. record r { rename_writes = v })
      ∷ double "fp_rename_reads" (λ v r. record r { fp_rename_reads = v })
      ∷ double "fp_rename_writes" (λ v r. record r { fp_rename_writes = v })
      ∷ double "inst_window_reads" (λ v r. record r { inst_window_reads = v })
      ∷ double "inst_window_writes" (λ v r. record r { inst_window_writes = v })
      ∷ double "inst_window_wakeup_accesses" (λ v r. record r { inst_window_wakeup_accesses = v })
      ∷ double "inst_window_selections" (λ v r. record r { inst_window_selections = v })
      ∷ double "fp_inst_window_reads" (λ v r. record r { fp_inst_window_reads = v })
      ∷ double "fp_inst_window_writes" (λ v r. record r { fp_inst_window_writes = v })
      ∷ double "fp_inst_window_wakeup_accesses"
          (λ v r. record r { fp_inst_window_wakeup_accesses = v })
      ∷ double "archi_int_regfile_reads" (λ v r. record r { archi_int_regfile_reads = v })
      ∷ double "archi_float_regfile_reads" (λ v r. record r { archi_float_regfile_reads = v })
      ∷ double "phy_int_regfile_reads" (λ v r. record r { phy_int_regfile_reads = v })
      ∷ double "phy_float_regfile_reads" (λ v r. record r { phy_float_regfile_reads = v })
      ∷ double "phy_int_regfile_writes" (λ v r. record r { archi_int_regfile_writes = v })
      ∷ double "phy_float_regfile_writes" (λ v r. record r { archi_float_regfile_writes = v })
      ∷ double "archi_int_regfile_writes" (λ v r. record r { phy_int_regfile_writes = v })
      ∷ double "archi_float_regfile_writes" (λ v r. record r { phy_float_regfile_writes = v })
      ∷ double "int_regfile_reads" (λ v r. record r { int_regfile_reads = v })
      ∷ double "float_regfile_reads" (λ v r. record r { float_regfile_reads = v })
      ∷ double "int_regfile_writes" (λ v r. record r { int_regfile_writes = v })
      ∷ double "float_regfile_writes" (λ v r. record r { float_regfile_writes = v })
      ∷ double "windowed_reg_accesses" (λ v r. record r { windowed_reg_accesses = v })
      ∷ double "windowed_reg_transports" (λ v r. record r { windowed_reg_transports = v })
      ∷ double "function_calls" (λ v r. record r { function_calls = v })
      ∷ double "context_switches" (λ v r. record r { context_switches = v })
      ∷ double "ialu_accesses" (λ v r. record r { ialu_accesses = v })
      ∷ double "fpu_accesses" (λ v r. record r { fpu_accesses = v })
      ∷ double "mul_accesses" (λ v r. record r { mul_accesses = v })
      ∷ double "cdb_alu_accesses" (λ v r. record r { cdb_alu_accesses = v })
      ∷ double "cdb_mul_accesses" (λ v r. record r { cdb_mul_accesses = v })
      ∷ double "cdb_fpu_accesses" (λ v r. record r { cdb_fpu_accesses = v })
      ∷ double "load_buffer_reads" (λ v r. record r { load_buffer_reads = v })
      ∷ double "load_buffer_writes" (λ v r. record r { load_buffer_writes = v })
      ∷ double "load_buffer_cams" (λ v r. record r { load_buffer_cams = v })
      ∷ double "store_buffer_reads" (λ v r. record r { store_buffer_reads = v })
      ∷ double "store_buffer_writes" (λ v r. record r { store_buffer_writes = v })
      ∷ double "store_buffer_cams" (λ v r. record r { store_buffer_cams = v })
      ∷ double "store_buffer_forwards" (λ v r. record r { store_buffer_forwards = v })
      ∷ double "main_memory_access" (λ v r. record r { main_memory_access = v })
      ∷ double "main_memory_read" (λ v r. record r { main_memory_read = v })
      ∷ int "main_memory_write" (λ v r. record r { main_memory_write = of_int v })
      ∷ double "pipeline_duty_cycle" (λ v r. record r { pipeline_duty_cycle = v })
      ∷ double "IFU_duty_cycle" (λ v r. record r { ifu_duty_cycle = v })
      ∷ double "BR_duty_cycle" (λ v r. record r { br_duty_cycle = v })
      ∷ double "LSU_duty_cycle" (λ v r. record r { lsu_duty_cycle = v })
      ∷ double "MemManU_I_duty_cycle" (λ v r. record r { memmanu_i_duty_cycle = v })
      ∷ double "MemManU_D_duty_cycle" (λ v r. record r { memmanu_d_duty_cycle = v })
      ∷ double "ALU_duty_cycle" (λ v r. record r { alu_duty_cycle = v })
      ∷ double "MUL_duty_cycle" (λ v r. record r { mul_duty_cycle = v })
      ∷ double "FPU_duty_cycle" (λ v r. record r { fpu_duty_cycle = v })
      ∷ double "ALU_cdb_duty_cycle" (λ v r. record r { alu_cdb_duty_cycle = v })
      ∷ double "MUL_cdb_duty_cycle" (λ v r. record r { mul_cdb_duty_cycle = v })
      ∷ double "FPU_cdb_duty_cycle" (λ v r. record r { fpu_cdb_duty_cycle = v })
      ∷ []
