-- ===== src/Description/CoreParams.antt =====
-- The params of a core that ParseXML::parse (fast_mcpat/XML_Parse.cc) reads.
use wattwatcher.Prelude.{List, [], ◌∷◌}
use wattwatcher.Double.{Double}
use wattwatcher.Description.{Entry, int, bool, double, text, ints}
use wattwatcher.Description.Core.{SystemCore}

module _ {F : Type 0} ⦃d : Double F⦄ where
  unfoldable pub core_params : List (Entry F (SystemCore F))
  core_params =
      int "clock_rate" (λ v r. record r { clock_rate = v })
      ∷ bool "opt_local" (λ v r. record r { opt_local = v })
      ∷ bool "x86" (λ v r. record r { x86 = v })
      ∷ int "machine_bits" (λ v r. record r { machine_bits = v })
      ∷ int "virtual_address_width" (λ v r. record r { virtual_address_width = v })
      ∷ int "physical_address_width" (λ v r. record r { physical_address_width = v })
      ∷ int "instruction_length" (λ v r. record r { instruction_length = v })
      ∷ int "opcode_width" (λ v r. record r { opcode_width = v })
      ∷ int "micro_opcode_width" (λ v r. record r { micro_opcode_width = v })
      ∷ int "machine_type" (λ v r. record r { machine_type = v })
      ∷ int "internal_datapath_width" (λ v r. record r { internal_datapath_width = v })
      ∷ int "number_hardware_threads" (λ v r. record r { number_hardware_threads = v })
      ∷ int "fetch_width" (λ v r. record r { fetch_width = v })
      ∷ int "number_instruction_fetch_ports"
          (λ v r. record r { number_instruction_fetch_ports = v })
      ∷ int "decode_width" (λ v r. record r { decode_width = v })
      ∷ int "issue_width" (λ v r. record r { issue_width = v })
      ∷ int "peak_issue_width" (λ v r. record r { peak_issue_width = v })
      ∷ int "commit_width" (λ v r. record r { commit_width = v })
      ∷ int "fp_issue_width" (λ v r. record r { fp_issue_width = v })
      ∷ int "prediction_width" (λ v r. record r { prediction_width = v })
      ∷ double "vdd" (λ v r. record r { vdd = v })
      ∷ double "power_gating_vcc" (λ v r. record r { power_gating_vcc = v })
      ∷ ints "pipelines_per_core" (λ r. r.pipelines_per_core)
          (λ v r. record r { pipelines_per_core = v })
      ∷ ints "pipeline_depth" (λ r. r.pipeline_depth) (λ v r. record r { pipeline_depth = v })
      ∷ text "FPU" (λ v r. record r { fpu = v })
      ∷ text "divider_multiplier" (λ v r. record r { divider_multiplier = v })
      ∷ int "ALU_per_core" (λ v r. record r { alu_per_core = v })
      ∷ double "FPU_per_core" (λ v r. record r { fpu_per_core = v })
      ∷ int "MUL_per_core" (λ v r. record r { mul_per_core = v })
      ∷ int "instruction_buffer_size" (λ v r. record r { instruction_buffer_size = v })
      ∷ int "decoded_stream_buffer_size" (λ v r. record r { decoded_stream_buffer_size = v })
      ∷ int "instruction_window_scheme" (λ v r. record r { instruction_window_scheme = v })
      ∷ int "instruction_window_size" (λ v r. record r { instruction_window_size = v })
      ∷ int "fp_instruction_window_size" (λ v r. record r { fp_instruction_window_size = v })
      ∷ int "ROB_size" (λ v r. record r { rob_size = v })
      ∷ int "archi_Regs_IRF_size" (λ v r. record r { archi_regs_irf_size = v })
      ∷ int "archi_Regs_FRF_size" (λ v r. record r { archi_regs_frf_size = v })
      ∷ int "phy_Regs_IRF_size" (λ v r. record r { phy_regs_irf_size = v })
      ∷ int "phy_Regs_FRF_size" (λ v r. record r { phy_regs_frf_size = v })
      ∷ int "rename_scheme" (λ v r. record r { rename_scheme = v })
      ∷ int "register_windows_size" (λ v r. record r { register_windows_size = v })
      ∷ text "LSU_order" (λ v r. record r { lsu_order = v })
      ∷ int "store_buffer_size" (λ v r. record r { store_buffer_size = v })
      ∷ int "load_buffer_size" (λ v r. record r { load_buffer_size = v })
      ∷ int "memory_ports" (λ v r. record r { memory_ports = v })
      ∷ text "Dcache_dual_pump" (λ v r. record r { dcache_dual_pump = v })
      ∷ int "RAS_size" (λ v r. record r { ras_size = v })
      ∷ []
