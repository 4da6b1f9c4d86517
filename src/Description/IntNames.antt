-- ===== src/Description/IntNames.antt =====
-- The names of the params and stats that ParseXML::parse (fast_mcpat/XML_Parse.cc) reads by atoi in one
-- component or another.
use wattwatcher.Prelude.{Bool, false, ◌||◌, List, [], ◌∷◌, String, str_eq}

abbrev pub int_names : List String
int_names =
    "number_of_cores" ∷ "number_of_L1Directories" ∷ "number_of_L2Directories" ∷ "number_of_L2s"
    ∷ "Private_L2" ∷ "number_of_L3s" ∷ "number_of_NoCs" ∷ "number_of_dir_levels" ∷ "domain_size"
    ∷ "first_level_dir" ∷ "homogeneous_cores" ∷ "target_core_clockrate" ∷ "target_chip_area"
    ∷ "temperature" ∷ "number_cache_levels" ∷ "L1_property" ∷ "L2_property" ∷ "homogeneous_L2s"
    ∷ "homogeneous_L1Directories" ∷ "homogeneous_L2Directories" ∷ "L3_property" ∷ "homogeneous_L3s"
    ∷ "homogeneous_ccs" ∷ "homogeneous_NoCs" ∷ "Max_area_deviation" ∷ "Max_power_deviation"
    ∷ "device_type" ∷ "longer_channel_device" ∷ "power_gating" ∷ "opt_dynamic_power"
    ∷ "opt_lakage_power" ∷ "opt_clockrate" ∷ "opt_area" ∷ "Embedded"
    ∷ "interconnect_projection_type" ∷ "machine_bits" ∷ "virtual_address_width"
    ∷ "physical_address_width" ∷ "virtual_memory_page_size" ∷ "clock_rate" ∷ "opt_local" ∷ "x86"
    ∷ "instruction_length" ∷ "opcode_width" ∷ "micro_opcode_width" ∷ "machine_type"
    ∷ "internal_datapath_width" ∷ "number_hardware_threads" ∷ "fetch_width"
    ∷ "number_instruction_fetch_ports" ∷ "decode_width" ∷ "issue_width" ∷ "peak_issue_width"
    ∷ "commit_width" ∷ "fp_issue_width" ∷ "prediction_width" ∷ "pipelines_per_core"
    ∷ "pipeline_depth" ∷ "ALU_per_core" ∷ "MUL_per_core" ∷ "instruction_buffer_size"
    ∷ "decoded_stream_buffer_size" ∷ "instruction_window_scheme" ∷ "instruction_window_size"
    ∷ "fp_instruction_window_size" ∷ "ROB_size" ∷ "archi_Regs_IRF_size" ∷ "archi_Regs_FRF_size"
    ∷ "phy_Regs_IRF_size" ∷ "phy_Regs_FRF_size" ∷ "rename_scheme" ∷ "register_windows_size"
    ∷ "store_buffer_size" ∷ "load_buffer_size" ∷ "memory_ports" ∷ "RAS_size" ∷ "main_memory_write"
    ∷ "predictor_size" ∷ "predictor_entries" ∷ "local_predictor_size" ∷ "local_predictor_entries"
    ∷ "global_predictor_entries" ∷ "global_predictor_bits" ∷ "chooser_predictor_entries"
    ∷ "chooser_predictor_bits" ∷ "number_entries" ∷ "buffer_sizes" ∷ "BTB_config" ∷ "clockrate"
    ∷ "ports" ∷ "Directory_type" ∷ "merged_dir" ∷ "number_of_inputs_of_crossbars"
    ∷ "number_of_outputs_of_crossbars" ∷ "flit_bits" ∷ "input_buffer_entries_per_port"
    ∷ "ports_of_input_buffer" ∷ "type" ∷ "horizontal_nodes" ∷ "vertical_nodes" ∷ "has_global_link"
    ∷ "link_throughput" ∷ "link_latency" ∷ "input_ports" ∷ "output_ports"
    ∷ "virtual_channel_per_port" ∷ "input_buffer_entries_per_vc" ∷ "dual_pump"
    ∷ "number_of_crossbars" ∷ "arbiter_type" ∷ "mc_clock" ∷ "block_size" ∷ "number_mcs"
    ∷ "memory_channels_per_mc" ∷ "req_window_size_per_channel" ∷ "IO_buffer_size_per_channel"
    ∷ "databus_width" ∷ "addressbus_width" ∷ "peak_transfer_rate" ∷ "number_ranks" ∷ "LVDS"
    ∷ "withPHY" ∷ "number_units" ∷ "num_channels" ∷ "number_flashcs" ∷ []

abbrev pub is_among : String → List String → Bool
is_among n [] = false
is_among n (k ∷ ks) = str_eq n k || is_among n ks

unfoldable pub is_int_name : String → Bool
is_int_name n = is_among n int_names
