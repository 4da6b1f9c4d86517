-- ===== src/System.antt =====
-- What the processor reads of the parsed description (system_core and its kin of
-- fast_mcpat/XML_Parse.h) and the parameters that Processor::set_proc_param makes of it
-- (fast_mcpat/processor.cc, ProcParam of fast_mcpat/basic_components.h). Counts are not negative.
use wattwatcher.Prelude.{ℕ, ◌*◌, Bool, true, false, not, ◌==◌, if◌then◌else◌}
use wattwatcher.Double.{Double, ◌⊘◌}
use wattwatcher.Cacti.{InputParameter, WireType}

-- NoC_systemcore, an entry of sys.NoC
pub record NocSystem (F : Type 0) : Type 0 where
  pub clockrate : F
  pub type : Bool
  pub has_global_link : Bool
  pub link_throughput : F
  pub link_latency : F
  pub input_ports : ℕ
  pub output_ports : ℕ
  pub virtual_channel_per_port : ℕ
  pub flit_bits : ℕ
  pub input_buffer_entries_per_vc : ℕ
  pub horizontal_nodes : ℕ
  pub vertical_nodes : ℕ
  pub chip_coverage : F
  pub route_over_perc : F
  pub total_accesses : F
  pub duty_cycle : F
  pub vdd : F
  pub power_gating_vcc : F

-- system_L2 and system_L3, whose fields are the same but for the name of the array cache_config
pub record CacheSystem (F : Type 0) : Type 0 where
  pub cache_config : ℕ → F
  pub clockrate : F
  pub device_type : ℕ
  pub buffer_sizes : ℕ → ℕ
  pub vdd : F
  pub power_gating_vcc : F
  pub duty_cycle : F
  pub merged_dir : Bool
  pub dir_duty_cycle : F

-- system_L1Directory and system_L2Directory
pub record DirectorySystem (F : Type 0) : Type 0 where
  pub directory_type : ℕ
  pub dir_config : ℕ → F
  pub buffer_sizes : ℕ → ℕ
  pub clockrate : F
  pub device_type : ℕ
  pub vdd : F
  pub power_gating_vcc : F
  pub duty_cycle : F

pub record System (F : Type 0) : Type 0 where
  pub number_of_cores : ℕ
  pub number_of_l2s : ℕ
  pub number_of_l3s : ℕ
  pub number_of_nocs : ℕ
  pub number_of_l1_directories : ℕ
  pub number_of_l2_directories : ℕ
  pub homogeneous_cores : ℕ
  pub homogeneous_l2s : ℕ
  pub homogeneous_l3s : ℕ
  pub homogeneous_nocs : ℕ
  pub homogeneous_l1_directories : ℕ
  pub homogeneous_l2_directories : ℕ
  pub private_l2 : Bool
  pub embedded : Bool
  pub power_gating : Bool
  pub device_type : ℕ
  pub interconnect_projection_type : ℕ
  pub temperature : ℕ
  pub core_tech_node : F
  pub total_cycles : F
  pub target_core_clockrate : F
  pub mc_number_mcs : ℕ
  pub mc_memory_channels_per_mc : ℕ
  pub flashc_number_mcs : ℕ
  pub niu_number_units : ℕ
  pub pcie_number_units : ℕ
  pub pcie_num_channels : ℕ
  pub noc : ℕ → NocSystem F

pub record ProcParam : Type 0 where
  pub num_core : ℕ
  pub num_l2 : ℕ
  pub num_l3 : ℕ
  pub num_noc : ℕ
  pub num_l1_dir : ℕ
  pub num_l2_dir : ℕ
  pub num_mc : ℕ
  pub num_mc_channel : ℕ
  pub homo_core : Bool
  pub homo_l2 : Bool
  pub homo_l3 : Bool
  pub homo_noc : Bool
  pub homo_l1_dir : Bool
  pub homo_l2_dir : Bool

-- bool(n)
abbrev pub to_bool : ℕ → Bool
to_bool n = not (n == 0)

module _ {F : Type 0} where
  unfoldable pub proc_param : System F → ProcParam
  proc_param sys = record {
    num_core = sys.number_of_cores;
    num_l2 = sys.number_of_l2s;
    num_l3 = sys.number_of_l3s;
    num_noc = sys.number_of_nocs;
    num_l1_dir = sys.number_of_l1_directories;
    num_l2_dir = sys.number_of_l2_directories;
    num_mc = sys.mc_number_mcs;
    num_mc_channel = sys.mc_memory_channels_per_mc;
    homo_core = to_bool sys.homogeneous_cores;
    homo_l2 = to_bool sys.homogeneous_l2s;
    homo_l3 = to_bool sys.homogeneous_l3s;
    homo_noc = to_bool sys.homogeneous_nocs;
    homo_l1_dir = to_bool sys.homogeneous_l1_directories;
    homo_l2_dir = to_bool sys.homogeneous_l2_directories;
  }

  -- The parameters for CACTI; fields that the source leaves alone stay as they are.
  unfoldable pub proc_interface : ⦃d : Double F⦄ → System F → InputParameter F → InputParameter F
  proc_interface ⦃d⦄ sys ip = record ip {
    data_arr_ram_cell_tech_type = sys.device_type;
    data_arr_peri_global_tech_type = sys.device_type;
    tag_arr_ram_cell_tech_type = sys.device_type;
    tag_arr_peri_global_tech_type = sys.device_type;
    specific_hp_vdd = false;
    specific_lop_vdd = false;
    specific_lstp_vdd = false;
    specific_vcc_min = false;
    ic_proj_type = sys.interconnect_projection_type;
    delay_wt = 100;
    area_wt = 0;
    dynamic_power_wt = 100;
    leakage_power_wt = 0;
    cycle_time_wt = 0;
    delay_dev = 10_000;
    area_dev = 10_000;
    dynamic_power_dev = 10_000;
    leakage_power_dev = 10_000;
    cycle_time_dev = 10_000;
    ed = 2;
    burst_len = 1;
    int_prefetch_w = 1;
    page_sz_bits = 0;
    temp = sys.temperature;
    f_sz_nm = sys.core_tech_node;
    f_sz_um = sys.core_tech_node ⊘ d.nat 1000;
    cache_sz = 64;
    line_sz = 1;
    assoc = 1;
    nbanks = 1;
    out_w = 1 * 8;
    specific_tag = true;
    tag_w = 64;
    access_mode = 2;
    obj_func_dyn_energy = 0;
    obj_func_dyn_power = 0;
    obj_func_leak_power = 0;
    obj_func_cycle_t = 1;
    is_main_mem = false;
    rpters_in_htree = true;
    ver_htree_wires_over_array = 0;
    broadcast_addr_din_over_ver_htrees = 0;
    num_rw_ports = 1;
    num_rd_ports = 0;
    num_wr_ports = 0;
    num_se_rd_ports = 0;
    num_search_ports = 1;
    nuca = 0;
    nuca_bank_count = 0;
    is_cache = true;
    pure_ram = false;
    pure_cam = false;
    force_cache_config = false;
    power_gating = sys.power_gating;
    wt = if sys.embedded then WireType.global_30 else WireType.global;
    wire_is_mat_type = if sys.embedded then 0 else 2;
    wire_os_mat_type = if sys.embedded then 0 else 2;
    force_wiretype = false;
    print_detail = 1;
    add_ecc_b = true;
  }
