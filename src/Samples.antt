-- ===== src/Samples.antt =====
-- Data for the tests: small descriptions over the whole numbers, which the tests change field by
-- field.
use wattwatcher.Prelude.{true, ◌+◌, ℕ, false}
use wattwatcher.Double.{Double, IsExact, nat_double, nat-IsExact}
use wattwatcher.Power.{PowerComponents, PowerDef, no_power}
use wattwatcher.Basic.{Technology}
use wattwatcher.Cacti.{InputParameter, WireType, UcaOrg}
use wattwatcher.System.{NocSystem, System}
use wattwatcher.Devices.{Devices}
use wattwatcher.MemoryCtrl.FrontEnd.{Arrays}
use wattwatcher.Total.{Part}
use wattwatcher.Interconnect.{Wire}
use wattwatcher.Noc.{Router, NocParam}

abbrev pub blank_input : InputParameter ℕ
blank_input = record {
  cache_sz = 0;
  line_sz = 0;
  assoc = 0;
  nbanks = 0;
  out_w = 0;
  specific_tag = false;
  tag_w = 0;
  access_mode = 0;
  obj_func_dyn_energy = 0;
  obj_func_dyn_power = 0;
  obj_func_leak_power = 0;
  obj_func_cycle_t = 0;
  f_sz_nm = 0;
  f_sz_um = 0;
  specific_hp_vdd = false;
  hp_vdd = 0;
  specific_lstp_vdd = false;
  lstp_vdd = 0;
  specific_lop_vdd = false;
  lop_vdd = 0;
  specific_vcc_min = false;
  user_defined_vcc_min = 0;
  num_rw_ports = 0;
  num_rd_ports = 0;
  num_wr_ports = 0;
  num_se_rd_ports = 0;
  num_search_ports = 0;
  is_main_mem = false;
  is_cache = false;
  pure_ram = false;
  pure_cam = false;
  rpters_in_htree = false;
  ver_htree_wires_over_array = 0;
  broadcast_addr_din_over_ver_htrees = 0;
  temp = 0;
  data_arr_ram_cell_tech_type = 0;
  data_arr_peri_global_tech_type = 0;
  tag_arr_ram_cell_tech_type = 0;
  tag_arr_peri_global_tech_type = 0;
  burst_len = 0;
  int_prefetch_w = 0;
  page_sz_bits = 0;
  ic_proj_type = 0;
  wire_is_mat_type = 0;
  wire_os_mat_type = 0;
  wt = WireType.global;
  force_wiretype = false;
  force_cache_config = false;
  nuca_bank_count = 0;
  delay_wt = 0;
  dynamic_power_wt = 0;
  leakage_power_wt = 0;
  cycle_time_wt = 0;
  area_wt = 0;
  delay_dev = 0;
  dynamic_power_dev = 0;
  leakage_power_dev = 0;
  cycle_time_dev = 0;
  area_dev = 0;
  ed = 0;
  nuca = 0;
  fully_assoc = false;
  print_detail = 0;
  add_ecc_b = false;
  throughput = 0;
  latency = 0;
  power_gating = false;
}

abbrev pub blank_noc : NocSystem ℕ
blank_noc = record {
  clockrate = 0;
  type = false;
  has_global_link = false;
  link_throughput = 0;
  link_latency = 0;
  input_ports = 0;
  output_ports = 0;
  virtual_channel_per_port = 0;
  flit_bits = 0;
  input_buffer_entries_per_vc = 0;
  horizontal_nodes = 0;
  vertical_nodes = 0;
  chip_coverage = 0;
  route_over_perc = 0;
  total_accesses = 0;
  duty_cycle = 0;
  vdd = 0;
  power_gating_vcc = 0;
}

abbrev pub blank_system : System ℕ
blank_system = record {
  number_of_cores = 0;
  number_of_l2s = 0;
  number_of_l3s = 0;
  number_of_nocs = 0;
  number_of_l1_directories = 0;
  number_of_l2_directories = 0;
  homogeneous_cores = 0;
  homogeneous_l2s = 0;
  homogeneous_l3s = 0;
  homogeneous_nocs = 0;
  homogeneous_l1_directories = 0;
  homogeneous_l2_directories = 0;
  private_l2 = false;
  embedded = false;
  power_gating = false;
  device_type = 0;
  interconnect_projection_type = 0;
  temperature = 0;
  core_tech_node = 0;
  total_cycles = 0;
  target_core_clockrate = 0;
  mc_number_mcs = 0;
  mc_memory_channels_per_mc = 0;
  flashc_number_mcs = 0;
  niu_number_units = 0;
  pcie_number_units = 0;
  pcie_num_channels = 0;
  noc = λ _. blank_noc;
}

-- A power with the same figures for each operation.
abbrev pub power_of : ℕ → ℕ → PowerDef ℕ
power_of dynamic leakage =
    let c : PowerComponents ℕ = record {
      dynamic = dynamic;
      leakage = leakage;
      gate_leakage = leakage;
      short_circuit = 0;
      longer_channel_leakage = leakage;
      power_gated_leakage = leakage;
      power_gated_with_long_channel_leakage = leakage;
    } in
    record { read_op = c; write_op = c; search_op = c }

abbrev pub blank_uca : UcaOrg ℕ
blank_uca = record {
  tag_array2 = record { power = power_of 1 1; area_efficiency = 50 };
  data_array2 = record { power = power_of 2 3; area_efficiency = 50 };
  access_time = 1;
  cycle_time = 1;
  area = 7;
  power = power_of 3 4;
  valid = false;
}

abbrev pub technology : Technology ℕ
technology = record {
  long_channel_leakage_reduction = 1;
  vcc_min = 1;
  vdd = 1;
  macro_layout_overhead = 1;
  chip_layout_overhead = 2;
  sckt_co_eff = 1;
  min_w_nmos = 1;
  core_tx_density = 1;
}

abbrev pub part : ℕ → Part ℕ
part n = record {
  area = n;
  power = power_of n 2;
  rt_power = power_of n 1;
  clock_rate = 3;
  execution_time = 1;
}

abbrev pub wire : ℕ → ℕ → ℕ → Wire ℕ
wire length width_scaling space_scaling = record {
  delay = length;
  dynamic = 2;
  leakage = 3;
  gate_leakage = 1;
  area = width_scaling;
  wire_width = 1;
  wire_spacing = 1;
}

abbrev pub router : NocParam ℕ → ℕ → Router ℕ
router param m_traffic_pattern = record {
  area = 9;
  power = power_of 6 3;
  rt_power = no_power;
  buffer_power = power_of 1 1;
  buffer_rt_power = no_power;
  crossbar_power = power_of 2 1;
  crossbar_rt_power = no_power;
  arbiter_power = power_of 3 1;
  arbiter_rt_power = no_power;
}

-- Whole numbers that keep the digits of a literal.
abbrev pub digits : Double ℕ
digits = record nat_double { lit = λ n k. n }

pub digits-IsExact : IsExact ℕ ⦃d = digits⦄
digits-IsExact = record {
  add_assoc = nat-IsExact.add_assoc;
  add_comm = nat-IsExact.add_comm;
  add-zero = nat-IsExact.add-zero;
  mul-zero = nat-IsExact.mul-zero;
  mul-one = nat-IsExact.mul-one;
  mul_assoc = nat-IsExact.mul_assoc;
  mul_comm = nat-IsExact.mul_comm;
  mul-add = nat-IsExact.mul-add;
  zero-div = nat-IsExact.zero-div;
  nat-pos = nat-IsExact.nat-pos;
  nat-suc = nat-IsExact.nat-suc;
}

abbrev pub devices : Devices ℕ
devices = record {
  init_interface = λ ip. record technology { vdd = 12; vcc_min = 24 };
  pmos_to_nmos_sz_ratio = 2;
  cmos_isub_leakage = λ g_tp nmos pmos. nmos + pmos;
  cmos_ig_leakage = λ g_tp nmos pmos. nmos;
  inverter_isub_leakage = λ g_tp nmos pmos. nmos;
  inverter_ig_leakage = λ g_tp nmos pmos. pmos;
}

abbrev pub arrays : Arrays ℕ
arrays = record {
  cacti_interface = λ ip. record blank_uca { power = power_of 4 3 };
  g_tp = λ ip. technology;
  opt_for_clk = true;
  error_checking = λ ip. ip;
}
