-- ===== src/Cacti.antt =====
-- The data that McPAT and CACTI exchange (fast_mcpat/cacti/cacti_interface.h): the fields of
-- InputParameter, mem_array and uca_org_t that McPAT sets or reads. CACTI itself, which stands under
-- fast_mcpat/cacti, is a library with its own releases: its functions are arguments of the models.
use wattwatcher.Prelude.{ℕ, Bool, true, if◌then◌else◌}
use wattwatcher.Double.{Double}
use wattwatcher.Power.{PowerDef}

pub data WireType : Type 0 where
  global global_5 global_10 global_20 global_30 low_swing semi_global transmission optical :
      WireType
  invalid_wtype : WireType

pub record InputParameter (F : Type 0) : Type 0 where
  pub cache_sz : ℕ
  pub line_sz : ℕ
  pub assoc : ℕ
  pub nbanks : ℕ
  pub out_w : ℕ
  pub specific_tag : Bool
  pub tag_w : ℕ
  pub access_mode : ℕ
  pub obj_func_dyn_energy : ℕ
  pub obj_func_dyn_power : ℕ
  pub obj_func_leak_power : ℕ
  pub obj_func_cycle_t : ℕ
  pub f_sz_nm : F
  pub f_sz_um : F
  pub specific_hp_vdd : Bool
  pub hp_vdd : F
  pub specific_lstp_vdd : Bool
  pub lstp_vdd : F
  pub specific_lop_vdd : Bool
  pub lop_vdd : F
  pub specific_vcc_min : Bool
  pub user_defined_vcc_min : F
  pub num_rw_ports : ℕ
  pub num_rd_ports : ℕ
  pub num_wr_ports : ℕ
  pub num_se_rd_ports : ℕ
  pub num_search_ports : ℕ
  pub is_main_mem : Bool
  pub is_cache : Bool
  pub pure_ram : Bool
  pub pure_cam : Bool
  pub rpters_in_htree : Bool
  pub ver_htree_wires_over_array : ℕ
  pub broadcast_addr_din_over_ver_htrees : ℕ
  pub temp : ℕ
  pub data_arr_ram_cell_tech_type : ℕ
  pub data_arr_peri_global_tech_type : ℕ
  pub tag_arr_ram_cell_tech_type : ℕ
  pub tag_arr_peri_global_tech_type : ℕ
  pub burst_len : ℕ
  pub int_prefetch_w : ℕ
  pub page_sz_bits : ℕ
  pub ic_proj_type : ℕ
  pub wire_is_mat_type : ℕ
  pub wire_os_mat_type : ℕ
  pub wt : WireType
  pub force_wiretype : Bool
  pub force_cache_config : Bool
  pub nuca_bank_count : ℕ
  pub delay_wt : ℕ
  pub dynamic_power_wt : ℕ
  pub leakage_power_wt : ℕ
  pub cycle_time_wt : ℕ
  pub area_wt : ℕ
  pub delay_dev : ℕ
  pub dynamic_power_dev : ℕ
  pub leakage_power_dev : ℕ
  pub cycle_time_dev : ℕ
  pub area_dev : ℕ
  pub ed : ℕ
  pub nuca : ℕ
  pub fully_assoc : Bool
  pub print_detail : ℕ
  pub add_ecc_b : Bool
  pub throughput : F
  pub latency : F
  pub power_gating : Bool

pub record MemArray (F : Type 0) : Type 0 where
  pub power : PowerDef F
  pub area_efficiency : F

pub record UcaOrg (F : Type 0) : Type 0 where
  pub tag_array2 : MemArray F
  pub data_array2 : MemArray F
  pub access_time : F
  pub cycle_time : F
  pub area : F
  pub power : PowerDef F
  pub valid : Bool

module _ {F : Type 0} ⦃d : Double F⦄ where
  -- The voltages that a component's description sets override the defaults.
  unfoldable pub with_voltages : (vdd power_gating_vcc : F) → InputParameter F → InputParameter F
  with_voltages vdd power_gating_vcc ip =
      let given = d.lt (d.nat 0) vdd in
      let gated = d.lt (d.neg (d.nat 1)) power_gating_vcc in
      record ip {
        specific_hp_vdd = if given then true else ip.specific_hp_vdd;
        specific_lop_vdd = if given then true else ip.specific_lop_vdd;
        specific_lstp_vdd = if given then true else ip.specific_lstp_vdd;
        hp_vdd = if given then vdd else ip.hp_vdd;
        lop_vdd = if given then vdd else ip.lop_vdd;
        lstp_vdd = if given then vdd else ip.lstp_vdd;
        specific_vcc_min = if gated then true else ip.specific_vcc_min;
        user_defined_vcc_min = if gated then power_gating_vcc else ip.user_defined_vcc_min;
      }
