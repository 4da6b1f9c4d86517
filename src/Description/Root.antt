-- ===== src/Description/Root.antt =====
-- root_system of fast_mcpat/XML_Parse.h, and what fast_mcpat/XML_Parse.cc reads of the system itself.
use wattwatcher.Prelude.{ℕ, List, [], ◌∷◌, Bool, true, false}
use wattwatcher.Double.{Double}
use wattwatcher.Text.{ℤ}
use wattwatcher.Description.{Entry, int, bool, double, flag}
use wattwatcher.Description.Core.{SystemCore}
use wattwatcher.Description.L1Directory.{SystemL1Directory}
use wattwatcher.Description.L2Directory.{SystemL2Directory}
use wattwatcher.Description.L2.{SystemL2}
use wattwatcher.Description.L3.{SystemL3}
use wattwatcher.Description.Noc.{SystemNoc}
use wattwatcher.Description.Controllers.{SystemMem, SystemMc, SystemNiu, SystemPcie}

pub record RootSystem (F : Type 0) : Type 0 where
  pub number_of_cores : ℤ
  pub number_of_l1_directories : ℤ
  pub number_of_l2_directories : ℤ
  pub number_of_l2s : ℤ
  pub private_l2 : Bool
  pub number_of_l3s : ℤ
  pub number_of_nocs : ℤ
  pub number_of_dir_levels : ℤ
  pub domain_size : ℤ
  pub first_level_dir : ℤ
  pub homogeneous_cores : ℤ
  pub homogeneous_l1_directories : ℤ
  pub homogeneous_l2_directories : ℤ
  pub core_tech_node : F
  pub target_core_clockrate : ℤ
  pub target_chip_area : ℤ
  pub temperature : ℤ
  pub number_cache_levels : ℤ
  pub l1_property : ℤ
  pub l2_property : ℤ
  pub homogeneous_l2s : ℤ
  pub l3_property : ℤ
  pub homogeneous_l3s : ℤ
  pub homogeneous_nocs : ℤ
  pub homogeneous_ccs : ℤ
  pub max_area_deviation : ℤ
  pub max_power_deviation : ℤ
  pub device_type : ℤ
  pub longer_channel_device : Bool
  pub power_gating : Bool
  pub embedded : Bool
  pub opt_dynamic_power : Bool
  pub opt_lakage_power : Bool
  pub opt_clockrate : Bool
  pub opt_area : Bool
  pub interconnect_projection_type : ℤ
  pub machine_bits : ℤ
  pub virtual_address_width : ℤ
  pub physical_address_width : ℤ
  pub virtual_memory_page_size : ℤ
  pub total_cycles : F
  pub vdd : F
  pub power_gating_vcc : F
  pub core : ℕ → SystemCore F
  pub l1_directory : ℕ → SystemL1Directory F
  pub l2_directory : ℕ → SystemL2Directory F
  pub l2 : ℕ → SystemL2 F
  pub l3 : ℕ → SystemL3 F
  pub noc : ℕ → SystemNoc F
  pub mem : SystemMem F
  pub mc : SystemMc F
  pub flashc : SystemMc F
  pub niu : SystemNiu F
  pub pcie : SystemPcie F

module _ {F : Type 0} ⦃d : Double F⦄ where
  unfoldable pub system_params : List (Entry F (RootSystem F))
  system_params =
      int "number_of_cores" (λ v r. record r { number_of_cores = v })
      ∷ int "number_of_L1Directories" (λ v r. record r { number_of_l1_directories = v })
      ∷ int "number_of_L2Directories" (λ v r. record r { number_of_l2_directories = v })
      ∷ int "number_of_L2s" (λ v r. record r { number_of_l2s = v })
      ∷ bool "Private_L2" (λ v r. record r { private_l2 = v })
      ∷ int "number_of_L3s" (λ v r. record r { number_of_l3s = v })
      ∷ int "number_of_NoCs" (λ v r. record r { number_of_nocs = v })
      ∷ int "number_of_dir_levels" (λ v r. record r { number_of_dir_levels = v })
      ∷ int "domain_size" (λ v r. record r { domain_size = v })
      ∷ int "first_level_dir" (λ v r. record r { first_level_dir = v })
      ∷ int "homogeneous_cores" (λ v r. record r { homogeneous_cores = v })
      ∷ double "core_tech_node" (λ v r. record r { core_tech_node = v })
      ∷ int "target_core_clockrate" (λ v r. record r { target_core_clockrate = v })
      ∷ int "target_chip_area" (λ v r. record r { target_chip_area = v })
      ∷ int "temperature" (λ v r. record r { temperature = v })
      ∷ int "number_cache_levels" (λ v r. record r { number_cache_levels = v })
      ∷ int "L1_property" (λ v r. record r { l1_property = v })
      ∷ int "L2_property" (λ v r. record r { l2_property = v })
      ∷ int "homogeneous_L2s" (λ v r. record r { homogeneous_l2s = v })
      ∷ int "homogeneous_L1Directories" (λ v r. record r { homogeneous_l1_directories = v })
      ∷ int "homogeneous_L2Directories" (λ v r. record r { homogeneous_l2_directories = v })
      ∷ int "L3_property" (λ v r. record r { l3_property = v })
      ∷ int "homogeneous_L3s" (λ v r. record r { homogeneous_l3s = v })
      ∷ int "homogeneous_ccs" (λ v r. record r { homogeneous_ccs = v })
      ∷ int "homogeneous_NoCs" (λ v r. record r { homogeneous_nocs = v })
      ∷ int "Max_area_deviation" (λ v r. record r { max_area_deviation = v })
      ∷ int "Max_power_deviation" (λ v r. record r { max_power_deviation = v })
      ∷ int "device_type" (λ v r. record r { device_type = v })
      ∷ bool "longer_channel_device" (λ v r. record r { longer_channel_device = v })
      ∷ bool "power_gating" (λ v r. record r { power_gating = v })
      ∷ bool "opt_dynamic_power" (λ v r. record r { opt_dynamic_power = v })
      ∷ bool "opt_lakage_power" (λ v r. record r { opt_lakage_power = v })
      ∷ bool "opt_clockrate" (λ v r. record r { opt_clockrate = v })
      ∷ bool "opt_area" (λ v r. record r { opt_area = v })
      ∷ bool "Embedded" (λ v r. record r { embedded = v })
      ∷ int "interconnect_projection_type"
          (λ v r. record r { interconnect_projection_type = flag v })
      ∷ int "machine_bits" (λ v r. record r { machine_bits = v })
      ∷ int "virtual_address_width" (λ v r. record r { virtual_address_width = v })
      ∷ int "physical_address_width" (λ v r. record r { physical_address_width = v })
      ∷ int "virtual_memory_page_size" (λ v r. record r { virtual_memory_page_size = v })
      ∷ double "vdd" (λ v r. record r { vdd = v })
      ∷ double "power_gating_vcc" (λ v r. record r { power_gating_vcc = v })
      ∷ []

  unfoldable pub system_stats : List (Entry F (RootSystem F))
  system_stats = double "total_cycles" (λ v r. record r { total_cycles = v }) ∷ []

  unfoldable pub initialize_system : RootSystem F → RootSystem F
  initialize_system r = record r {
    number_of_cores = ℤ.pos 1;
    number_of_l1_directories = ℤ.pos 1;
    number_of_l2_directories = ℤ.pos 1;
    number_of_l2s = ℤ.pos 1;
    private_l2 = false;
    number_of_l3s = ℤ.pos 1;
    number_of_nocs = ℤ.pos 1;
    core_tech_node = d.nat 1;
    target_core_clockrate = ℤ.pos 1;
    target_chip_area = ℤ.pos 1;
    temperature = ℤ.pos 360;
    number_cache_levels = ℤ.pos 1;
    homogeneous_cores = ℤ.pos 1;
    homogeneous_l1_directories = ℤ.pos 1;
    homogeneous_l2_directories = ℤ.pos 1;
    homogeneous_l2s = ℤ.pos 1;
    homogeneous_l3s = ℤ.pos 1;
    homogeneous_nocs = ℤ.pos 1;
    homogeneous_ccs = ℤ.pos 1;
    max_area_deviation = ℤ.pos 1;
    max_power_deviation = ℤ.pos 1;
    device_type = ℤ.pos 1;
    longer_channel_device = true;
    power_gating = false;
    embedded = false;
    opt_dynamic_power = false;
    opt_lakage_power = false;
    opt_clockrate = true;
    opt_area = false;
    interconnect_projection_type = ℤ.pos 1;
    vdd = d.nat 0;
    power_gating_vcc = d.neg (d.nat 1);
  }
