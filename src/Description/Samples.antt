-- ===== src/Description/Samples.antt =====
-- A small description for ParseXML::parse (fast_mcpat/XML_Parse.cc) and what becomes of parts of it.
use wattwatcher.Prelude.{ℕ, some, List, [], ◌∷◌, String}
use wattwatcher.Double.{nat_double}
use wattwatcher.Text.{ℤ}
use wattwatcher.Description.{Item}
use wattwatcher.Description.Document.{Component, Document}
use wattwatcher.Description.Initialize.{initialize}
use wattwatcher.Description.Zero.{zero_root_system}
use wattwatcher.Description.ZeroCore.{zero_system_core}
use wattwatcher.Description.Root.{RootSystem}
use wattwatcher.Description.Core.{SystemCore}

abbrev pub item : String → String → Item
item n v = record { name = some n; value = some v }

abbrev pub component : String → String → Component
component id name = record {
  id = some id;
  name = some name;
  params = [];
  stats = [];
  components = [];
}

-- One core, one second-level cache, and the controllers.
abbrev pub chip : List Component
chip =
    component "system.core0" "core0"
    ∷ component "system.L20" "L20"
    ∷ component "system.mc" "mc"
    ∷ component "system.niu" "niu"
    ∷ component "system.pcie" "pcie"
    ∷ component "system.flashc" "flashc"
    ∷ []

abbrev pub chip_params : List Item
chip_params =
    item "number_of_cores" "1"
    ∷ item "number_of_L1Directories" "0"
    ∷ item "number_of_L2Directories" "0"
    ∷ item "number_of_L2s" "1"
    ∷ item "number_of_L3s" "0"
    ∷ item "number_of_NoCs" "0"
    ∷ item "homogeneous_L1Directories" "0"
    ∷ item "homogeneous_L2Directories" "0"
    ∷ item "homogeneous_L3s" "0"
    ∷ item "homogeneous_NoCs" "0"
    ∷ []

abbrev pub document : Document
document = record {
  params = chip_params;
  stats = item "total_cycles" "1000" ∷ [];
  components = chip;
}

abbrev pub with_counts : (cores l2s : ℕ) → RootSystem ℕ
with_counts cores l2s = record zero_root_system {
  number_of_cores = ℤ.pos cores;
  number_of_l2s = ℤ.pos l2s;
}

abbrev pub core_stats_items : List Item
core_stats_items = item "phy_int_regfile_writes" "7" ∷ item "archi_int_regfile_writes" "5" ∷ []

abbrev pub core_after : SystemCore ℕ
core_after = record zero_system_core { archi_int_regfile_writes = 7; phy_int_regfile_writes = 5 }

abbrev pub params_after : RootSystem ℕ
params_after = record zero_root_system { number_of_cores = ℤ.pos 1; number_of_l2s = ℤ.pos 1 }

-- Without the flash controller the run ends.
abbrev pub incomplete : Document
incomplete = record document {
  components =
      component "system.core0" "core0"
      ∷ component "system.L20" "L20"
      ∷ component "system.mc" "mc"
      ∷ [];
}

-- The defaults, where 7 is what the write behind the array makes of a double.
abbrev pub started : RootSystem ℕ
started = initialize (λ _. 7) zero_root_system

-- What the params of the chip make of the defaults.
abbrev pub settled : RootSystem ℕ
settled = record started {
  number_of_l1_directories = ℤ.pos 0;
  number_of_l2_directories = ℤ.pos 0;
  number_of_l3s = ℤ.pos 0;
  number_of_nocs = ℤ.pos 0;
  homogeneous_l1_directories = ℤ.pos 0;
  homogeneous_l2_directories = ℤ.pos 0;
  homogeneous_l3s = ℤ.pos 0;
  homogeneous_nocs = ℤ.pos 0;
}
