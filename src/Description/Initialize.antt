-- ===== src/Description/Initialize.antt =====
-- ParseXML::initialize (fast_mcpat/XML_Parse.cc): the values that the reading starts from. The object
-- that it works on is new and all zero. Its writes of ports[20] and ports_of_input_buffer[20] stand
-- behind arrays of 20 entries, which C++ does not define: here they hit the field that is declared next,
-- as where the fields lie in memory in their order. `write_low` is what such a write makes of a double.
use wattwatcher.Prelude.{ℕ, leb, if◌then◌else◌}
use wattwatcher.Double.{Double}
use wattwatcher.Description.CoreDefaults.{initialize_core}
use wattwatcher.Description.L1Directory.{initialize_l1_directory}
use wattwatcher.Description.L2Directory.{initialize_l2_directory}
use wattwatcher.Description.L2.{SystemL2, initialize_l2}
use wattwatcher.Description.L3.{initialize_l3}
use wattwatcher.Description.Noc.{initialize_noc}
use wattwatcher.Description.ControllerEntries.{
  initialize_mem, initialize_mc, initialize_niu, initialize_pcie, initialize_flashc,
}
use wattwatcher.Description.Root.{RootSystem, initialize_system}

-- for (i=0; i<=63; i++)
abbrev pub first_64 : {A : Type 0} → (A → A) → (ℕ → A) → ℕ → A
first_64 f old i = if leb i 63 then f (old i) else old i

module _ {F : Type 0} ⦃d : Double F⦄ where
  abbrev pub reset_power_gating_vcc : SystemL2 F → SystemL2 F
  reset_power_gating_vcc r = record r { power_gating_vcc = d.neg (d.nat 1) }

  -- The loop for the third-level caches sets power_gating_vcc of the second-level caches.
  unfoldable pub initialize : (write_low : F → F) → RootSystem F → RootSystem F
  initialize write_low s =
      let r = initialize_system s in
      record r {
        core = first_64 initialize_core s.core;
        l1_directory = first_64 initialize_l1_directory s.l1_directory;
        l2_directory = first_64 initialize_l2_directory s.l2_directory;
        l2 = first_64 reset_power_gating_vcc (first_64 initialize_l2 s.l2);
        l3 = first_64 initialize_l3 s.l3;
        noc = first_64 (initialize_noc write_low) s.noc;
        mem = initialize_mem s.mem;
        mc = initialize_mc s.mc;
        niu = initialize_niu s.niu;
        pcie = initialize_pcie s.pcie;
        flashc = initialize_flashc s.flashc;
      }
