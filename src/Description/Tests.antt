-- ===== src/Description/Tests.antt =====
-- A small description, as ParseXML::parse (fast_mcpat/XML_Parse.cc) reads it.
use wattwatcher.Prelude.{ℕ, Bool, subst, true, false, some, [], ◌∷◌, ◌≡◌, ◌≢◌, refl, arith, ◌<◌}
use wattwatcher.Double.{nat_double}
use wattwatcher.Text.{ℤ, codes, atof_codes, strstr}
use wattwatcher.Description.{run_map, Run, done, stopped, fault, read_items, cut, assign}
use wattwatcher.Description.Zero.{zero_root_system}
use wattwatcher.Description.ZeroCore.{zero_system_core}
use wattwatcher.Description.Root.{RootSystem, system_params, system_stats, initialize_system}
use wattwatcher.Description.CoreStats.{core_stats}
use wattwatcher.Description.Counts.{counts}
use wattwatcher.Description.Ranges.{InRange, is_count}
use wattwatcher.Description.Taking.{total, take_components}
use wattwatcher.Description.IntNames.{is_int_name}
use wattwatcher.Description.Fit.{document_fits, value_fits}
use wattwatcher.Description.Fields.{HasDouble, HasInt, core_stats-swap, system_params-counts}
use wattwatcher.Description.Networks.{read_nocs-misnamed}
use wattwatcher.Description.Safety.{read_document-ne-fault}
use wattwatcher.Description.Refinement.{read_components-take}
use wattwatcher.Description.SingleCore.{read_components-ne-done}
use wattwatcher.Description.Defaults.{initialize-untouched}
use wattwatcher.Description.Lists.{join, cut-join}
use wattwatcher.Description.CoreParams.{core_params}
use wattwatcher.Description.L2.{initialize_l2, l2_params, l2_stats}
use wattwatcher.Description.ControllerEntries.{
  mc_params, mc_stats, niu_params, niu_stats, pcie_params, pcie_stats, flashc_params, flashc_stats,
}
use wattwatcher.Description.Components.{
  read_noc, read_core, read_parts, read_both, read_l2, read_mc, read_niu, read_pcie, read_flashc,
}
use wattwatcher.Description.Initialize.{initialize}
use wattwatcher.Description.Parse.{
  read_kinds, read_controllers, read_cores, read_kind, read_networks, read_group, read_controller,
  has_word, read_nocs, read_components, read_document, parse, exceeds,
}
use wattwatcher.Description.Finish.{read_document-done}
use wattwatcher.Description.Complete.{complete, demands}
use wattwatcher.Description.Samples.{
  settled, started, item, component, chip, chip_params, document, with_counts, core_stats_items,
  core_after, params_after, incomplete,
}

with_counts-InRange : (l2s : ℕ) → l2s < 3 → InRange (counts (with_counts 1 l2s))
with_counts-InRange l2s h = record {
  cores = (refl, refl);
  l1_directories = (refl, refl);
  l2_directories = (refl, refl);
  l2s = (refl, ground arith);
  l3s = (refl, refl);
  nocs = (refl, refl);
}

read_components-take_example :
    read_components chip (with_counts 1 1) ≡ take_components chip (with_counts 1 1)
read_components-take_example =
    read_components-take chip (with_counts 1 1) (with_counts-InRange 1 (omega arith)) (omega arith)

single : has_word (some "system.core0") "system.mc" ≡ done false
unfolding strstr
single = refl

read_components-ne-done_example :
    read_components
      (component "system.core0" "core0" ∷ component "system.mc" "mc" ∷ [])
      (with_counts 1 0)
    ≢ done zero_root_system
read_components-ne-done_example =
    read_components-ne-done (component "system.core0" "core0") (component "system.mc" "mc" ∷ [])
      (with_counts 1 0) (with_counts-InRange 0 (omega arith)) refl single zero_root_system

misnamed : has_word (some "bus0") "noc" ≡ done false
unfolding strstr
misnamed = refl

read_nocs-misnamed_example :
    read_nocs read_noc 2 0 0 (component "system.bus0" "bus0" ∷ []) zero_root_system
    ≡ done zero_root_system
read_nocs-misnamed_example =
    read_nocs-misnamed read_noc 2 0 0 (component "system.bus0" "bus0" ∷ []) zero_root_system refl
      misnamed

cut-join_example :
    cut [] (join (codes "4096") (codes "32" ∷ [] ∷ [])) ≡ codes "4096" ∷ codes "32" ∷ [] ∷ []
cut-join_example = cut-join (codes "4096") (codes "32" ∷ [] ∷ []) refl

initialize-untouched_example :
    (63 < 100
      → ((initialize (λ _. 7) zero_root_system).core 100 ≡ zero_root_system.core 100)
        × ((initialize (λ _. 7) zero_root_system).l1_directory 100
            ≡ zero_root_system.l1_directory 100)
        × ((initialize (λ _. 7) zero_root_system).l2_directory 100
            ≡ zero_root_system.l2_directory 100)
        × ((initialize (λ _. 7) zero_root_system).l2 100 ≡ zero_root_system.l2 100)
        × ((initialize (λ _. 7) zero_root_system).l3 100 ≡ zero_root_system.l3 100)
        × ((initialize (λ _. 7) zero_root_system).noc 100 ≡ zero_root_system.noc 100))
    × (((initialize (λ _. 7) zero_root_system).l3 100).power_gating_vcc
        ≡ (zero_root_system.l3 100).power_gating_vcc)
initialize-untouched_example = initialize-untouched (λ _. 7) zero_root_system 100

-- The counts after the params of a run, if there is a result.
abbrev counted : Run (RootSystem ℕ) → Bool
counted (done r) = is_count (counts r)
counted stopped = true
counted fault = true

counted-done :
    (m : Run (RootSystem ℕ)) (r : RootSystem ℕ)
    → counted m ≡ true
    → m ≡ done r
    → is_count (counts r) ≡ true
counted-done m r h e = subst (λ m. counted m ≡ true) e h

chip_counted : counted (read_items system_params chip_params started) ≡ true
unfolding read_items system_params initialize initialize_system
chip_counted = refl

document_fitting : document_fits document ≡ true
unfolding value_fits is_int_name
document_fitting = refl

read_document-ne-fault_example : read_document document started ≢ fault
read_document-ne-fault_example =
    read_document-ne-fault document started document_fitting
      (λ r. counted-done (read_items system_params chip_params started) r chip_counted)

core_stats_read : read_items core_stats core_stats_items zero_system_core ≡ done core_after
unfolding read_items core_stats atof_codes
core_stats_read = refl

core_stats-swap_example :
    HasDouble core_stats_items zero_system_core core_after "phy_int_regfile_writes"
      (λ c. c.archi_int_regfile_writes)
    × HasDouble core_stats_items zero_system_core core_after "phy_float_regfile_writes"
        (λ c. c.archi_float_regfile_writes)
    × HasDouble core_stats_items zero_system_core core_after "archi_int_regfile_writes"
        (λ c. c.phy_int_regfile_writes)
    × HasDouble core_stats_items zero_system_core core_after "archi_float_regfile_writes"
        (λ c. c.phy_float_regfile_writes)
core_stats-swap_example =
    core_stats-swap ℕ core_stats_items zero_system_core core_after core_stats_read

params_read : read_items system_params chip_params zero_root_system ≡ done params_after
unfolding read_items system_params
params_read = refl

system_params-counts_example :
    HasInt chip_params zero_root_system params_after "number_of_cores" (λ s. s.number_of_cores)
    × HasInt chip_params zero_root_system params_after "number_of_L1Directories"
        (λ s. s.number_of_l1_directories)
    × HasInt chip_params zero_root_system params_after "number_of_L2Directories"
        (λ s. s.number_of_l2_directories)
    × HasInt chip_params zero_root_system params_after "number_of_L2s" (λ s. s.number_of_l2s)
    × HasInt chip_params zero_root_system params_after "number_of_L3s" (λ s. s.number_of_l3s)
    × HasInt chip_params zero_root_system params_after "number_of_NoCs" (λ s. s.number_of_nocs)
    × HasInt chip_params zero_root_system params_after "homogeneous_cores"
        (λ s. s.homogeneous_cores)
    × HasInt chip_params zero_root_system params_after "homogeneous_L1Directories"
        (λ s. s.homogeneous_l1_directories)
    × HasInt chip_params zero_root_system params_after "homogeneous_L2Directories"
        (λ s. s.homogeneous_l2_directories)
    × HasInt chip_params zero_root_system params_after "homogeneous_L2s" (λ s. s.homogeneous_l2s)
    × HasInt chip_params zero_root_system params_after "homogeneous_L3s" (λ s. s.homogeneous_l3s)
    × HasInt chip_params zero_root_system params_after "homogeneous_NoCs" (λ s. s.homogeneous_nocs)
system_params-counts_example =
    system_params-counts ℕ chip_params zero_root_system params_after params_read

-- The cycles, and the clock rate of the second cache that stands behind the first of a document.
abbrev seen : Run (RootSystem ℕ) → Run (ℕ × ℤ)
seen m = run_map (λ s. (s.total_cycles, (s.l2 0).clockrate)) m

parses : seen (parse (λ _. 7) document zero_root_system) ≡ done (1000, ℤ.pos 1)
unfolding parse read_document read_kinds read_controllers read_cores read_kind read_networks
    read_group read_nocs read_controller read_items assign system_params system_stats initialize
    initialize_system initialize_l2 read_core read_parts read_both core_params core_stats l2_params
    l2_stats read_l2 read_mc read_niu read_pcie read_flashc strstr mc_params mc_stats niu_params
    niu_stats pcie_params pcie_stats flashc_params flashc_stats atof_codes
parses = refl

stops : parse (λ _. 7) incomplete zero_root_system ≡ stopped
unfolding parse read_document read_kinds read_controllers read_cores read_kind read_networks
    read_group read_nocs read_controller read_items assign system_params system_stats initialize
    initialize_system initialize_l2 read_core read_parts read_both core_params core_stats l2_params
    l2_stats read_l2 read_mc read_niu strstr mc_params mc_stats atof_codes
stops = refl

settled_read : read_items system_params chip_params started ≡ done settled
unfolding read_items system_params initialize initialize_system
settled_read = refl

settled_counted :
    (is_count (counts settled) ≡ true) × (exceeds settled ≡ false) × (1 < total (counts settled))
unfolding initialize initialize_system
settled_counted = (refl, refl, omega arith)

demands-settled : complete (demands (counts settled)) chip ≡ true
unfolding initialize initialize_system strstr
demands-settled = refl

read_document-done_example : (r : RootSystem ℕ) × (read_document document started ≡ done r)
read_document-done_example =
    read_document-done document started settled document_fitting settled_read settled_counted.0
      settled_counted.1 settled_counted.2 demands-settled

-- A number of 11 digits is no int.
too_large : read_items system_params (item "temperature" "10000000000" ∷ []) started ≡ fault
unfolding read_items system_params
too_large = refl
