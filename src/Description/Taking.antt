-- ===== src/Description/Taking.antt =====
-- A reader that takes the components of a description from the front of the list, one kind after the
-- other, to compare the indices of ParseXML::parse (fast_mcpat/XML_Parse.cc) with.
use wattwatcher.Prelude.{ℕ, ◌+◌, Option, List, [], ◌∷◌, String, if◌then◌else◌}
use wattwatcher.Double.{Double}
use wattwatcher.Text.{ℤ}
use wattwatcher.Description.{Run, done, ◌>>=◌, run_map}
use wattwatcher.Description.Document.{Component}
use wattwatcher.Description.Root.{RootSystem}
use wattwatcher.Description.Order.{take_group, take_nocs, take_controller}
use wattwatcher.Description.Counts.{Counts}
use wattwatcher.Description.Parse.{is_one}
use wattwatcher.Description.Components.{
  read_core, read_l1_directory, read_l2_directory, read_l2, read_l3, read_noc, read_mc, read_niu,
  read_pcie, read_flashc,
}

abbrev size : ℤ → ℕ
size (ℤ.pos n) = n
size (ℤ.negsuc n) = 0

-- How many components of a kind a document has: one if they are equal.
abbrev pub taken : ℤ → ℤ → ℕ
taken homogeneous number = if is_one homogeneous then 1 else size number

abbrev pub total : Counts → ℕ
total c =
    taken (c.cores.0) (c.cores.1)
    + taken (c.l1_directories.0) (c.l1_directories.1)
    + taken (c.l2_directories.0) (c.l2_directories.1)
    + taken (c.l2s.0) (c.l2s.1)
    + taken (c.l3s.0) (c.l3s.1)
    + taken (c.nocs.0) (c.nocs.1)

module _ {F : Type 0} ⦃d : Double F⦄ where
  unfoldable pub take_kind :
      (Component → Option String)
      → String
      → (ℕ → Component → RootSystem F → Run (RootSystem F))
      → (homogeneous number : RootSystem F → ℤ) → List Component × RootSystem F
      → Run (List Component × RootSystem F)
  take_kind attribute word read homogeneous number (cs, s) =
      take_group attribute word read (taken (homogeneous s) (number s)) 0 cs s

  unfoldable pub take_networks : List Component × RootSystem F → Run (List Component × RootSystem F)
  take_networks (cs, s) = take_nocs read_noc (taken s.homogeneous_nocs s.number_of_nocs) 0 cs s

  unfoldable pub take_kinds : List Component × RootSystem F → Run (List Component × RootSystem F)
  unfolding take_kind take_networks
  take_kinds r =
      take_kind (λ c. c.name) "core" read_core (λ s. s.homogeneous_cores) (λ s. s.number_of_cores) r
      >>= take_kind (λ c. c.id) "L1Directory" read_l1_directory (λ s. s.homogeneous_l1_directories)
          (λ s. s.number_of_l1_directories)
      >>= take_kind (λ c. c.id) "L2Directory" read_l2_directory (λ s. s.homogeneous_l2_directories)
          (λ s. s.number_of_l2_directories)
      >>= take_kind (λ c. c.name) "L2" read_l2 (λ s. s.homogeneous_l2s) (λ s. s.number_of_l2s)
      >>= take_kind (λ c. c.name) "L3" read_l3 (λ s. s.homogeneous_l3s) (λ s. s.number_of_l3s)
      >>= take_networks

  -- A memory controller, a network unit, a PCIe unit and a flash controller are the next ones.
  unfoldable pub take_controllers :
      List Component × RootSystem F → Run (List Component × RootSystem F)
  unfolding take_controller
  take_controllers r =
      take_controller "system.mc" read_mc r
      >>= take_controller "system.niu" read_niu
      >>= take_controller "system.pcie" read_pcie
      >>= take_controller "system.flashc" read_flashc

  unfoldable pub take_components : List Component → RootSystem F → Run (RootSystem F)
  unfolding take_kinds take_controllers
  take_components [] s = done s
  take_components (c ∷ cs) s = run_map (λ r. r.1) (take_kinds (c ∷ cs, s) >>= take_controllers)
