-- ===== src/Description/ServedKinds.antt =====
-- All kinds and the controllers, as the reader of Taking reads them from a list that is complete and fits.
use wattwatcher.Prelude.{ℕ, ◌≤◌, true, Option, List, [], ◌∷◌, String, ◌≡◌, refl, ap, subst}
use wattwatcher.Double.{Double}
use wattwatcher.Text.{ℤ}
use wattwatcher.Description.{Run, done, ◌>>=◌}
use wattwatcher.Description.Document.{Component}
use wattwatcher.Description.Root.{RootSystem}
use wattwatcher.Description.Counts.{counts, Keeps}
use wattwatcher.Description.Order.{drop, take_controller}
use wattwatcher.Description.Follow.{drop-zero}
use wattwatcher.Description.OrderRange.{taken-le, first_taken-le}
use wattwatcher.Description.Ranges.{InRange}
use wattwatcher.Description.Fit.{component_fits, components_fit, &&-true}
use wattwatcher.Description.Sound.{
  read_core-Reads, read_l1_directory-Reads, read_l2_directory-Reads, read_l2-Reads, read_l3-Reads,
  read_noc-Reads, read_mc-Sound, read_niu-Sound, read_pcie-Sound, read_flashc-Sound,
}
use wattwatcher.Description.Goes.{
  Goes-done, core-Goes, l1_directory-Goes, l2_directory-Goes, l2-Goes, l3-Goes, noc-Goes, mc-Goes,
  niu-Goes, pcie-Goes, flashc-Goes,
}
use wattwatcher.Description.Complete.{Demand, has, complete, kind, controller, controllers, demands}
use wattwatcher.Description.Served.{
  Succeeds, bind-Succeeds, has-done, Ready, Serves, Reads-Serves, take_kind-Succeeds,
  take_networks-Succeeds,
}
use wattwatcher.Description.Taking.{
  taken, take_kind, take_kinds, take_networks, take_controllers, take_components,
}
use wattwatcher.Description.Components.{
  read_core, read_l1_directory, read_l2_directory, read_l2, read_l3, read_noc, read_mc, read_niu,
  read_pcie, read_flashc,
}

module _ {F : Type 0} where
  controller-Succeeds :
      (word : String) (read : Component → RootSystem F → Run (RootSystem F)) (es : List Demand)
      (r : List Component × RootSystem F)
      → ((c : Component) (s : RootSystem F)
          → component_fits c ≡ true
          → Succeeds (λ _. Unit {0}) (read c s))
      → Ready (controller word ∷ es) r
      → Succeeds (Ready es) (take_controller word read r)
  unfolding take_controller
  controller-Succeeds word read es ([], s) serve (h, fit) = cc
  controller-Succeeds word read es (c ∷ cs, s) serve (h, fit) =
      let (h1, h2) = &&-true _ (complete es (drop 0 cs)) h in
      let (f1, f2) = &&-true (component_fits c) _ fit in
      rw (has-done c.id word (&&-true (has c.id word) _ h1).0) (
        bind-Succeeds (λ _. Unit {0}) (Ready es) (read c s) (λ s'. done (cs, s')) (serve c s f1)
          (λ s' _. ((cs, s'), refl, (subst (λ l. complete es l ≡ true) (drop-zero cs) h2, f2))))

module _ {F : Type 0} ⦃d : Double F⦄ where
  controllers-Succeeds :
      (r : List Component × RootSystem F)
      → Ready controllers r
      → Succeeds (Ready []) (take_controllers r)
  unfolding take_controllers
  controllers-Succeeds r ready =
      let from_flashc = controller "system.flashc" ∷ [] in
      let from_pcie = controller "system.pcie" ∷ from_flashc in
      let from_niu = controller "system.niu" ∷ from_pcie in
      bind-Succeeds (Ready from_flashc) (Ready []) _ (take_controller "system.flashc" read_flashc)
        (bind-Succeeds (Ready from_pcie) (Ready from_flashc) _
          (take_controller "system.pcie" read_pcie)
          (bind-Succeeds (Ready from_niu) (Ready from_pcie) _
            (take_controller "system.niu" read_niu)
            (controller-Succeeds "system.mc" read_mc from_niu r
              (λ c s f. Goes-done (λ _. Unit {0}) _ (mc-Goes c s) (read_mc-Sound c s f)) ready)
            (λ r.
              controller-Succeeds "system.niu" read_niu from_pcie r
                (λ c s f. Goes-done (λ _. Unit {0}) _ (niu-Goes c s) (read_niu-Sound c s f))))
          (λ r.
            controller-Succeeds "system.pcie" read_pcie from_flashc r
              (λ c s f. Goes-done (λ _. Unit {0}) _ (pcie-Goes c s) (read_pcie-Sound c s f))))
        (λ r.
          controller-Succeeds "system.flashc" read_flashc [] r
            (λ c s f. Goes-done (λ _. Unit {0}) _ (flashc-Goes c s) (read_flashc-Sound c s f)))

  kinds-Succeeds :
      (cs : List Component) (s : RootSystem F)
      → InRange (counts s)
      → Ready (demands (counts s)) (cs, s)
      → Succeeds (λ r. Ready controllers r × Keeps s (r.1)) (take_kinds (cs, s))
  unfolding take_kinds
  kinds-Succeeds cs s range ready =
      let c = counts s in
      let from_nocs = kind c.nocs (λ c. c.name) "noc" ∷ controllers in
      let from_l3s = kind c.l3s (λ c. c.name) "L3" ∷ from_nocs in
      let from_l2s = kind c.l2s (λ c. c.name) "L2" ∷ from_l3s in
      let from_l2_directories = kind c.l2_directories (λ c. c.id) "L2Directory" ∷ from_l2s in
      let from_l1_directories =
        kind c.l1_directories (λ c. c.id) "L1Directory" ∷ from_l2_directories in
      bind-Succeeds (λ r. Ready from_nocs r × Keeps s (r.1)) _ _ take_networks
        (then_kind (λ c. c.name) "L3" read_l3 (λ s. s.homogeneous_l3s) (λ s. s.number_of_l3s) c.l3s
          from_nocs _
          (then_kind (λ c. c.name) "L2" read_l2 (λ s. s.homogeneous_l2s) (λ s. s.number_of_l2s)
            c.l2s from_l3s _
            (then_kind (λ c. c.id) "L2Directory" read_l2_directory
              (λ s. s.homogeneous_l2_directories) (λ s. s.number_of_l2_directories) c.l2_directories
              from_l2s _
              (then_kind (λ c. c.id) "L1Directory" read_l1_directory
                (λ s. s.homogeneous_l1_directories) (λ s. s.number_of_l1_directories)
                c.l1_directories from_l2_directories _
                (take_kind-Succeeds (λ c. c.name) "core" read_core (λ s. s.homogeneous_cores)
                  (λ s. s.number_of_cores) s c.cores from_l1_directories (cs, s)
                  (Reads-Serves read_core read_core-Reads core-Goes) (λ s e. ap (λ c. c.cores) e)
                  (first_taken-le (c.cores.0) (c.cores.1) range.cores.0 range.cores.1)
                  (ready, refl))
                (Reads-Serves read_l1_directory read_l1_directory-Reads l1_directory-Goes)
                (λ s e. ap (λ c. c.l1_directories) e)
                (taken-le c.l1_directories range.l1_directories))
              (Reads-Serves read_l2_directory read_l2_directory-Reads l2_directory-Goes)
              (λ s e. ap (λ c. c.l2_directories) e)
              (taken-le c.l2_directories range.l2_directories))
            (Reads-Serves read_l2 read_l2-Reads l2-Goes) (λ s e. ap (λ c. c.l2s) e)
            (taken-le c.l2s range.l2s))
          (Reads-Serves read_l3 read_l3-Reads l3-Goes) (λ s e. ap (λ c. c.l3s) e)
          (taken-le c.l3s range.l3s))
        (λ r.
          take_networks-Succeeds s controllers r (Reads-Serves read_noc read_noc-Reads noc-Goes)
            (taken-le c.nocs range.nocs))
    where
      then_kind :
          (attribute : Component → Option String) (word : String)
          (read : ℕ → Component → RootSystem F → Run (RootSystem F))
          (homogeneous number : RootSystem F → ℤ) (c : ℤ × ℤ) (es : List Demand)
          (m : Run (List Component × RootSystem F))
          → Succeeds (λ r. Ready (kind c attribute word ∷ es) r × Keeps s (r.1)) m
          → Serves read
          → ((s' : RootSystem F) → Keeps s s' → (homogeneous s', number s') ≡ c)
          → taken (c.0) (c.1) ≤ 1024
          → Succeeds
              (λ r. Ready es r × Keeps s (r.1))
              (m >>= take_kind attribute word read homogeneous number)
      then_kind attribute word read homogeneous number c es m before serve same le =
          bind-Succeeds (λ r. Ready (kind c attribute word ∷ es) r × Keeps s (r.1))
            (λ r. Ready es r × Keeps s (r.1)) m _ before
            (λ r. take_kind-Succeeds attribute word read homogeneous number s c es r serve same le)

  pub components-Succeeds :
      (cs : List Component) (s : RootSystem F)
      → InRange (counts s)
      → complete (demands (counts s)) cs ≡ true
      → components_fit cs ≡ true
      → Succeeds (λ _. Unit {0}) (take_components cs s)
  unfolding take_components
  components-Succeeds [] s range h fit = (s, refl, tt)
  components-Succeeds (c ∷ cs) s range h fit =
      bind-Succeeds (Ready []) (λ _. Unit {0}) (take_kinds (c ∷ cs, s) >>= take_controllers) _
        (bind-Succeeds (λ r. Ready controllers r × Keeps s (r.1)) (Ready [])
          (take_kinds (c ∷ cs, s)) take_controllers (kinds-Succeeds (c ∷ cs) s range (h, fit))
          (λ r ready. controllers-Succeeds r (ready.0)))
        (λ r _. (r.1, refl, tt))
