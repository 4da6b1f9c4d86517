-- ===== src/Processor/Balance.antt =====
-- The chip's totals are the sums of those of its kinds of parts, in exact arithmetic.
use wattwatcher.Prelude.{
  ℕ, ◌≡◌, refl, sym, ap, ◌∙◌, Bool, true, false, ◌⊎◌, inl, inr, Option, none, if◌then◌else◌, ltb,
  Ensures, Ensures-bind, Ensures-if,
}
use wattwatcher.Double.{Double, IsExact, ◌⊕◌, ◌⊗◌}
use wattwatcher.Power.{Pppm}
use wattwatcher.Cacti.{InputParameter}
use wattwatcher.System.{System, ProcParam, proc_param, proc_interface}
use wattwatcher.Total.{Total, Part, no_total, add_total, for_units, add_units}
use wattwatcher.Total.Sums.{add_total-zero, zero-add_total, add_units_balance}
use wattwatcher.Noc.{Noc}
use wattwatcher.Network.Balance.{add_networks_balance}
use wattwatcher.Processor.{
  Parts, Processor, Controllers, add_caches, add_controllers, controllers, with_controllers,
  add_l1_directories, add_l2, construct, mismatch, has_mc, has_pcie, flash_controllers,
  network_interfaces, pcie_controllers,
}

module _ {F : Type 0} ⦃d : Double F⦄ where
  -- The sum over the kinds of parts.
  abbrev pub sum_kinds : Processor F → Total F
  sum_kinds p =
      let plus = add_total in
      plus
        (plus
          (plus
            (plus (plus (plus (plus (plus (plus p.core p.l2) p.l3) p.l1dir) p.l2dir) p.mcs)
              p.flashcontrollers)
            p.nius)
          p.pcies)
        p.noc

  module _ (exact : IsExact F) where
    follow : (k : Total F) {a b c : Total F} → c ≡ add_total a k → a ≡ b → c ≡ add_total b k
    follow k e h = e ∙ ap (λ x. add_total x k) h

    -- The four kinds of controllers on top of a total.
    four : Controllers F → Total F → Total F
    four c x =
        add_total (add_total (add_total (add_total x c.mcs) c.flashcontrollers) c.nius) c.pcies

    with_controllers-add_total :
        (present : Bool) (n : ℕ) (peak run : Pppm F) (p : Part F) (chip : Total F)
        → with_controllers present n p (controllers present n peak run p) chip
          ≡ add_total chip (controllers present n peak run p)
    unfolding add_total
    with_controllers-add_total true n peak run p chip =
        let area : d.nat 0 ⊕ p.area ⊗ d.nat n ≡ p.area ⊗ d.nat n =
          exact.add_comm _ _ ∙ exact.add-zero _ in
        rw area
    with_controllers-add_total false n peak run p chip = sym (add_total-zero exact chip)

    optional-add_total :
        (present : Bool) (n : ℕ) (peak run : Pppm F) (p : Part F) (chip : Total F)
        → (if present then add_total chip (controllers present n peak run p) else chip)
          ≡ add_total chip (controllers present n peak run p)
    optional-add_total true n peak run p chip = refl
    optional-add_total false n peak run p chip = sym (add_total-zero exact chip)

    unless_balance :
        (private : Bool) (homogeneous : Bool) (n : ℕ) (parts : ℕ → Part F) (chip : Total F)
        → let t =
            if private
            then record { kind = no_total; chip = chip }
            else add_units homogeneous n parts chip in
          t.chip ≡ add_total chip t.kind
    unless_balance true homogeneous n parts chip = sym (add_total-zero exact chip)
    unless_balance false homogeneous n parts chip = add_units_balance exact homogeneous n parts chip

    abbrev pub PlainDirectories : ProcParam → Type 0
    PlainDirectories p = (p.homo_l1_dir ≡ true) ⊎ (p.num_l1_dir ≡ 0)

    directories_balance :
        (homogeneous : Bool) (n : ℕ) (parts : ℕ → Part F) (chip : Total F)
        → (homogeneous ≡ true) ⊎ (n ≡ 0)
        → (add_l1_directories homogeneous n parts chip).chip
          ≡ add_total chip (add_l1_directories homogeneous n parts chip).kind
    unfolding add_l1_directories add_units for_units
    directories_balance true n parts chip plain = add_units_balance exact true n parts chip
    directories_balance false n parts chip (inl e) = cc
    directories_balance false n parts chip (inr e) = rw e (sym (add_total-zero exact chip))

    caches_balance :
        (sys : System F) (p : ProcParam) (parts : Parts F)
        → PlainDirectories p
        → let c = add_caches sys p parts in
          c.chip ≡ add_total (add_total (add_total (add_total c.core c.l2) c.l3) c.l1dir) c.l2dir
    unfolding add_caches
    caches_balance sys p parts plain =
        let core = add_units p.homo_core p.num_core parts.cores no_total in
        let l2 = add_l2 sys p parts.l2array core.chip in
        let l3 = add_units p.homo_l3 p.num_l3 parts.l3array l2.chip in
        let l1dir = add_l1_directories p.homo_l1_dir p.num_l1_dir parts.l1dirarray l3.chip in
        let l2dir = add_units p.homo_l2_dir p.num_l2_dir parts.l2dirarray l1dir.chip in
        follow l2dir.kind (add_units_balance exact p.homo_l2_dir p.num_l2_dir parts.l2dirarray _) (
          follow l1dir.kind
            (directories_balance p.homo_l1_dir p.num_l1_dir parts.l1dirarray _ plain)
            (follow l3.kind (add_units_balance exact p.homo_l3 p.num_l3 parts.l3array _) (
              follow l2.kind (unless_balance sys.private_l2 p.homo_l2 p.num_l2 parts.l2array _) (
                add_units_balance exact p.homo_core p.num_core parts.cores no_total
                ∙ zero-add_total exact core.kind))))

    controllers_balance :
        (sys : System F) (parts : Parts F) (chip : Total F)
        → let c = add_controllers sys parts chip in
          c.chip
          ≡ add_total
              (add_total (add_total (add_total chip c.mcs) c.flashcontrollers) c.nius)
              c.pcies
    unfolding add_controllers
    controllers_balance sys parts chip =
        follow (pcie_controllers sys parts.pcie)
          (with_controllers-add_total (has_pcie sys) _ _ _ parts.pcie _)
          (follow (network_interfaces sys parts.niu)
            (with_controllers-add_total (ltb 0 sys.niu_number_units) _ _ _ parts.niu _)
            (follow (flash_controllers sys parts.flashcontroller)
              (optional-add_total (ltb 0 sys.flashc_number_mcs) _ _ _ parts.flashcontroller _)
              (with_controllers-add_total (has_mc sys) _ _ _ parts.mc chip)))

    module _ (build : InputParameter F → ℕ → F → Option (Noc F)) (lay : F → Noc F → Option (Noc F))
        (energy : ℕ → Noc F → Noc F) where
      -- If a processor is constructed, its area, its peak power and its run-time power are the sums of
      -- those of its ten kinds of parts, provided that its first-level directories are declared equal or
      -- it has none.
      pub construct_balance :
          (sys : System F) (ip : InputParameter F) (parts : Parts F)
          → PlainDirectories (proc_param sys)
          → Ensures (λ p. p.chip ≡ sum_kinds p) (construct build lay energy sys ip parts)
      unfolding construct four
      construct_balance sys ip parts plain =
          let p = proc_param sys in
          let caches = add_caches sys p parts in
          let io = add_controllers sys parts caches.chip in
          Ensures-if (λ p. p.chip ≡ sum_kinds p) (mismatch sys p) none _ tt
            (Ensures-bind (λ t. t.chip ≡ add_total io.chip t.kind) (λ p. p.chip ≡ sum_kinds p) _ _
              (add_networks_balance exact sys p.num_noc (build (proc_interface sys ip)) lay energy
                p.homo_noc io.chip)
              (λ noc e. follow noc.kind e (
                controllers_balance sys parts caches.chip
                ∙ ap (four io) (caches_balance sys p parts plain))))
