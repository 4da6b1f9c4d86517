-- ===== src/MemoryCtrl/Idle.antt =====
-- The run-time energy of a memory controller without accesses, in exact arithmetic.
use wattwatcher.Prelude.{
  ℕ, zero, suc, subst, ◌+◌, ◌<◌, ◌≡◌, refl, sym, ap, ◌∙◌, Bool, true, false, Option, none, some,
  if◌then◌else◌, arith, Ensures, Ensures-bind, Ensures-any,
}
use wattwatcher.Double.{Double, IsExact, ◌⊕◌, ◌⊗◌, ◌⊘◌}
use wattwatcher.Power.{no_power, add_power}
use wattwatcher.Power.Algebra.{zero-mul}
use wattwatcher.Cacti.{InputParameter, with_voltages}
use wattwatcher.System.{System}
use wattwatcher.Devices.{Devices}
use wattwatcher.MemoryCtrl.{MemoryCtrlType, SystemMc, McParam, mc_param, eighth}
use wattwatcher.MemoryCtrl.FrontEnd
use wattwatcher.MemoryCtrl.FrontEnd.{
  FrontEnd, Arrays, new_buffer, reorder_interface, read_interface, write_interface,
}
use wattwatcher.MemoryCtrl.Backend
use wattwatcher.MemoryCtrl.Backend.{Backend}
use wattwatcher.MemoryCtrl.Phy
use wattwatcher.MemoryCtrl.Phy.{Phy}
use wattwatcher.MemoryCtrl.Controller.{
  MemoryController, construct, compute_energy, has_phy, mc_wires, phy_energy,
}
use wattwatcher.MemoryCtrl.Balance.{evaluated, IsSum, evaluated-IsSum, power_of, rt_power_of}
use wattwatcher.MemoryCtrl.Refresh.{
  refresh, IsIdle, refresh-add, backend_idle, phy_idle, frontend_idle,
}

module _ {F : Type 0} ⦃d : Double F⦄ where
  -- The run-time energy of the controller is that of its refreshes.
  abbrev pub RefreshesOnly : MemoryController F → Type 0
  RefreshesOnly c =
      let e = evaluated c in e.rt_power.read_op.dynamic ≡ refresh c.mcp e.power.read_op.dynamic

  module _ (exact : IsExact F) where
    -- The parts of a controller as they are constructed.
    abbrev FrontEndOf : SystemMc F → McParam F → FrontEnd F → Type 0
    FrontEndOf s p f =
        (f.mcp ≡ p)
        × (f.memory_reads ≡ s.memory_reads)
        × (f.memory_writes ≡ s.memory_writes)
        × (f.rt_power ≡ no_power)

    front_end-FrontEndOf :
        (arrays : Arrays F) (s : SystemMc F) (ip : InputParameter F) (p : McParam F)
        → Ensures (FrontEndOf s p) (FrontEnd.construct arrays s ip p)
    unfolding FrontEnd.construct
    front_end-FrontEndOf arrays s ip p =
        let ip1 = reorder_interface s p ip in
        let ip2 = read_interface s p ip1 in
        let reorder = new_buffer arrays "MC ReorderBuffer" ip1 in
        let read = new_buffer arrays "MC ReadBuffer" ip2 in
        let write = new_buffer arrays "MC writeBuffer" (write_interface s p ip2) in
        Ensures-bind (λ _. Unit {0}) (FrontEndOf s p) reorder _ (Ensures-any reorder)
          (λ a _.
            Ensures-bind (λ _. Unit {0}) (FrontEndOf s p) read _ (Ensures-any read)
              (λ b _.
                Ensures-bind (λ _. Unit {0}) (FrontEndOf s p) write _ (Ensures-any write)
                  (λ c _. (refl, refl, refl, refl))))

    abbrev PhyOf : McParam F → Option (Phy F) → Type 0
    PhyOf p none = Unit {0}
    PhyOf p (some y) = y.mcp ≡ p

    phys_idle :
        (p : McParam F) (y : Option (Phy F))
        → IsIdle p
        → PhyOf p y
        → (rt_power_of (phy_energy false (phy_energy true y))).read_op.dynamic
          ≡ refresh p (power_of (phy_energy false (phy_energy true y))).read_op.dynamic
    unfolding Phy.compute_energy
    phys_idle p none idle _ = simp (zero-mul exact)
    phys_idle p (some y) idle same =
        phy_idle exact (Phy.compute_energy true y) (subst IsIdle (sym same) idle)
        ∙ ap (λ q. refresh q (Phy.compute_energy true y).power.read_op.dynamic) same

    -- Three parts.
    refresh_parts :
        (p : McParam F) {a b c : F} (x y z : F)
        → a ≡ refresh p x
        → b ≡ refresh p y
        → c ≡ refresh p z
        → a ⊕ b ⊕ c ≡ refresh p (x ⊕ y ⊕ z)
    refresh_parts p x y z h k l =
        rw (h, k, l)
          (sym
            (refresh-add exact p (x ⊕ y) z ∙ ap (λ w. w ⊕ refresh p z) (refresh-add exact p x y)))

    controller_idle :
        (s : SystemMc F) (c : MemoryController F)
        → IsSum c
        → IsIdle c.mcp
        → s.memory_reads ≡ d.nat 0
        → s.memory_writes ≡ d.nat 0
        → FrontEndOf s c.mcp c.frontend
        → c.transec_engine.mcp ≡ c.mcp
        → PhyOf c.mcp c.phy
        → RefreshesOnly c
    unfolding compute_energy FrontEnd.compute_energy Backend.compute_energy add_power
    controller_idle s c (_, power, rt) idle r w (fm, fr, fw, frt) bm ym =
        let e = evaluated c in
        let f1 = FrontEnd.compute_energy true c.frontend in
        let b1 = Backend.compute_energy true c.transec_engine in
        ap (λ x. x.read_op.dynamic) rt
        ∙ refresh_parts c.mcp e.frontend.power.read_op.dynamic
            e.transec_engine.power.read_op.dynamic (power_of e.phy).read_op.dynamic
            (frontend_idle exact f1 (subst IsIdle (sym fm) idle) (fr ∙ r) (fw ∙ w) frt
              ∙ ap (λ q. refresh q f1.power.read_op.dynamic) fm)
            (backend_idle exact b1 (subst IsIdle (sym bm) idle)
              ∙ ap (λ q. refresh q b1.power.read_op.dynamic) bm)
            (phys_idle c.mcp c.phy idle ym)
        ∙ ap (λ x. refresh c.mcp x.read_op.dynamic) (sym power)

    -- The widened bus.
    bus-pos : (n k : ℕ) → 0 < n → d.lt (d.nat 0) (d.nat (k + n)) ≡ true
    bus-pos (suc n) k h =
        subst (λ m. d.lt (d.nat 0) (d.nat m) ≡ true) (omega arith) (exact.nat-pos (k + n))
    bus-pos zero k h = absurd (omega arith)

    mc_param-IsIdle :
        (t : MemoryCtrlType) (sys : System F) (s : SystemMc F)
        → s.memory_reads ≡ d.nat 0
        → s.memory_writes ≡ d.nat 0
        → 0 < s.databus_width
        → d.lt (d.nat 0) (sys.total_cycles ⊘ (sys.target_core_clockrate ⊗ d.nat 1_000_000)) ≡ true
        → Ensures IsIdle (mc_param t sys s)
    unfolding mc_param
    mc_param-IsIdle MemoryCtrlType.mc sys s r w bus time =
        (r, w, bus-pos s.databus_width (eighth d s.databus_width) bus, time)
    mc_param-IsIdle MemoryCtrlType.flashc sys s r w bus time = tt

    backend-mcp :
        (v : Devices F) (ip : InputParameter F) (p : McParam F) (t : MemoryCtrlType)
        → Ensures (λ b. (b.mcp ≡ p) × (b.rt_power ≡ no_power)) (Backend.construct v ip p t)
    unfolding Backend.construct
    backend-mcp v ip p MemoryCtrlType.mc = (refl, refl)
    backend-mcp v ip p MemoryCtrlType.flashc = tt

    phy-PhyOf :
        (v : Devices F) (ip : InputParameter F) (p : McParam F) (t : MemoryCtrlType)
        (present : Bool)
        → PhyOf p (if present then some (Phy.construct v ip p t) else none)
    unfolding Phy.construct
    phy-PhyOf v ip p MemoryCtrlType.mc true = refl
    phy-PhyOf v ip p MemoryCtrlType.flashc true = refl
    phy-PhyOf v ip p t false = tt

    -- If memory is neither read nor written, the run-time energy of a memory controller with a data bus,
    -- over a run of positive length, is a tenth of its peak power, as energy per cycle, at its clock rate
    -- for the whole run, times the number of controllers.
    pub evaluated_idle :
        (v : Devices F) (arrays : Arrays F) (mc_type : MemoryCtrlType) (sys : System F)
        (s : SystemMc F) (ip : InputParameter F)
        → s.memory_reads ≡ d.nat 0
        → s.memory_writes ≡ d.nat 0
        → 0 < s.databus_width
        → d.lt (d.nat 0) (sys.total_cycles ⊘ (sys.target_core_clockrate ⊗ d.nat 1_000_000)) ≡ true
        → Ensures RefreshesOnly (construct v arrays mc_type sys s ip)
    unfolding construct
    evaluated_idle v arrays mc_type sys s ip r w bus time =
        let ip' = with_voltages s.vdd s.power_gating_vcc (mc_wires ip) in
        Ensures-bind IsIdle RefreshesOnly (mc_param mc_type sys s) _
          (mc_param-IsIdle mc_type sys s r w bus time)
          (λ p idle.
            Ensures-bind (FrontEndOf s p) RefreshesOnly (FrontEnd.construct arrays s ip' p) _
              (front_end-FrontEndOf arrays s ip' p)
              (λ f fresh.
                Ensures-bind (λ b. (b.mcp ≡ p) × (b.rt_power ≡ no_power)) RefreshesOnly
                  (Backend.construct v ip' p mc_type) _ (backend-mcp v ip' p mc_type)
                  (λ b (same, _).
                    controller_idle s _ (evaluated-IsSum exact _ refl refl refl) idle r w fresh same
                      (phy-PhyOf v ip' p mc_type (has_phy p)))))
