-- ===== src/MemoryCtrl/Balance.antt =====
-- A memory controller is the sum of its parts, in exact arithmetic.
use wattwatcher.Prelude.{
  is_some, ◌≡◌, refl, sym, ap, ◌∙◌, Bool, true, false, Option, none, some, if◌then◌else◌, Ensures,
  Ensures-bind, Ensures-any,
}
use wattwatcher.Double.{Double, IsExact, ◌⊕◌}
use wattwatcher.Power.{PowerDef, no_power, add_power}
use wattwatcher.Power.Algebra.{zero-add, add_power-zero, add_power_comm}
use wattwatcher.Cacti.{InputParameter, with_voltages}
use wattwatcher.System.{System}
use wattwatcher.Devices.{Devices}
use wattwatcher.MemoryCtrl.{MemoryCtrlType, SystemMc, mc_param}
use wattwatcher.MemoryCtrl.FrontEnd
use wattwatcher.MemoryCtrl.FrontEnd.{Arrays}
use wattwatcher.MemoryCtrl.Backend
use wattwatcher.MemoryCtrl.Phy
use wattwatcher.MemoryCtrl.Phy.{Phy}
use wattwatcher.MemoryCtrl.Controller.{
  MemoryController, construct, compute_energy, has_phy, mc_wires, with_phy_area, add_phy_power,
  phy_energy, add_phy_rt_power,
}

module _ {F : Type 0} ⦃d : Double F⦄ where
  -- Peak power first, as run-time power needs it.
  abbrev pub evaluated : MemoryController F → MemoryController F
  evaluated c = compute_energy false (compute_energy true c)

  abbrev pub area_of : Option (Phy F) → F
  area_of none = d.nat 0
  area_of (some y) = y.area

  abbrev pub power_of : Option (Phy F) → PowerDef F
  power_of none = no_power
  power_of (some y) = y.power

  abbrev pub rt_power_of : Option (Phy F) → PowerDef F
  rt_power_of none = no_power
  rt_power_of (some y) = y.rt_power

  -- Area, peak power and run-time power are the sums over the parts.
  abbrev pub IsSum : MemoryController F → Type 0
  IsSum c =
      let e = evaluated c in
      (c.area ≡ c.frontend.area ⊕ c.transec_engine.area ⊕ area_of c.phy)
      × (e.power ≡ add_power (add_power e.frontend.power e.transec_engine.power) (power_of e.phy))
      × (e.rt_power
          ≡ add_power (add_power e.frontend.rt_power e.transec_engine.rt_power) (rt_power_of e.phy))

  module _ (exact : IsExact F) where
    zero-add_power : (x : PowerDef F) → add_power no_power x ≡ x
    zero-add_power x = add_power_comm exact no_power x ∙ add_power-zero exact x

    add_phy-area : (y : Option (Phy F)) (x : F) → with_phy_area y x ≡ x ⊕ area_of y
    add_phy-area none x = sym (exact.add-zero x)
    add_phy-area (some y) x = refl

    add_phy-power :
        (y : Option (Phy F)) (x : PowerDef F) → add_phy_power y x ≡ add_power x (power_of y)
    add_phy-power none x = sym (add_power-zero exact x)
    add_phy-power (some y) x = refl

    add_phy-rt_power :
        (y : Option (Phy F)) (x : PowerDef F) → add_phy_rt_power y x ≡ add_power x (rt_power_of y)
    add_phy-rt_power none x = sym (add_power-zero exact x)
    add_phy-rt_power (some y) x = refl

    phy-kept : (y : Option (Phy F)) → power_of (phy_energy false y) ≡ power_of y
    unfolding Phy.compute_energy
    phy-kept none = refl
    phy-kept (some y) = refl

    is_some-if : (b : Bool) (y : Phy F) → is_some (if b then some y else none) ≡ b
    is_some-if true y = refl
    is_some-if false y = refl

    -- A part that was not evaluated before.
    sum_parts :
        (a b p : PowerDef F)
        → add_power (add_power (add_power no_power a) b) p ≡ add_power (add_power a b) p
    sum_parts a b p = ap (λ x. add_power (add_power x b) p) (zero-add_power a)

    pub evaluated-IsSum :
        (c : MemoryController F)
        → c.area ≡ with_phy_area c.phy (d.nat 0 ⊕ c.frontend.area ⊕ c.transec_engine.area)
        → c.power ≡ no_power
        → c.rt_power ≡ no_power
        → IsSum c
    unfolding compute_energy FrontEnd.compute_energy Backend.compute_energy
    evaluated-IsSum c area fresh fresh_rt =
        let e1 = compute_energy true c in
        let e = evaluated c in
        (
          area
              ∙ add_phy-area c.phy _
              ∙ ap (λ x. x ⊕ c.transec_engine.area ⊕ area_of c.phy)
                  (zero-add exact c.frontend.area),
          add_phy-power e1.phy
                (add_power (add_power c.power e1.frontend.power) e1.transec_engine.power)
              ∙ ap
                  (λ x.
                    add_power (add_power (add_power x e1.frontend.power) e1.transec_engine.power)
                      (power_of e1.phy))
                  fresh
              ∙ sum_parts e1.frontend.power e1.transec_engine.power (power_of e1.phy)
              ∙ ap (add_power (add_power e1.frontend.power e1.transec_engine.power))
                  (sym (phy-kept e1.phy)),
          add_phy-rt_power e.phy
                (add_power (add_power c.rt_power e.frontend.rt_power) e.transec_engine.rt_power)
              ∙ ap
                  (λ x.
                    add_power
                      (add_power (add_power x e.frontend.rt_power) e.transec_engine.rt_power)
                      (rt_power_of e.phy))
                  fresh_rt
              ∙ sum_parts e.frontend.rt_power e.transec_engine.rt_power (rt_power_of e.phy),
        )

    -- A memory controller that is constructed has a physical interface exactly if its type is 0, or its
    -- type is 1 and it is described with one. Its area is that of its parts, and so are its peak and its
    -- run-time power when both have been evaluated, the peak power first.
    pub evaluated_balance :
        (v : Devices F) (arrays : Arrays F) (mc_type : MemoryCtrlType) (sys : System F)
        (s : SystemMc F) (ip : InputParameter F)
        → Ensures
            (λ c. (is_some c.phy ≡ has_phy c.mcp) × IsSum c)
            (construct v arrays mc_type sys s ip)
    unfolding construct
    evaluated_balance v arrays mc_type sys s ip =
        let Q : MemoryController F → Type 0 = λ c. (is_some c.phy ≡ has_phy c.mcp) × IsSum c in
        let ip' = with_voltages s.vdd s.power_gating_vcc (mc_wires ip) in
        Ensures-bind (λ _. Unit {0}) Q (mc_param mc_type sys s) _
          (Ensures-any (mc_param mc_type sys s))
          (λ p _.
            Ensures-bind (λ _. Unit {0}) Q (FrontEnd.construct arrays s ip' p) _
              (Ensures-any (FrontEnd.construct arrays s ip' p))
              (λ f _.
                Ensures-bind (λ _. Unit {0}) Q (Backend.construct v ip' p mc_type) _
                  (Ensures-any (Backend.construct v ip' p mc_type))
                  (λ b _. (is_some-if (has_phy p) _, evaluated-IsSum _ refl refl refl))))
