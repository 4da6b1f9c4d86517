-- ===== src/IoControllers/Lanes.antt =====
-- The figures of a PCIe controller are proportional to its lanes, in exact arithmetic.
use wattwatcher.Prelude.{
  ◌/◌, ℕ, zero, suc, ◌+◌, ◌*◌, ◌≡◌, refl, sym, ap, ap₂, ◌∙◌, Bool, true, false, arith, ◌==◌,
  if◌then◌else◌,
}
use wattwatcher.Double.{Double, IsExact, ◌⊕◌, ◌⊗◌}
use wattwatcher.Power.Algebra.{add-mul}
use wattwatcher.Power.{add_power}
use wattwatcher.Basic.{Technology}
use wattwatcher.Cacti.{InputParameter, with_voltages}
use wattwatcher.Devices.{Devices, base_power, subthreshold, through_gate}
use wattwatcher.IoControllers.{nmos_sizing}
use wattwatcher.IoControllers.Pcie.{
  PcieParam, SystemPcie, pcie_param, pcie_area, pcie_power, ctrl_dyn, serder_dyn, if_phy,
  pcie_leaking, ctrl_gates, serder_gates, construct,
}

-- The controller with other lanes.
abbrev pub with_lanes : {F : Type 0} → ℕ → SystemPcie F → SystemPcie F
with_lanes k n = record n { num_channels = k }

module _ {F : Type 0} ⦃d : Double F⦄ (exact : IsExact F) where
  pub nat-add : (m n : ℕ) → d.nat (m + n) ≡ d.nat m ⊕ d.nat n
  nat-add m zero = ap d.nat (omega arith) ∙ sym (exact.add-zero (d.nat m))
  nat-add m (suc n) =
      ap d.nat (omega arith)
      ∙ exact.nat-suc (m + n)
      ∙ ap (λ x. x ⊕ d.nat 1) (nat-add m n)
      ∙ exact.add_assoc _ _ _
      ∙ ap (λ x. d.nat m ⊕ x) (sym (exact.nat-suc n))

  add_swap : (a b c e : F) → (a ⊕ b) ⊕ (c ⊕ e) ≡ (a ⊕ c) ⊕ (b ⊕ e)
  add_swap a b c e =
      exact.add_assoc a b (c ⊕ e)
      ∙ ap (λ x. a ⊕ x)
          (sym (exact.add_assoc b c e)
            ∙ ap (λ x. x ⊕ e) (exact.add_comm b c)
            ∙ exact.add_assoc c b e)
      ∙ sym (exact.add_assoc a c (b ⊕ e))

  -- Gates that are k for each lane.
  gates-add : (k m n : ℕ) → d.nat (k * (m + n)) ≡ d.nat (k * m) ⊕ d.nat (k * n)
  gates-add k m n = ap d.nat (grind arith) ∙ nat-add (k * m) (k * n)

  if_phy-add : (phy : Bool) (x y : F) → if_phy phy (x ⊕ y) ≡ if_phy phy x ⊕ if_phy phy y
  if_phy-add true x y = refl
  if_phy-add false x y = sym (exact.add-zero (d.nat 0))

  base_power-add :
      (g_tp : Technology F) (a b l k i j : F)
      → base_power g_tp (a ⊕ b) (l ⊕ k) (i ⊕ j)
        ≡ add_power (base_power g_tp a l i) (base_power g_tp b k j)
  unfolding base_power add_power
  base_power-add g_tp a b l k i j = simp (add-mul exact, exact.add-zero)

  module _ (v : Devices F) (ip0 : InputParameter F) (s : SystemPcie F) (m n : ℕ) where
    abbrev p : ℕ → PcieParam F
    p k = pcie_param (with_lanes k s)

    abbrev ip : InputParameter F
    ip = with_voltages s.vdd s.power_gating_vcc ip0

    abbrev g_tp : Technology F
    g_tp = v.init_interface ip

    leaking-add : pcie_leaking (p (m + n)) ≡ pcie_leaking (p m) ⊕ pcie_leaking (p n)
    leaking-add =
        ap₂ (λ a b. a ⊕ if_phy s.with_phy b)
          (gates-add (if s.type == 0 then 900_000 / 8 else 200_000 / 8) m n)
          (gates-add (if s.type == 0 then 0 else 200_000 / 8) m n)
        ∙ ap (λ x. (d.nat (ctrl_gates s.type m) ⊕ d.nat (ctrl_gates s.type n)) ⊕ x)
            (if_phy-add s.with_phy (d.nat (serder_gates s.type m)) (d.nat (serder_gates s.type n)))
        ∙ add_swap (d.nat (ctrl_gates s.type m)) (d.nat (ctrl_gates s.type n))
            (if_phy s.with_phy (d.nat (serder_gates s.type m)))
            (if_phy s.with_phy (d.nat (serder_gates s.type n)))

    -- A product with the gates and two other factors.
    leakage-add :
        (x : F)
        → pcie_leaking (p (m + n)) ⊗ x ⊗ g_tp.vdd
          ≡ pcie_leaking (p m) ⊗ x ⊗ g_tp.vdd ⊕ pcie_leaking (p n) ⊗ x ⊗ g_tp.vdd
    leakage-add x =
        ap (λ y. y ⊗ x ⊗ g_tp.vdd) leaking-add
        ∙ ap (λ y. y ⊗ g_tp.vdd) (add-mul exact _ _ x)
        ∙ add-mul exact _ _ g_tp.vdd

    lane-add : (x : F) → x ⊗ d.nat (m + n) ≡ x ⊗ d.nat m ⊕ x ⊗ d.nat n
    lane-add x = ap (λ y. x ⊗ y) (nat-add m n) ∙ exact.mul-add x (d.nat m) (d.nat n)

    pcie_power-add :
        pcie_power v g_tp (p (m + n)) ip
        ≡ add_power (pcie_power v g_tp (p m) ip) (pcie_power v g_tp (p n) ip)
    unfolding pcie_power
    pcie_power-add =
        let q = p 1 in
        let w = nmos_sizing q.type g_tp in
        let dynamic = ctrl_dyn q.type g_tp ip ⊕ if_phy q.with_phy (serder_dyn q g_tp ip) in
        let isub = v.cmos_isub_leakage g_tp w (w ⊗ v.pmos_to_nmos_sz_ratio) in
        let ig = v.cmos_ig_leakage g_tp w (w ⊗ v.pmos_to_nmos_sz_ratio) in
        (λ i. base_power g_tp (lane-add dynamic i) (leakage-add isub i) (leakage-add ig i))
        ∙ base_power-add g_tp (dynamic ⊗ d.nat m) (dynamic ⊗ d.nat n)
            (subthreshold v g_tp w (pcie_leaking (p m)))
            (subthreshold v g_tp w (pcie_leaking (p n)))
            (through_gate v g_tp w (pcie_leaking (p m)))
            (through_gate v g_tp w (pcie_leaking (p n)))

    -- A controller with m + n lanes has the area of one with m and one with n lanes together, and the
    -- sum of their powers at full activity, leakage included.
    pub construct_lanes :
        let c = construct v ip0 (with_lanes (m + n) s) in
        let c1 = construct v ip0 (with_lanes m s) in
        let c2 = construct v ip0 (with_lanes n s) in
        (c.area ≡ c1.area ⊕ c2.area) × (c.power_t ≡ add_power c1.power_t c2.power_t)
    unfolding construct pcie_area
    construct_lanes = (
      ap (λ y. y ⊗ d.nat 1_000_000) (lane-add _) ∙ add-mul exact _ _ (d.nat 1_000_000),
      pcie_power-add,
    )
