-- ===== src/IoControllers/Gates.antt =====
-- The gates that a network interface's leakage counts.
use wattwatcher.Prelude.{arith, ℕ, ◌+◌, ◌≡◌, refl, ap, sym, ◌∙◌, true, false}
use wattwatcher.Double.{Double, IsExact, ◌⊕◌, ◌⊗◌}
use wattwatcher.Cacti.{InputParameter, with_voltages}
use wattwatcher.Devices.{Devices, base_power, subthreshold}
use wattwatcher.IoControllers.{nmos_sizing}
use wattwatcher.IoControllers.Lanes.{nat-add}
use wattwatcher.Power.Algebra.{add-mul}
use wattwatcher.IoControllers.Niu.{SystemNiu, niu_gates, niu_leaking, construct, compute_energy}

module _ {F : Type 0} ⦃d : Double F⦄ (v : Devices F) (ip : InputParameter F) (n : SystemNiu F) where
  -- What gates leak in the technology of the interface.
  abbrev pub leak : ℕ → F
  leak gates =
      let g_tp = v.init_interface (with_voltages n.vdd n.power_gating_vcc ip) in
      subthreshold v g_tp (nmos_sizing n.type g_tp) (d.nat gates)

  module _ (exact : IsExact F) where
    sum-leak : (x y : F) (a b : F) → (a ⊕ b) ⊗ x ⊗ y ≡ a ⊗ x ⊗ y ⊕ b ⊗ x ⊗ y
    sum-leak x y a b = ap (λ z. z ⊗ y) (add-mul exact a b x) ∙ add-mul exact (a ⊗ x) (b ⊗ x) y

    leak-add : (a b : ℕ) → leak (a + b) ≡ leak a ⊕ leak b
    leak-add a b =
        let g_tp = v.init_interface (with_voltages n.vdd n.power_gating_vcc ip) in
        let w = nmos_sizing n.type g_tp in
        let x = v.cmos_isub_leakage g_tp w (w ⊗ v.pmos_to_nmos_sz_ratio) in
        ap (λ z. z ⊗ x ⊗ g_tp.vdd) (nat-add exact a b) ∙ sum-leak x g_tp.vdd (d.nat a) (d.nat b)

    niu_leaking-nat :
        let g = niu_gates n.type in niu_leaking n.type ≡ d.nat (g.mac + g.frontend + g.frontend)
    niu_leaking-nat =
        let g = niu_gates n.type in
        sym (
          nat-add exact (g.mac + g.frontend) g.frontend
          ∙ ap (λ x. x ⊕ d.nat g.frontend) (nat-add exact g.mac g.frontend))

    -- The subthreshold leakage of a network interface, the same in its peak and its run-time power, lacks
    -- the gates of the SerDes and has those of the front end twice: with the former added it is what all
    -- three parts leak, and what the front end leaks once more.
    pub construct_leakage :
        let g = niu_gates n.type in
        let c = compute_energy false (compute_energy true (construct v ip n)) in
        (c.power.read_op.leakage ⊕ leak g.serder
          ≡ leak (g.mac + g.frontend + g.serder) ⊕ leak g.frontend)
        × (c.rt_power.read_op.leakage ≡ c.power.read_op.leakage)
    unfolding construct compute_energy base_power
    construct_leakage =
        let g = niu_gates n.type in
        let g_tp = v.init_interface (with_voltages n.vdd n.power_gating_vcc ip) in
        (
          ap (λ x. subthreshold v g_tp (nmos_sizing n.type g_tp) x ⊕ leak g.serder) niu_leaking-nat
              ∙ sym (leak-add (g.mac + g.frontend + g.frontend) g.serder)
              ∙ ap leak (omega arith)
              ∙ leak-add (g.mac + g.frontend + g.serder) g.frontend,
          refl,
        )
