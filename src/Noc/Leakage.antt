-- ===== src/Noc/Leakage.antt =====
-- The leakage that NoC::computeEnergy (fast_mcpat/noc.cc) gives a network in its two evaluations.
use wattwatcher.Prelude.{
  ℕ, ◌≡◌, refl, Bool, true, false, some, Ensures, Ensures-bind, Ensures-any, Ensures-split,
  Ensures-assert, assert, ◌&&◌,
}
use wattwatcher.Double.{Double, IsExact, ◌⊗◌}
use wattwatcher.Power.{no_power, add_power, scale_power}
use wattwatcher.Power.Algebra.{zero-add}
use wattwatcher.Basic.{Technology}
use wattwatcher.Cacti.{InputParameter}
use wattwatcher.System.{NocSystem, System}
use wattwatcher.Interconnect.{Interconnect, Wire}
use wattwatcher.Noc.{
  Router, NocParam, Noc, set_noc_param, init_router, init_link_bus, construct, new_link, with_link,
  fresh, reduce_router, compute_energy,
}

module _ {F : Type 0} ⦃d : Double F⦄ where
  -- The peak leakage is the run-time leakage of as many networks as there are nodes.
  abbrev pub IsNodewise : Noc F → Type 0
  IsNodewise n =
      let nodes = d.nat n.param.total_nodes in
      (n.power.read_op.leakage ≡ n.rt_power.read_op.leakage ⊗ nodes)
      × (n.power.read_op.gate_leakage ≡ n.rt_power.read_op.gate_leakage ⊗ nodes)

  abbrev pub evaluated : System F → ℕ → Noc F → Noc F
  evaluated sys i n = compute_energy false sys i (compute_energy true sys i n)

  -- A bus has one link at each node.
  set_noc_param-linked_ports :
      (sys : System F) (n : NocSystem F)
      → Ensures (λ p. p.type ≡ false → p.global_linked_ports ≡ d.nat 1) (set_noc_param sys n)
  unfolding set_noc_param
  set_noc_param-linked_ports sys n =
      Ensures-assert (λ p. p.type ≡ false → p.global_linked_ports ≡ d.nat 1)
        (d.le n.chip_coverage (d.nat 1) && d.le n.route_over_perc (d.nat 1)) _ λ _ bus. rw bus refl

  module _ (exact : IsExact F) (new_wire : (length width_scaling space_scaling : F) → Wire F)
      (new_router : NocParam F → F → Router F) (g_tp : Technology F) (opt_for_clk : Bool)
      (unused : (p : NocParam F) (m : F) → (new_router p m).rt_power ≡ no_power) where
    router-IsNodewise :
        (sys : System F) (i : ℕ) (ip : InputParameter F) (m : F) (p : NocParam F)
        → IsNodewise (
            evaluated sys i (
              init_router new_wire new_router g_tp opt_for_clk
                (fresh new_wire new_router g_tp opt_for_clk sys i ip m p)))
    unfolding compute_energy init_router reduce_router add_power scale_power
    router-IsNodewise sys i ip m p = (
      rw (unused p m) (simp (zero-add exact, exact.mul-one, exact.mul-zero)),
      rw (unused p m) (simp (zero-add exact, exact.mul-one, exact.mul-zero)),
    )

    bus-IsNodewise :
        (sys : System F) (i : ℕ) (ip : InputParameter F) (m : F) (p : NocParam F)
        (link : Interconnect F)
        → p.global_linked_ports ≡ d.nat 1
        → IsNodewise (
            evaluated sys i (
              with_link new_wire new_router g_tp opt_for_clk
                (fresh new_wire new_router g_tp opt_for_clk sys i ip m p)
                link))
    unfolding compute_energy add_power scale_power
    bus-IsNodewise sys i ip m p link one =
        (simp (one, zero-add exact, exact.mul-one), simp (one, zero-add exact, exact.mul-one))

    -- A network that is constructed, be it of routers or a bus, ends its two evaluations with the peak
    -- leakage and the peak gate leakage of all its nodes, and with the run-time ones of a single node,
    -- provided that a new router has no run-time power: the former are the latter times the nodes.
    pub construct-IsNodewise :
        (sys : System F) (i : ℕ) (ip : InputParameter F) (m_traffic_pattern link_len : F)
        → Ensures
            (λ n. IsNodewise (evaluated sys i n))
            (construct new_wire new_router g_tp opt_for_clk sys i ip m_traffic_pattern link_len)
    unfolding construct init_link_bus
    construct-IsNodewise sys i ip m link_len =
        let Good : Noc F → Type 0 = λ n. IsNodewise (evaluated sys i n) in
        Ensures-bind (λ p. p.type ≡ false → p.global_linked_ports ≡ d.nat 1) Good
          (set_noc_param sys (sys.noc i)) _ (set_noc_param-linked_ports sys (sys.noc i))
          (λ p one.
            let n = fresh new_wire new_router g_tp opt_for_clk sys i ip m p in
            Ensures-split Good p.type _ _ (λ _. router-IsNodewise sys i ip m p)
              (λ bus.
                Ensures-bind (λ _. Unit {0}) Good (assert (d.lt (d.nat 0) link_len) link_len) _
                  (Ensures-any (assert (d.lt (d.nat 0) link_len) link_len))
                  (λ len _.
                    Ensures-bind (λ _. Unit {0}) Good
                      (new_link new_wire new_router g_tp opt_for_clk len n)
                      (λ link. some (with_link new_wire new_router g_tp opt_for_clk n link))
                      (Ensures-any (new_link new_wire new_router g_tp opt_for_clk len n))
                      (λ link _. bus-IsNodewise sys i ip m p link (one bus)))))
