-- ===== src/Processor/Memory.antt =====
-- What memory that is not accessed costs the chip, in exact arithmetic.
use wattwatcher.Prelude.{
  ◌<◌, ◌≡◌, refl, sym, ap, ◌∙◌, true, Ensures, Ensures-bind, Ensures-any, Ensures-both,
  Ensures-weaken, subst, Bool-cases, inl, inr,
}
use wattwatcher.Double.{Double, IsExact, ◌⊗◌, ◌⊘◌}
use wattwatcher.Power.{scale_power}
use wattwatcher.Power.Algebra.{zero-mul}
use wattwatcher.Cacti.{InputParameter, with_voltages}
use wattwatcher.System.{System}
use wattwatcher.Total.{Part}
use wattwatcher.Devices.{Devices}
use wattwatcher.MemoryCtrl.{MemoryCtrlType, SystemMc, McParam, mc_param}
use wattwatcher.MemoryCtrl.FrontEnd
use wattwatcher.MemoryCtrl.FrontEnd.{Arrays}
use wattwatcher.MemoryCtrl.Backend
use wattwatcher.MemoryCtrl.Controller.{MemoryController, construct, compute_energy, part, mc_wires}
use wattwatcher.MemoryCtrl.Balance.{evaluated}
use wattwatcher.MemoryCtrl.Idle.{RefreshesOnly, evaluated_idle}
use wattwatcher.Processor.{has_mc, memory_controllers}

module _ {F : Type 0} ⦃d : Double F⦄ where
  abbrev pub run_time : System F → F
  run_time sys = sys.total_cycles ⊘ (sys.target_core_clockrate ⊗ d.nat 1_000_000)

  -- A tenth of the peak power of the memory controllers is their run-time power.
  abbrev pub IsTenth : System F → MemoryController F → Type 0
  IsTenth sys c =
      let mcs = memory_controllers sys (part (evaluated c)) in
      mcs.rt_power.read_op.dynamic ≡ mcs.power.read_op.dynamic ⊗ d.lit 1 1

  abbrev Agrees : System F → SystemMc F → McParam F → Type 0
  Agrees sys s p = (p.num_mcs ≡ s.number_mcs) × (p.execution_time ≡ run_time sys)

  mc_param-Agrees :
      (t : MemoryCtrlType) (sys : System F) (s : SystemMc F)
      → Ensures (Agrees sys s) (mc_param t sys s)
  unfolding mc_param
  mc_param-Agrees MemoryCtrlType.mc sys s = (refl, refl)
  mc_param-Agrees MemoryCtrlType.flashc sys s = tt

  construct-Agrees :
      (v : Devices F) (arrays : Arrays F) (t : MemoryCtrlType) (sys : System F) (s : SystemMc F)
      (ip : InputParameter F)
      → Ensures (λ c. Agrees sys s c.mcp) (construct v arrays t sys s ip)
  unfolding construct
  construct-Agrees v arrays t sys s ip =
      let Q : MemoryController F → Type 0 = λ c. Agrees sys s c.mcp in
      let ip' = with_voltages s.vdd s.power_gating_vcc (mc_wires ip) in
      Ensures-bind (Agrees sys s) Q (mc_param t sys s) _ (mc_param-Agrees t sys s) (λ p agrees.
        Ensures-bind (λ _. Unit {0}) Q (FrontEnd.construct arrays s ip' p) _
          (Ensures-any (FrontEnd.construct arrays s ip' p))
          (λ f _.
            Ensures-bind (λ _. Unit {0}) Q (Backend.construct v ip' p t) _
              (Ensures-any (Backend.construct v ip' p t)) (λ b _. agrees)))

  module _ (exact : IsExact F) where
    open exact use {mul_assoc, mul_comm, mul-one}

    -- The run's length and its inverse cancel.
    cancel :
        (x l rate n time : F)
        → time ⊗ (d.nat 1 ⊘ time) ≡ d.nat 1
        → x ⊗ l ⊗ rate ⊗ n ⊗ time ⊗ (d.nat 1 ⊘ time) ≡ x ⊗ (n ⊗ rate) ⊗ l
    cancel x l rate n time inverse =
        mul_assoc _ time (d.nat 1 ⊘ time)
        ∙ ap (λ y. x ⊗ l ⊗ rate ⊗ n ⊗ y) inverse
        ∙ mul-one (x ⊗ l ⊗ rate ⊗ n)
        ∙ mul_assoc (x ⊗ l) rate n
        ∙ ap (λ y. x ⊗ l ⊗ y) (mul_comm rate n)
        ∙ mul_assoc x l (n ⊗ rate)
        ∙ ap (λ y. x ⊗ y) (mul_comm l (n ⊗ rate))
        ∙ sym (mul_assoc x (n ⊗ rate) l)

    -- A part whose run-time energy is a tenth of its peak power over the run.
    part-tenth :
        (sys : System F) (p : Part F)
        → p.rt_power.read_op.dynamic
          ≡ p.power.read_op.dynamic
            ⊗ d.lit 1 1
            ⊗ p.clock_rate
            ⊗ d.nat sys.mc_number_mcs
            ⊗ p.execution_time
        → p.execution_time ⊗ (d.nat 1 ⊘ p.execution_time) ≡ d.nat 1
        → (memory_controllers sys p).rt_power.read_op.dynamic
          ≡ (memory_controllers sys p).power.read_op.dynamic ⊗ d.lit 1 1
    unfolding scale_power
    part-tenth sys p idle inverse = elim (Bool-cases (has_mc sys)) [
      | inr absent ↦ rw absent (sym (zero-mul exact (d.lit 1 1)))
      | inl present ↦ rw present (
          ap (λ x. x ⊗ (d.nat 1 ⊘ p.execution_time)) idle
          ∙ cancel p.power.read_op.dynamic (d.lit 1 1) p.clock_rate (d.nat sys.mc_number_mcs)
              p.execution_time inverse)
    ]

    controller-IsTenth :
        (sys : System F) (s : SystemMc F) (c : MemoryController F)
        → sys.mc_number_mcs ≡ s.number_mcs
        → run_time sys ⊗ (d.nat 1 ⊘ run_time sys) ≡ d.nat 1
        → RefreshesOnly c
        → Agrees sys s c.mcp
        → IsTenth sys c
    unfolding compute_energy
    controller-IsTenth sys s c same inverse idle (mcs, time) =
        part-tenth sys (part (evaluated c))
          (idle
            ∙ ap
                (λ n.
                  (evaluated c).power.read_op.dynamic
                  ⊗ d.lit 1 1
                  ⊗ c.mcp.clock_rate
                  ⊗ d.nat n
                  ⊗ c.mcp.execution_time)
                (mcs ∙ sym same))
          (subst (λ t. t ⊗ (d.nat 1 ⊘ t) ≡ d.nat 1) (sym time) inverse)

    -- If memory is neither read nor written, the run-time dynamic power of the chip's memory controllers
    -- is a tenth of their peak dynamic power, for any number of controllers; they have a data bus, and
    -- the run has a positive length whose inverse is exact.
    pub memory-IsTenth :
        (v : Devices F) (arrays : Arrays F) (mc_type : MemoryCtrlType) (sys : System F)
        (s : SystemMc F) (ip : InputParameter F)
        → sys.mc_number_mcs ≡ s.number_mcs
        → s.memory_reads ≡ d.nat 0
        → s.memory_writes ≡ d.nat 0
        → 0 < s.databus_width
        → d.lt (d.nat 0) (run_time sys) ≡ true
        → run_time sys ⊗ (d.nat 1 ⊘ run_time sys) ≡ d.nat 1
        → Ensures (IsTenth sys) (construct v arrays mc_type sys s ip)
    memory-IsTenth v arrays mc_type sys s ip same r w bus time inverse =
        let m = construct v arrays mc_type sys s ip in
        Ensures-weaken (λ c. RefreshesOnly c × Agrees sys s c.mcp) (IsTenth sys) m
          (Ensures-both RefreshesOnly (λ c. Agrees sys s c.mcp) m
            (evaluated_idle exact v arrays mc_type sys s ip r w bus time)
            (construct-Agrees v arrays mc_type sys s ip))
          (λ c (idle, agrees). controller-IsTenth sys s c same inverse idle agrees)
