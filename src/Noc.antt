-- ===== src/Noc.antt =====
-- class NoC (fast_mcpat/noc.h, fast_mcpat/noc.cc): a network of routers with links, or a bus. CACTI's
-- Router and Wire are arguments. `none` is a run that an assert stops. link_bus_exist and
-- router_exist are the presence of the link and of the router.
pub mod Energy
pub mod Leakage
mod Tests
use wattwatcher.Prelude.{
  ℕ, ◌+◌, ◌*◌, ◌/◌, Bool, true, false, not, ◌&&◌, Option, none, some, ltb, leb, if◌then◌else◌,
  ◌>>=◌, assert,
}
use wattwatcher.Double.{Double, ◌⊕◌, ◌⊖◌, ◌⊗◌, ◌⊘◌}
use wattwatcher.Power.{PowerDef, set_pppm, no_power, add_power, scale_power, pppm_lkg}
use wattwatcher.Basic.{
  DeviceTy, CoreType, Technology, longer_channel_device_reduction, power_gating_leakage_reduction,
}
use wattwatcher.Cacti.{InputParameter, WireType, with_voltages}
use wattwatcher.System.{NocSystem, System}
use wattwatcher.Interconnect
use wattwatcher.Interconnect.{Interconnect, Wire}

-- The parts of a Router that the network reads and sets.
pub record Router (F : Type 0) : Type 0 where
  pub area : F
  pub power : PowerDef F
  pub rt_power : PowerDef F
  pub buffer_power : PowerDef F
  pub buffer_rt_power : PowerDef F
  pub crossbar_power : PowerDef F
  pub crossbar_rt_power : PowerDef F
  pub arbiter_power : PowerDef F
  pub arbiter_rt_power : PowerDef F

pub record NocParam (F : Type 0) : Type 0 where
  pub type : Bool
  pub clock_rate : F
  pub execution_time : F
  pub flit_size : ℕ
  pub input_ports : ℕ
  pub output_ports : ℕ
  pub min_ports : ℕ
  -- an int that is used as a factor only, and may be negative
  pub global_linked_ports : F
  pub virtual_channel_per_port : ℕ
  pub input_buffer_entries_per_vc : ℕ
  pub horizontal_nodes : ℕ
  pub vertical_nodes : ℕ
  pub total_nodes : ℕ
  pub duty_cycle : F
  pub has_global_link : Bool
  pub link_throughput : F
  pub link_latency : F
  pub chip_coverage : F
  pub route_over_perc : F

pub record Noc (F : Type 0) : Type 0 where
  pub param : NocParam F
  pub interface_ip : InputParameter F
  pub m_traffic_pattern : F
  pub area : F
  pub power : PowerDef F
  pub rt_power : PowerDef F
  pub router : Option (Router F)
  pub link_bus : Option (Interconnect F)
  pub link_bus_rt_power : PowerDef F
  -- link_bus_tot_per_Router
  pub per_router_area : F
  pub per_router_power : PowerDef F

abbrev pub min_ℕ : ℕ → ℕ → ℕ
min_ℕ a b = if ltb b a then b else a

module _ {F : Type 0} ⦃d : Double F⦄ where
  unfoldable pub set_noc_param : System F → NocSystem F → Option (NocParam F)
  set_noc_param sys n =
      let input = if n.type then n.input_ports else 1 in
      let output = if n.type then n.output_ports else 1 in
      assert (d.le n.chip_coverage (d.nat 1) && d.le n.route_over_perc (d.nat 1)) (record {
        type = n.type;
        clock_rate = n.clockrate ⊗ d.nat 1_000_000;
        execution_time = sys.total_cycles ⊘ (sys.target_core_clockrate ⊗ d.nat 1_000_000);
        flit_size = n.flit_bits;
        input_ports = input;
        output_ports = output;
        min_ports = min_ℕ input output;
        global_linked_ports =
            if n.type then (d.nat input ⊖ d.nat 1) ⊕ (d.nat output ⊖ d.nat 1) else d.nat 1;
        virtual_channel_per_port = n.virtual_channel_per_port;
        input_buffer_entries_per_vc = n.input_buffer_entries_per_vc;
        horizontal_nodes = n.horizontal_nodes;
        vertical_nodes = n.vertical_nodes;
        total_nodes = n.horizontal_nodes * n.vertical_nodes;
        duty_cycle = n.duty_cycle;
        has_global_link = n.has_global_link;
        link_throughput = n.link_throughput;
        link_latency = n.link_latency;
        chip_coverage = n.chip_coverage;
        route_over_perc = n.route_over_perc;
      })

  unfoldable pub noc_interface : NocSystem F → InputParameter F → InputParameter F
  noc_interface n ip = with_voltages n.vdd n.power_gating_vcc ip

  abbrev pub noc_wires : Bool → InputParameter F → InputParameter F
  noc_wires embedded ip = record ip {
    wt = if embedded then WireType.global_30 else WireType.global;
    wire_is_mat_type = if embedded then 0 else 2;
    wire_os_mat_type = if embedded then 1 else 2;
  }

  -- Leakage of the three parts of a router, and its sum; `power` keeps its own plain leakage.
  abbrev pub long_leakage : F → PowerDef F → PowerDef F
  long_leakage reduction p = record p {
    read_op = record (p.read_op) { longer_channel_leakage = p.read_op.leakage ⊗ reduction };
  }

  abbrev pub gate_part : F → F → PowerDef F → PowerDef F
  gate_part reduction pg_reduction p =
      let gated = p.read_op.leakage ⊗ pg_reduction in
      record p {
        read_op = record (p.read_op) {
          longer_channel_leakage = p.read_op.leakage ⊗ reduction;
          power_gated_leakage = gated;
          power_gated_with_long_channel_leakage = gated ⊗ reduction;
        };
      }

  unfoldable pub reduce_router : Technology F → Router F → Router F
  reduce_router g_tp r =
      let reduction =
        longer_channel_device_reduction g_tp DeviceTy.uncore_device CoreType.inorder in
      let pg_reduction = power_gating_leakage_reduction g_tp false in
      let buffer = gate_part reduction pg_reduction r.buffer_power in
      let crossbar = gate_part reduction pg_reduction r.crossbar_power in
      let arbiter = gate_part reduction pg_reduction r.arbiter_power in
      record r {
        power = record (r.power) {
          read_op = record (r.power.read_op) {
            longer_channel_leakage = r.power.read_op.leakage ⊗ reduction;
            power_gated_leakage =
                buffer.read_op.power_gated_leakage ⊕ crossbar.read_op.power_gated_leakage
                ⊕ arbiter.read_op.power_gated_leakage;
            power_gated_with_long_channel_leakage =
                buffer.read_op.power_gated_with_long_channel_leakage
                ⊕ crossbar.read_op.power_gated_with_long_channel_leakage
                ⊕ arbiter.read_op.power_gated_with_long_channel_leakage;
          };
        };
        buffer_power = buffer;
        crossbar_power = crossbar;
        arbiter_power = arbiter;
      }

  module _ (new_wire : (length width_scaling space_scaling : F) → Wire F)
      (new_router : NocParam F → F → Router F) (g_tp : Technology F) (opt_for_clk : Bool) where
    unfoldable pub init_router : Noc F → Noc F
    init_router n =
        let router = reduce_router g_tp (new_router n.param n.m_traffic_pattern) in
        record n { router = some router; area = n.area ⊕ router.area ⊗ d.nat n.param.total_nodes }

    -- The length of one link: the quotient of the two ints is an int.
    abbrev pub split_link : NocParam F → F → F
    split_link p len =
        let part = len ⊘ d.nat ((p.horizontal_nodes + p.vertical_nodes) / 2) in
        if ltb 1 p.total_nodes then part ⊘ d.nat 2 else part

    abbrev pub link_interface : Noc F → InputParameter F
    link_interface n = record (n.interface_ip) {
      throughput = n.param.link_throughput ⊘ n.param.clock_rate;
      latency = n.param.link_latency ⊘ n.param.clock_rate;
    }

    abbrev pub new_link : F → Noc F → Option (Interconnect F)
    new_link link_len n = Interconnect.construct new_wire g_tp opt_for_clk (
        Interconnect.fresh (link_interface n) DeviceTy.uncore_device CoreType.inorder
          n.param.flit_size (split_link n.param link_len) true n.param.route_over_perc true
          (d.lit 10 1) (d.lit 10 1))

    abbrev pub with_link : Noc F → Interconnect F → Noc F
    with_link n link =
        let per_router = n.per_router_area ⊕ link.area ⊗ n.param.global_linked_ports in
        record n {
          interface_ip = link_interface n;
          link_bus = some link;
          per_router_area = per_router;
          area = n.area ⊕ per_router ⊗ d.nat n.param.total_nodes;
        }

    unfoldable pub init_link_bus : F → Noc F → Option (Noc F)
    init_link_bus link_len n = do
      len ← assert (d.lt (d.nat 0) link_len) link_len
      link ← new_link len n
      some (with_link n link)

    -- The members before anything is built.
    abbrev pub fresh : System F → ℕ → InputParameter F → F → NocParam F → Noc F
    fresh sys i ip m_traffic_pattern param = record {
      param = param;
      interface_ip = noc_interface (sys.noc i) (noc_wires sys.embedded ip);
      m_traffic_pattern = m_traffic_pattern;
      area = d.nat 0;
      power = no_power;
      rt_power = no_power;
      router = none;
      link_bus = none;
      link_bus_rt_power = no_power;
      per_router_area = d.nat 0;
      per_router_power = no_power;
    }

    -- The constructor for the i-th network.
    unfoldable pub construct :
        System F → ℕ → InputParameter F → (m_traffic_pattern link_len : F) → Option (Noc F)
    construct sys i ip m_traffic_pattern link_len = do
      param ← set_noc_param sys (sys.noc i)
      let n = fresh sys i ip m_traffic_pattern param
      if param.type then some (init_router n) else init_link_bus link_len n

  -- computeEnergy(true), the router's part and the links' part
  abbrev pub peak_router : Noc F → Noc F
  peak_router n = elim n.router [
    | none ↦ n
    | some r ↦
        let nodes = d.nat n.param.total_nodes in
        let own =
          scale_power r.power
            (set_pppm (d.nat 1 ⊗ n.param.duty_cycle) (d.nat 1) (d.nat 1) (d.nat 1)) in
        record n {
          router = some (record r { power = own });
          power = add_power n.power (scale_power own (set_pppm nodes nodes nodes nodes));
        }
  ]

  -- Local ports have no links.
  abbrev pub linked_ports : NocParam F → F
  linked_ports p = if p.type then d.nat p.min_ports ⊖ d.nat 1 else d.nat p.min_ports

  abbrev pub peak_links : Noc F → Noc F
  peak_links n = elim n.link_bus [
    | none ↦ n
    | some link ↦
        let nodes = d.nat n.param.total_nodes in
        let ports = n.param.global_linked_ports in
        let per_router = scale_power link.power (
          set_pppm (d.nat 1 ⊗ n.m_traffic_pattern ⊗ n.param.duty_cycle ⊗ linked_ports n.param) ports
            ports ports) in
        record n {
          per_router_power = per_router;
          power = add_power n.power (scale_power per_router (set_pppm nodes nodes nodes nodes));
        }
  ]

  -- computeEnergy(false)
  abbrev pub runtime_part : F → PowerDef F → F → PowerDef F
  runtime_part accesses old dynamic = record old {
    read_op = record (old.read_op) { dynamic = dynamic ⊗ accesses };
  }

  abbrev pub runtime_router : F → Noc F → Noc F
  runtime_router accesses n = elim n.router [
    | none ↦ n
    | some r ↦
        let buffer =
          runtime_part accesses r.buffer_rt_power
            (r.buffer_power.read_op.dynamic ⊕ r.buffer_power.write_op.dynamic) in
        let crossbar = runtime_part accesses r.crossbar_rt_power r.crossbar_power.read_op.dynamic in
        let arbiter = runtime_part accesses r.arbiter_rt_power r.arbiter_power.read_op.dynamic in
        let rt =
          add_power
            (add_power r.rt_power (
              scale_power (add_power (add_power buffer crossbar) arbiter)
                (set_pppm (d.nat 1) (d.nat 0) (d.nat 0) (d.nat 0))))
            (scale_power r.power pppm_lkg) in
        record n {
          router = some (record r {
            rt_power = rt;
            buffer_rt_power = buffer;
            crossbar_rt_power = crossbar;
            arbiter_rt_power = arbiter;
          });
          rt_power = add_power n.rt_power rt;
        }
  ]

  abbrev pub runtime_links : F → Noc F → Noc F
  runtime_links accesses n = elim n.link_bus [
    | none ↦ n
    | some link ↦
        let rt = scale_power link.power (set_pppm accesses (d.nat 1) (d.nat 1) accesses) in
        record n { link_bus_rt_power = rt; rt_power = add_power n.rt_power rt }
  ]

  unfoldable pub compute_energy : Bool → System F → ℕ → Noc F → Noc F
  compute_energy is_tdp sys i n =
      if is_tdp
      then peak_links (peak_router n)
      else runtime_links (sys.noc i).total_accesses (runtime_router (sys.noc i).total_accesses n)
