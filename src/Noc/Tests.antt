-- ===== src/Noc/Tests.antt =====
-- A bus over four nodes.
use wattwatcher.Prelude.{is_some, refl, ◌≡◌, ℕ, true, Ensures}
use wattwatcher.Double.{nat_double, nat-IsExact}
use wattwatcher.System.{System}
use wattwatcher.Interconnect
use wattwatcher.Noc.{init_link_bus, set_noc_param, construct}
use wattwatcher.Noc.Energy.{IsBuilt, construct-IsBuilt}
use wattwatcher.Noc.Leakage.{IsNodewise, evaluated, construct-IsNodewise}
use wattwatcher.Samples.{blank_input, blank_noc, blank_system, technology, wire, router}

abbrev bus : System ℕ
bus = record blank_system {
  number_of_nocs = 1;
  noc = λ i. record blank_noc {
    clockrate = 1;
    link_throughput = 5_000_000;
    chip_coverage = 1;
    route_over_perc = 1;
    horizontal_nodes = 2;
    vertical_nodes = 2;
    flit_bits = 4;
  };
}

construct-IsBuilt_example :
    Ensures IsBuilt (construct wire router technology true bus 0 blank_input 1 8)
construct-IsBuilt_example = construct-IsBuilt wire router technology true bus 0 blank_input 1 8

construct-IsNodewise_example :
    Ensures
      (λ n. IsNodewise (evaluated bus 0 n))
      (construct wire router technology true bus 0 blank_input 1 40)
construct-IsNodewise_example =
    construct-IsNodewise nat-IsExact wire router technology true (λ p m. refl) bus 0 blank_input 1
      40

constructs : is_some (construct wire router technology true bus 0 blank_input 1 40) ≡ true
unfolding construct set_noc_param init_link_bus Interconnect.construct Interconnect.meet_throughput
    Interconnect.compute Interconnect.widen_until Interconnect.finish
constructs = refl
