-- ===== src/Processor/Tests.antt =====
-- A chip with two equal cores, private caches, differing directories, a flash controller and a bus.
use wattwatcher.Prelude.{is_some, ◌+◌, ℕ, ◌≡◌, refl, true, false, inr, Option, Ensures}
use wattwatcher.Double.{nat_double, nat-IsExact}
use wattwatcher.Cacti.{InputParameter}
use wattwatcher.System.{System, proc_param}
use wattwatcher.Total.{add_units, for_units, heterogeneous_step, homogeneous_step, add_total}
use wattwatcher.Noc
use wattwatcher.Noc.{Noc, Router, NocParam, init_link_bus, compute_energy}
use wattwatcher.Network.{lay_link, add_networks, build_networks, lay_links, power_networks}
use wattwatcher.Interconnect
use wattwatcher.Processor.{add_caches, add_controllers, Parts, construct, add_l1_directories}
use wattwatcher.Processor.Balance.{sum_kinds, construct_balance}
use wattwatcher.Samples.{blank_input, blank_noc, blank_system, technology, part, wire, router}

abbrev chip : System ℕ
chip = record blank_system {
  number_of_cores = 2;
  number_of_l2s = 2;
  number_of_l3s = 1;
  number_of_nocs = 1;
  homogeneous_cores = 1;
  homogeneous_l2s = 1;
  private_l2 = true;
  flashc_number_mcs = 3;
  noc = λ _. record blank_noc {
    clockrate = 1;
    link_throughput = 5_000_000;
    chip_coverage = 1;
    route_over_perc = 1;
    horizontal_nodes = 1;
    vertical_nodes = 1;
    flit_bits = 4;
    duty_cycle = 1;
  };
}

abbrev parts : Parts ℕ
parts = record {
  cores = λ i. part 5;
  l2array = λ i. part 2;
  l3array = λ i. part (i + 4);
  l1dirarray = λ i. part (i + 1);
  l2dirarray = λ i. part 1;
  mc = part 3;
  flashcontroller = part 6;
  niu = part 1;
  pcie = part 1;
}

abbrev build : InputParameter ℕ → ℕ → ℕ → Option (Noc ℕ)
build ip i len = Noc.construct wire router technology true chip i ip 1 len

abbrev lay : ℕ → Noc ℕ → Option (Noc ℕ)
lay len c = init_link_bus wire router technology true len c

abbrev energy : ℕ → Noc ℕ → Noc ℕ
energy i c = compute_energy false chip i (compute_energy true chip i c)

construct_balance_example :
    Ensures (λ p. p.chip ≡ sum_kinds p) (construct build lay energy chip blank_input parts)
unfolding proc_param
construct_balance_example =
    construct_balance nat-IsExact build lay energy chip blank_input parts (inr refl)

constructs : is_some (construct build lay energy chip blank_input parts) ≡ true
unfolding construct add_networks build_networks lay_links power_networks proc_param Noc.construct
    Noc.set_noc_param init_link_bus add_controllers add_total add_caches add_units for_units
    add_l1_directories heterogeneous_step homogeneous_step Interconnect.construct
    Interconnect.meet_throughput Interconnect.compute Interconnect.widen_until Interconnect.finish
    lay_link
constructs = refl
