-- ===== src/Network/Tests.antt =====
-- Two different networks of routers, of which the second has global links.
use wattwatcher.Prelude.{is_some, refl, ℕ, ◌≡◌, true, false, Option, Ensures, ◌==◌}
use wattwatcher.Double.{nat_double, nat-IsExact}
use wattwatcher.System.{System}
use wattwatcher.Total.{add_total, no_total}
use wattwatcher.Noc
use wattwatcher.Noc.{Noc, init_link_bus, compute_energy}
use wattwatcher.Interconnect
use wattwatcher.Network.{add_networks, build_networks, lay_links, lay_link, power_networks}
use wattwatcher.Network.Balance.{add_networks_balance}
use wattwatcher.Samples.{blank_input, blank_noc, blank_system, technology, wire, router}

abbrev grid : System ℕ
grid = record blank_system {
  number_of_nocs = 2;
  noc = λ i. record blank_noc {
    type = true;
    has_global_link = i == 1;
    clockrate = 1;
    link_throughput = 5_000_000;
    chip_coverage = 1;
    route_over_perc = 1;
    input_ports = 2;
    output_ports = 2;
    horizontal_nodes = 2;
    vertical_nodes = 2;
    flit_bits = 4;
    duty_cycle = 1;
  };
}

abbrev build : ℕ → ℕ → Option (Noc ℕ)
build i len = Noc.construct wire router technology true grid i blank_input 1 len

abbrev lay : ℕ → Noc ℕ → Option (Noc ℕ)
lay len c = init_link_bus wire router technology true len c

abbrev energy : ℕ → Noc ℕ → Noc ℕ
energy i c = compute_energy false grid i (compute_energy true grid i c)

add_networks_balance_example :
    Ensures
      (λ t. t.chip ≡ add_total no_total t.kind)
      (add_networks grid false 2 build lay energy no_total)
add_networks_balance_example =
    add_networks_balance nat-IsExact grid 2 build lay energy false no_total

adds : is_some (add_networks grid false 2 build lay energy no_total) ≡ true
unfolding add_networks build_networks lay_links lay_link power_networks Noc.construct
    Noc.set_noc_param init_link_bus Noc.init_router Noc.reduce_router Interconnect.construct
    Interconnect.meet_throughput Interconnect.compute Interconnect.widen_until Interconnect.finish
adds = refl
