-- ===== src/Description/Noc.antt =====
-- system_NoC of fast_mcpat/XML_Parse.h, and what fast_mcpat/XML_Parse.cc reads of it.
use wattwatcher.Prelude.{ℕ, List, [], ◌∷◌, Bool, true, String}
use wattwatcher.Double.{Double}
use wattwatcher.Text.{ℤ}
use wattwatcher.Description.{Entry, int, bool, double, text, ints}

pub record Xbar0SystemNoc (F : Type 0) : Type 0 where
  pub number_of_inputs_of_crossbars : ℤ
  pub number_of_outputs_of_crossbars : ℤ
  pub flit_bits : ℤ
  pub input_buffer_entries_per_port : ℤ
  pub ports_of_input_buffer : ℕ → ℤ
  pub crossbar_accesses : F

pub record SystemNoc (F : Type 0) : Type 0 where
  pub clockrate : ℤ
  pub type : Bool
  pub has_global_link : Bool
  pub topology : String
  pub horizontal_nodes : ℤ
  pub vertical_nodes : ℤ
  pub link_throughput : ℤ
  pub link_latency : ℤ
  pub input_ports : ℤ
  pub output_ports : ℤ
  pub virtual_channel_per_port : ℤ
  pub flit_bits : ℤ
  pub input_buffer_entries_per_vc : ℤ
  pub ports_of_input_buffer : ℕ → ℤ
  pub dual_pump : ℤ
  pub number_of_crossbars : ℤ
  pub crossbar_type : String
  pub crosspoint_type : String
  pub xbar0 : Xbar0SystemNoc F
  pub arbiter_type : ℤ
  pub chip_coverage : F
  pub vdd : F
  pub power_gating_vcc : F
  pub total_accesses : F
  pub duty_cycle : F
  pub route_over_perc : F

module _ {F : Type 0} ⦃d : Double F⦄ where
  unfoldable pub xbar0_params : List (Entry F (Xbar0SystemNoc F))
  xbar0_params =
      int "number_of_inputs_of_crossbars" (λ v r. record r { number_of_inputs_of_crossbars = v })
      ∷ int "number_of_outputs_of_crossbars"
          (λ v r. record r { number_of_outputs_of_crossbars = v })
      ∷ int "flit_bits" (λ v r. record r { flit_bits = v })
      ∷ int "input_buffer_entries_per_port" (λ v r. record r { input_buffer_entries_per_port = v })
      ∷ ints "ports_of_input_buffer" (λ r. r.ports_of_input_buffer)
          (λ v r. record r { ports_of_input_buffer = v })
      ∷ []

  unfoldable pub noc_params : List (Entry F (SystemNoc F))
  noc_params =
      int "clockrate" (λ v r. record r { clockrate = v })
      ∷ bool "type" (λ v r. record r { type = v })
      ∷ double "vdd" (λ v r. record r { vdd = v })
      ∷ double "power_gating_vcc" (λ v r. record r { power_gating_vcc = v })
      ∷ text "topology" (λ v r. record r { topology = v })
      ∷ int "horizontal_nodes" (λ v r. record r { horizontal_nodes = v })
      ∷ int "vertical_nodes" (λ v r. record r { vertical_nodes = v })
      ∷ bool "has_global_link" (λ v r. record r { has_global_link = v })
      ∷ int "link_throughput" (λ v r. record r { link_throughput = v })
      ∷ int "link_latency" (λ v r. record r { link_latency = v })
      ∷ int "input_ports" (λ v r. record r { input_ports = v })
      ∷ int "output_ports" (λ v r. record r { output_ports = v })
      ∷ int "virtual_channel_per_port" (λ v r. record r { virtual_channel_per_port = v })
      ∷ int "flit_bits" (λ v r. record r { flit_bits = v })
      ∷ int "input_buffer_entries_per_vc" (λ v r. record r { input_buffer_entries_per_vc = v })
      ∷ int "dual_pump" (λ v r. record r { dual_pump = v })
      ∷ double "chip_coverage" (λ v r. record r { chip_coverage = v })
      ∷ double "link_routing_over_percentage" (λ v r. record r { route_over_perc = v })
      ∷ ints "ports_of_input_buffer" (λ r. r.ports_of_input_buffer)
          (λ v r. record r { ports_of_input_buffer = v })
      ∷ int "number_of_crossbars" (λ v r. record r { number_of_crossbars = v })
      ∷ text "crossbar_type" (λ v r. record r { crossbar_type = v })
      ∷ text "crosspoint_type" (λ v r. record r { crosspoint_type = v })
      ∷ int "arbiter_type" (λ v r. record r { arbiter_type = v })
      ∷ []

  unfoldable pub noc_stats : List (Entry F (SystemNoc F))
  noc_stats =
      double "total_accesses" (λ v r. record r { total_accesses = v })
      ∷ double "duty_cycle" (λ v r. record r { duty_cycle = v })
      ∷ []

  -- ports_of_input_buffer[20] = 1, where crossbar_accesses lies behind the array: an int, 1, is written
  -- over the lower half of that double.
  abbrev pub write_behind_buffer : (write_low : F → F) → Xbar0SystemNoc F → Xbar0SystemNoc F
  write_behind_buffer write_low r = record r { crossbar_accesses = write_low r.crossbar_accesses }

  unfoldable pub initialize_xbar0 : (write_low : F → F) → Xbar0SystemNoc F → Xbar0SystemNoc F
  initialize_xbar0 write_low r = record (write_behind_buffer write_low r) {
    number_of_inputs_of_crossbars = ℤ.pos 1;
    number_of_outputs_of_crossbars = ℤ.pos 1;
    flit_bits = ℤ.pos 1;
    input_buffer_entries_per_port = ℤ.pos 1;
    crossbar_accesses = d.nat 1;
  }

  unfoldable pub initialize_noc : (write_low : F → F) → SystemNoc F → SystemNoc F
  initialize_noc write_low r = record r {
    clockrate = ℤ.pos 1;
    type = true;
    chip_coverage = d.nat 1;
    vdd = d.nat 0;
    power_gating_vcc = d.neg (d.nat 1);
    has_global_link = true;
    topology = "default";
    horizontal_nodes = ℤ.pos 1;
    vertical_nodes = ℤ.pos 1;
    input_ports = ℤ.pos 1;
    output_ports = ℤ.pos 1;
    virtual_channel_per_port = ℤ.pos 1;
    flit_bits = ℤ.pos 1;
    input_buffer_entries_per_vc = ℤ.pos 1;
    total_accesses = d.nat 1;
    duty_cycle = d.nat 1;
    route_over_perc = d.lit 5 1;
    ports_of_input_buffer = λ j. ℤ.pos 1;
    number_of_crossbars = ℤ.pos 1;
    crossbar_type = "default";
    crosspoint_type = "default";
    xbar0 = initialize_xbar0 write_low r.xbar0;
  }
