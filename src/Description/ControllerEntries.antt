-- ===== src/Description/ControllerEntries.antt =====
-- What fast_mcpat/XML_Parse.cc reads of the controllers, and the values that it starts from.
use wattwatcher.Prelude.{List, [], ◌∷◌, true, false}
use wattwatcher.Double.{Double}
use wattwatcher.Text.{ℤ}
use wattwatcher.Description.{Entry, int, bool, double, of_int}
use wattwatcher.Description.Controllers.{SystemMem, SystemMc, SystemNiu, SystemPcie}

module _ {F : Type 0} ⦃d : Double F⦄ where
  unfoldable pub mc_params : List (Entry F (SystemMc F))
  mc_params =
      int "mc_clock" (λ v r. record r { mc_clock = v })
      ∷ double "vdd" (λ v r. record r { vdd = v })
      ∷ double "power_gating_vcc" (λ v r. record r { power_gating_vcc = v })
      ∷ int "block_size" (λ v r. record r { llc_line_length = v })
      ∷ int "number_mcs" (λ v r. record r { number_mcs = v })
      ∷ int "memory_channels_per_mc" (λ v r. record r { memory_channels_per_mc = v })
      ∷ int "req_window_size_per_channel" (λ v r. record r { req_window_size_per_channel = v })
      ∷ int "IO_buffer_size_per_channel" (λ v r. record r { io_buffer_size_per_channel = v })
      ∷ int "databus_width" (λ v r. record r { databus_width = v })
      ∷ int "addressbus_width" (λ v r. record r { addressbus_width = v })
      ∷ int "peak_transfer_rate" (λ v r. record r { peak_transfer_rate = of_int v })
      ∷ int "number_ranks" (λ v r. record r { number_ranks = v })
      ∷ bool "LVDS" (λ v r. record r { lvds = v })
      ∷ int "type" (λ v r. record r { type = v })
      ∷ bool "withPHY" (λ v r. record r { with_phy = v })
      ∷ []

  unfoldable pub mc_stats : List (Entry F (SystemMc F))
  mc_stats =
      double "memory_accesses" (λ v r. record r { memory_accesses = v })
      ∷ double "memory_reads" (λ v r. record r { memory_reads = v })
      ∷ double "memory_writes" (λ v r. record r { memory_writes = v })
      ∷ []

  unfoldable pub niu_params : List (Entry F (SystemNiu F))
  niu_params =
      int "clockrate" (λ v r. record r { clockrate = v })
      ∷ int "number_units" (λ v r. record r { number_units = v })
      ∷ int "type" (λ v r. record r { type = v })
      ∷ double "vdd" (λ v r. record r { vdd = v })
      ∷ double "power_gating_vcc" (λ v r. record r { power_gating_vcc = v })
      ∷ []

  unfoldable pub niu_stats : List (Entry F (SystemNiu F))
  niu_stats =
      double "duty_cycle" (λ v r. record r { duty_cycle = v })
      ∷ double "total_load_perc" (λ v r. record r { total_load_perc = v })
      ∷ []

  unfoldable pub pcie_params : List (Entry F (SystemPcie F))
  pcie_params =
      int "clockrate" (λ v r. record r { clockrate = v })
      ∷ int "number_units" (λ v r. record r { number_units = v })
      ∷ int "num_channels" (λ v r. record r { num_channels = v })
      ∷ int "type" (λ v r. record r { type = v })
      ∷ double "vdd" (λ v r. record r { vdd = v })
      ∷ double "power_gating_vcc" (λ v r. record r { power_gating_vcc = v })
      ∷ bool "withPHY" (λ v r. record r { with_phy = v })
      ∷ []

  unfoldable pub pcie_stats : List (Entry F (SystemPcie F))
  pcie_stats =
      double "duty_cycle" (λ v r. record r { duty_cycle = v })
      ∷ double "total_load_perc" (λ v r. record r { total_load_perc = v })
      ∷ []

  unfoldable pub flashc_params : List (Entry F (SystemMc F))
  flashc_params =
      int "number_flashcs" (λ v r. record r { number_mcs = v })
      ∷ double "vdd" (λ v r. record r { vdd = v })
      ∷ double "power_gating_vcc" (λ v r. record r { power_gating_vcc = v })
      ∷ int "peak_transfer_rate" (λ v r. record r { peak_transfer_rate = of_int v })
      ∷ int "type" (λ v r. record r { type = v })
      ∷ bool "withPHY" (λ v r. record r { with_phy = v })
      ∷ []

  unfoldable pub flashc_stats : List (Entry F (SystemMc F))
  flashc_stats =
      double "duty_cycle" (λ v r. record r { duty_cycle = v })
      ∷ double "total_load_perc" (λ v r. record r { total_load_perc = v })
      ∷ []

  unfoldable pub initialize_mem : SystemMem F → SystemMem F
  initialize_mem r = record r {
    mem_tech_node = ℤ.pos 1;
    device_clock = ℤ.pos 1;
    capacity_per_channel = ℤ.pos 1;
    number_ranks = ℤ.pos 1;
    peak_transfer_rate = ℤ.pos 1;
    num_banks_of_dram_chip = ℤ.pos 1;
    block_width_of_dram_chip = ℤ.pos 1;
    output_width_of_dram_chip = ℤ.pos 1;
    page_size_of_dram_chip = ℤ.pos 1;
    burstlength_of_dram_chip = ℤ.pos 1;
    internal_prefetch_of_dram_chip = ℤ.pos 1;
    memory_accesses = d.nat 1;
    memory_reads = d.nat 1;
    memory_writes = d.nat 1;
  }

  unfoldable pub initialize_mc : SystemMc F → SystemMc F
  initialize_mc r = record r {
    mc_clock = ℤ.pos 1;
    number_mcs = ℤ.pos 1;
    peak_transfer_rate = d.nat 1;
    memory_channels_per_mc = ℤ.pos 1;
    number_ranks = ℤ.pos 1;
    req_window_size_per_channel = ℤ.pos 1;
    io_buffer_size_per_channel = ℤ.pos 1;
    databus_width = ℤ.pos 1;
    addressbus_width = ℤ.pos 1;
    memory_accesses = d.nat 1;
    memory_reads = d.nat 1;
    memory_writes = d.nat 1;
    lvds = true;
    type = ℤ.pos 1;
    vdd = d.nat 0;
    power_gating_vcc = d.neg (d.nat 1);
  }

  unfoldable pub initialize_niu : SystemNiu F → SystemNiu F
  initialize_niu r = record r {
    clockrate = ℤ.pos 1;
    number_units = ℤ.pos 1;
    type = ℤ.pos 1;
    vdd = d.nat 0;
    power_gating_vcc = d.neg (d.nat 1);
    duty_cycle = d.nat 1;
    total_load_perc = d.nat 1;
  }

  unfoldable pub initialize_pcie : SystemPcie F → SystemPcie F
  initialize_pcie r = record r {
    clockrate = ℤ.pos 1;
    number_units = ℤ.pos 1;
    num_channels = ℤ.pos 1;
    type = ℤ.pos 1;
    vdd = d.nat 0;
    power_gating_vcc = d.neg (d.nat 1);
    with_phy = false;
    duty_cycle = d.nat 1;
    total_load_perc = d.nat 1;
  }

  unfoldable pub initialize_flashc : SystemMc F → SystemMc F
  initialize_flashc r = record r {
    mc_clock = ℤ.pos 1;
    number_mcs = ℤ.pos 1;
    vdd = d.nat 0;
    power_gating_vcc = d.neg (d.nat 1);
    peak_transfer_rate = d.nat 1;
    memory_channels_per_mc = ℤ.pos 1;
    number_ranks = ℤ.pos 1;
    req_window_size_per_channel = ℤ.pos 1;
    io_buffer_size_per_channel = ℤ.pos 1;
    databus_width = ℤ.pos 1;
    addressbus_width = ℤ.pos 1;
    memory_accesses = d.nat 1;
    memory_reads = d.nat 1;
    memory_writes = d.nat 1;
    lvds = true;
    with_phy = false;
    type = ℤ.pos 1;
    duty_cycle = d.nat 1;
    total_load_perc = d.nat 1;
  }
