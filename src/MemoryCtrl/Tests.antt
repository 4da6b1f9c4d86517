-- ===== src/MemoryCtrl/Tests.antt =====
-- A controller with two channels and a physical interface, over whole numbers that keep the digits of a
-- literal.
use wattwatcher.Prelude.{is_some, ℕ, ◌≡◌, refl, true, Ensures, arith}
use wattwatcher.Double.{Double}
use wattwatcher.Array
use wattwatcher.System.{System}
use wattwatcher.Cacti.{with_voltages}
use wattwatcher.MemoryCtrl.{MemoryCtrlType, SystemMc, mc_param}
use wattwatcher.MemoryCtrl.FrontEnd
use wattwatcher.MemoryCtrl.Backend
use wattwatcher.MemoryCtrl.Controller.{construct, has_phy}
use wattwatcher.MemoryCtrl.Balance.{IsSum, evaluated_balance}
use wattwatcher.MemoryCtrl.Idle.{RefreshesOnly, evaluated_idle}
use wattwatcher.Processor.Memory.{IsTenth, memory-IsTenth}
use wattwatcher.Samples.{digits, digits-IsExact, devices, arrays, blank_input, blank_system}

instance abbrev keeps_digits : Double ℕ
keeps_digits = digits

abbrev mc : SystemMc ℕ
mc = record {
  peak_transfer_rate = 3200;
  number_mcs = 2;
  with_phy = true;
  type = 1;
  mc_clock = 200;
  llc_line_length = 64;
  memory_channels_per_mc = 2;
  number_ranks = 2;
  req_window_size_per_channel = 32;
  io_buffer_size_per_channel = 32;
  databus_width = 128;
  addressbus_width = 51;
  lvds = true;
  vdd = 0;
  power_gating_vcc = 0;
  memory_reads = 0;
  memory_writes = 0;
  physical_address_width = 52;
}

abbrev sys : System ℕ
sys = record blank_system {
  total_cycles = 1_000_000;
  target_core_clockrate = 1;
  mc_number_mcs = 2;
  mc_memory_channels_per_mc = 2;
}

evaluated_balance_example :
    Ensures
      (λ c. (is_some c.phy ≡ has_phy c.mcp) × IsSum c)
      (construct devices arrays MemoryCtrlType.mc sys mc blank_input)
evaluated_balance_example =
    evaluated_balance digits-IsExact devices arrays MemoryCtrlType.mc sys mc blank_input

evaluated_idle_example :
    Ensures RefreshesOnly (construct devices arrays MemoryCtrlType.mc sys mc blank_input)
evaluated_idle_example =
    evaluated_idle digits-IsExact devices arrays MemoryCtrlType.mc sys mc blank_input refl refl
      (omega arith) refl

constructs : is_some (construct devices arrays MemoryCtrlType.mc sys mc blank_input) ≡ true
unfolding construct mc_param with_voltages FrontEnd.construct Backend.construct Array.construct
    Array.optimize_array Array.compute_base_power Array.improve Array.search Array.choose
    Array.warnings
constructs = refl

memory-IsTenth_example :
    Ensures (IsTenth sys) (construct devices arrays MemoryCtrlType.mc sys mc blank_input)
memory-IsTenth_example =
    memory-IsTenth digits-IsExact devices arrays MemoryCtrlType.mc sys mc blank_input refl refl refl
      (omega arith) refl refl
