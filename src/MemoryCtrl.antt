-- ===== src/MemoryCtrl.antt =====
-- The memory controller (fast_mcpat/memoryctrl.h, fast_mcpat/memoryctrl.cc): its parameters and what
-- its three parts share. `none` is a run that an exit or an assert stops.
pub mod Backend
pub mod Phy
pub mod FrontEnd
pub mod Controller
pub mod Balance
pub mod Refresh
pub mod Idle
mod Tests
use wattwatcher.Prelude.{ℕ, ◌+◌, ◌*◌, Bool, true, false, Option, none, some}
use wattwatcher.Double.{Double, ◌⊕◌, ◌⊗◌, ◌⊘◌}
use wattwatcher.Power.{PowerDef}
use wattwatcher.System.{System}

-- MemoryCtrl_type
pub data MemoryCtrlType : Type 0 where
  mc flashc : MemoryCtrlType

-- system_mc and the width of a physical address
pub record SystemMc (F : Type 0) : Type 0 where
  pub peak_transfer_rate : F
  pub number_mcs : ℕ
  pub with_phy : Bool
  pub type : ℕ
  pub mc_clock : ℕ
  pub llc_line_length : ℕ
  pub memory_channels_per_mc : ℕ
  pub number_ranks : ℕ
  pub req_window_size_per_channel : ℕ
  pub io_buffer_size_per_channel : ℕ
  pub databus_width : ℕ
  pub addressbus_width : ℕ
  pub lvds : Bool
  pub vdd : F
  pub power_gating_vcc : F
  pub memory_reads : F
  pub memory_writes : F
  pub physical_address_width : ℕ

pub record McParam (F : Type 0) : Type 0 where
  pub clock_rate : F
  pub execution_time : F
  pub llc_block_size : ℕ
  pub data_bus_width : ℕ
  pub address_bus_width : ℕ
  pub opcode_w : ℕ
  pub num_mcs : ℕ
  pub num_channels : ℕ
  pub reads : F
  pub writes : F
  pub peak_data_transfer_rate : F
  pub mem_rank : ℕ
  pub frontend_duty_cycle : F
  pub lvds : Bool
  pub type : ℕ
  pub with_phy : Bool

-- stats_t, of which the controller reads two figures
pub record Accesses (F : Type 0) : Type 0 where
  pub read : F
  pub write : F

-- (int)ceil(n / 8.0)
abbrev pub eighth : {F : Type 0} → Double F → ℕ → ℕ
eighth d n = d.ceil (d.div (d.nat n) (d.lit 80 1))

module _ {F : Type 0} ⦃d : Double F⦄ where
  -- set_mc_param, but for the voltages. The clock is pumped twice, and one bit in eight is for errors.
  unfoldable pub mc_param : MemoryCtrlType → System F → SystemMc F → Option (McParam F)
  mc_param MemoryCtrlType.mc sys s = some (record {
    clock_rate = d.nat (s.mc_clock * 2) ⊗ d.nat 1_000_000;
    execution_time = sys.total_cycles ⊘ (sys.target_core_clockrate ⊗ d.nat 1_000_000);
    llc_block_size = eighth d s.llc_line_length + s.llc_line_length;
    data_bus_width = eighth d s.databus_width + s.databus_width;
    address_bus_width = s.addressbus_width;
    opcode_w = 16;
    num_mcs = s.number_mcs;
    num_channels = s.memory_channels_per_mc;
    reads = s.memory_reads;
    writes = s.memory_writes;
    peak_data_transfer_rate = s.peak_transfer_rate;
    mem_rank = s.number_ranks;
    frontend_duty_cycle = d.lit 5 1;
    lvds = s.lvds;
    type = s.type;
    with_phy = s.with_phy;
  })
  mc_param MemoryCtrlType.flashc sys s = none

  abbrev pub with_dynamic : F → PowerDef F → PowerDef F
  with_dynamic x p = record p { read_op = record (p.read_op) { dynamic = x } }

  -- A tenth of the peak power goes to refreshing and scrubbing over the whole run.
  abbrev pub with_refresh : McParam F → PowerDef F → PowerDef F → PowerDef F
  with_refresh p peak rt =
      with_dynamic
        (rt.read_op.dynamic
          ⊕ peak.read_op.dynamic ⊗ d.lit 1 1 ⊗ p.clock_rate ⊗ d.nat p.num_mcs ⊗ p.execution_time)
        rt

  -- For peak power the links are shared between reads and writes.
  abbrev pub bus_accesses : Bool → McParam F → Accesses F
  bus_accesses true p = record {
    read = d.lit 5 1 ⊗ d.nat p.num_channels;
    write = d.lit 5 1 ⊗ d.nat p.num_channels;
  }
  bus_accesses false p = record { read = p.reads; write = p.writes }
