-- ===== src/MemoryCtrl/Backend.antt =====
-- MCBackend, the transaction engine (fast_mcpat/memoryctrl.cc).
use wattwatcher.Prelude.{◌*◌, Bool, ◌==◌, Option, none, some, if◌then◌else◌}
use wattwatcher.Double.{Double, ◌⊕◌, ◌⊖◌, ◌⊗◌, ◌⊘◌}
use wattwatcher.Power.{PowerDef, no_power, add_power, scale_power, pppm_lkg}
use wattwatcher.Basic.{Technology}
use wattwatcher.Cacti.{InputParameter}
use wattwatcher.Devices.{Devices, subthreshold, through_gate, base_power}
use wattwatcher.MemoryCtrl.{MemoryCtrlType, McParam, with_dynamic, with_refresh, bus_accesses}

pub record Backend (F : Type 0) : Type 0 where
  pub mcp : McParam F
  pub area : F
  pub power_t : PowerDef F
  pub power : PowerDef F
  pub rt_power : PowerDef F

module _ {F : Type 0} ⦃d : Double F⦄ where
  -- area / 2 * core_tx_density * leakage of an inverter * Vdd
  abbrev pub by_density : Technology F → F → F → F
  by_density g_tp area leakage = area ⊘ d.nat 2 ⊗ g_tp.core_tx_density ⊗ leakage ⊗ g_tp.vdd

  abbrev pub backend_area : McParam F → InputParameter F → F
  backend_area p ip =
      if p.type == 0
      then (d.lit 27927 4 ⊗ d.log (p.peak_data_transfer_rate ⊗ d.nat 2) ⊖ d.lit 19862 3)
        ⊘ d.lit 20 1
        ⊗ d.nat p.data_bus_width
        ⊘ d.lit 1280 1
        ⊗ (ip.f_sz_um ⊘ d.lit 9 2)
        ⊗ d.nat p.num_channels
        ⊗ d.nat 1_000_000
      else d.lit 15 2
        ⊗ d.nat p.data_bus_width
        ⊘ d.lit 720 1
        ⊗ (ip.f_sz_um ⊘ d.lit 65 3)
        ⊗ (ip.f_sz_um ⊘ d.lit 65 3)
        ⊗ d.nat p.num_channels
        ⊗ d.nat 1_000_000

  -- C_MCB, the capacity for each bit
  abbrev pub bit_capacity : InputParameter F → F
  bit_capacity ip =
      d.lit 432 2
      ⊗ d.lit 1 1
      ⊘ d.nat 1_000_000_000
      ⊘ d.nat 72
      ⊘ d.lit 11 1
      ⊘ d.lit 11 1
      ⊗ ip.f_sz_um
      ⊘ d.lit 65 3

  -- The energy of an access.
  abbrev pub backend_dyn : McParam F → Technology F → InputParameter F → F
  backend_dyn p g_tp ip =
      if p.type == 0
      then bit_capacity ip ⊗ g_tp.vdd ⊗ g_tp.vdd ⊗ d.nat p.data_bus_width
      else d.lit 9 10
        ⊘ d.nat 800_000_000
        ⊗ p.clock_rate
        ⊘ d.nat 12_800
        ⊗ p.peak_data_transfer_rate
        ⊗ d.nat p.data_bus_width
        ⊘ d.lit 720 1
        ⊗ g_tp.vdd
        ⊘ d.lit 11 1
        ⊗ g_tp.vdd
        ⊘ d.lit 11 1
        ⊗ (ip.f_sz_nm ⊘ d.lit 650 1)

  abbrev pub backend_gates : McParam F → F
  backend_gates p = d.nat (50_000 * p.data_bus_width) ⊘ d.lit 640 1

  abbrev pub backend_power : Devices F → Technology F → McParam F → InputParameter F → PowerDef F
  backend_power v g_tp p ip =
      let w = g_tp.min_w_nmos in
      let area = backend_area p ip in
      base_power g_tp (backend_dyn p g_tp ip)
        (if p.type == 0
          then by_density g_tp area (v.inverter_isub_leakage g_tp w (w ⊗ v.pmos_to_nmos_sz_ratio))
          else subthreshold v g_tp w (backend_gates p))
        (if p.type == 0
          then by_density g_tp area (v.inverter_ig_leakage g_tp w (w ⊗ v.pmos_to_nmos_sz_ratio))
          else through_gate v g_tp w (backend_gates p))

  -- The constructor and compute().
  unfoldable pub construct :
      Devices F → InputParameter F → McParam F → MemoryCtrlType → Option (Backend F)
  construct v ip p MemoryCtrlType.mc = some (record {
    mcp = p;
    area = backend_area p ip;
    power_t = backend_power v (v.init_interface ip) p ip;
    power = no_power;
    rt_power = no_power;
  })
  construct v ip p MemoryCtrlType.flashc = none

  abbrev pub peak_energy : Backend F → Backend F
  peak_energy c =
      let s = bus_accesses Bool.true c.mcp in
      record c { power = with_dynamic ((s.read ⊕ s.write) ⊗ c.power_t.read_op.dynamic) c.power_t }

  -- rt_power keeps what it had but for the dynamic energy.
  abbrev pub runtime_energy : Backend F → Backend F
  runtime_energy c =
      let p = c.mcp in
      let s = bus_accesses Bool.false p in
      let dynamic =
        (s.read ⊕ s.write)
        ⊗ d.nat p.llc_block_size
        ⊗ d.lit 80 1
        ⊘ d.nat p.data_bus_width
        ⊗ c.power_t.read_op.dynamic in
      record c {
        rt_power =
            with_refresh p c.power
              (add_power (with_dynamic dynamic c.rt_power) (scale_power c.power_t pppm_lkg));
      }

  unfoldable pub compute_energy : Bool → Backend F → Backend F
  compute_energy is_tdp c = if is_tdp then peak_energy c else runtime_energy c
