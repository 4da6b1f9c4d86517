-- ===== src/MemoryCtrl/Phy.antt =====
-- MCPHY, the physical interface (fast_mcpat/memoryctrl.cc).
use wattwatcher.Prelude.{◌*◌, Bool, ◌==◌, if◌then◌else◌}
use wattwatcher.Double.{Double, ◌⊕◌, ◌⊖◌, ◌⊗◌, ◌⊘◌}
use wattwatcher.Power.{PowerDef, no_power}
use wattwatcher.Basic.{Technology}
use wattwatcher.Cacti.{InputParameter}
use wattwatcher.Devices.{Devices, subthreshold, through_gate, base_power}
use wattwatcher.MemoryCtrl.{MemoryCtrlType, McParam, with_dynamic, with_refresh, bus_accesses}
use wattwatcher.MemoryCtrl.Backend.{by_density}

pub record Phy (F : Type 0) : Type 0 where
  pub mc_type : MemoryCtrlType
  pub mcp : McParam F
  pub area : F
  pub power_t : PowerDef F
  pub power : PowerDef F
  pub rt_power : PowerDef F

module _ {F : Type 0} ⦃d : Double F⦄ where
  abbrev pub phy_area : McParam F → InputParameter F → F
  phy_area p ip =
      if p.type == 0
      then (d.lit 64323 4 ⊗ d.log (p.peak_data_transfer_rate ⊗ d.nat 2) ⊖ d.lit 48134 3)
        ⊗ d.nat p.data_bus_width
        ⊘ d.lit 1280 1
        ⊗ (ip.f_sz_um ⊘ d.lit 9 2)
        ⊗ d.nat p.num_channels
        ⊗ d.nat 1_000_000
        ⊘ d.nat 2
      else d.lit 13 1
        ⊗ d.lit 2 1
        ⊘ d.nat 2_133_000_000
        ⊗ p.clock_rate
        ⊘ d.nat 17_066
        ⊗ p.peak_data_transfer_rate
        ⊗ d.nat p.data_bus_width
        ⊘ d.lit 160 1
        ⊗ (ip.f_sz_um ⊘ d.lit 40 3)
        ⊗ (ip.f_sz_um ⊘ d.lit 40 3)
        ⊗ d.nat p.num_channels
        ⊗ d.nat 1_000_000

  -- Power for a gigabit in a second.
  abbrev pub phy_dyn : McParam F → Technology F → InputParameter F → F
  phy_dyn p g_tp ip =
      (if p.type == 0
        then (if p.lvds then d.lit 1 2 else d.lit 4 2) ⊗ d.sqrt (ip.f_sz_um ⊘ d.lit 9 2)
        else d.lit 1 2 ⊗ (ip.f_sz_um ⊘ d.lit 9 2))
      ⊗ g_tp.vdd
      ⊘ d.lit 12 1
      ⊗ g_tp.vdd
      ⊘ d.lit 12 1

  abbrev pub phy_gates : McParam F → F
  phy_gates p = if p.with_phy then d.nat (200_000 * p.data_bus_width) ⊘ d.lit 640 1 else d.nat 0

  abbrev pub phy_power : Devices F → Technology F → McParam F → InputParameter F → PowerDef F
  phy_power v g_tp p ip =
      let w = g_tp.min_w_nmos in
      let area = phy_area p ip in
      base_power g_tp (phy_dyn p g_tp ip)
        (if p.type == 0
          then by_density g_tp area (v.inverter_isub_leakage g_tp w (w ⊗ v.pmos_to_nmos_sz_ratio))
          else subthreshold v g_tp w (phy_gates p))
        (if p.type == 0
          then by_density g_tp area (v.inverter_ig_leakage g_tp w (w ⊗ v.pmos_to_nmos_sz_ratio))
          else through_gate v g_tp w (phy_gates p))

  -- The constructor and compute(). For a flash controller only the area is set.
  unfoldable pub construct : Devices F → InputParameter F → McParam F → MemoryCtrlType → Phy F
  construct v ip p MemoryCtrlType.mc = record {
    mc_type = MemoryCtrlType.mc;
    mcp = p;
    area = phy_area p ip;
    power_t = phy_power v (v.init_interface ip) p ip;
    power = no_power;
    rt_power = no_power;
  }
  construct v ip p MemoryCtrlType.flashc = record {
    mc_type = MemoryCtrlType.flashc;
    mcp = p;
    area = d.nat 400_000 ⊘ d.nat 2 ⊗ d.nat p.data_bus_width ⊘ d.nat 8;
    power_t = base_power (v.init_interface ip) (d.nat 0) (d.nat 0) (d.nat 0);
    power = no_power;
    rt_power = no_power;
  }

  -- The width of a DIMM.
  abbrev pub data_transfer_unit : MemoryCtrlType → F
  data_transfer_unit MemoryCtrlType.mc = d.nat 72
  data_transfer_unit MemoryCtrlType.flashc = d.nat 16

  abbrev pub peak_energy : Phy F → Phy F
  peak_energy c =
      let p = c.mcp in
      record c {
        power =
            with_dynamic
              (c.power_t.read_op.dynamic
                ⊗ (p.peak_data_transfer_rate ⊗ d.nat 8 ⊗ d.nat 1_000_000 ⊘ d.nat 1_000_000_000)
                ⊗ d.nat p.data_bus_width
                ⊘ data_transfer_unit c.mc_type
                ⊗ d.nat p.num_channels
                ⊘ p.clock_rate)
              c.power_t;
      }

  abbrev pub runtime_energy : Phy F → Phy F
  runtime_energy c =
      let p = c.mcp in
      let s = bus_accesses Bool.false p in
      let dynamic =
        c.power_t.read_op.dynamic
        ⊗ (s.read ⊕ s.write)
        ⊗ d.nat p.llc_block_size
        ⊗ d.nat 8
        ⊘ d.nat 1_000_000_000
        ⊘ p.execution_time
        ⊗ p.execution_time in
      record c { rt_power = with_refresh p c.power (with_dynamic dynamic c.power_t) }

  unfoldable pub compute_energy : Bool → Phy F → Phy F
  compute_energy is_tdp c = if is_tdp then peak_energy c else runtime_energy c
