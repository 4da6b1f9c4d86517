-- ===== src/MemoryCtrl/Controller.antt =====
-- MemoryController (fast_mcpat/memoryctrl.cc): the sums over the three parts.
use wattwatcher.Prelude.{Bool, ◌&&◌, ◌||◌, ◌==◌, Option, none, some, if◌then◌else◌, ◌>>=◌}
use wattwatcher.Double.{Double, ◌⊕◌}
use wattwatcher.Power.{PowerDef, no_power, add_power}
use wattwatcher.Cacti.{InputParameter, WireType, with_voltages}
use wattwatcher.System.{System}
use wattwatcher.Devices.{Devices}
use wattwatcher.Total.{Part}
use wattwatcher.MemoryCtrl.{MemoryCtrlType, SystemMc, McParam, mc_param}
use wattwatcher.MemoryCtrl.FrontEnd
use wattwatcher.MemoryCtrl.FrontEnd.{FrontEnd, Arrays}
use wattwatcher.MemoryCtrl.Backend
use wattwatcher.MemoryCtrl.Backend.{Backend}
use wattwatcher.MemoryCtrl.Phy
use wattwatcher.MemoryCtrl.Phy.{Phy}

pub record MemoryController (F : Type 0) : Type 0 where
  pub mcp : McParam F
  pub frontend : FrontEnd F
  pub transec_engine : Backend F
  pub phy : Option (Phy F)
  pub area : F
  pub power : PowerDef F
  pub rt_power : PowerDef F

abbrev pub has_phy : {F : Type 0} → McParam F → Bool
has_phy p = p.type == 0 || (p.type == 1 && p.with_phy)

module _ {F : Type 0} ⦃d : Double F⦄ where
  abbrev pub mc_wires : InputParameter F → InputParameter F
  mc_wires ip = record ip { wire_is_mat_type = 2; wire_os_mat_type = 2; wt = WireType.global }

  -- The area so far with that of the physical interface, if there is one.
  abbrev pub with_phy_area : Option (Phy F) → F → F
  with_phy_area none area = area
  with_phy_area (some y) area = area ⊕ y.area

  unfoldable pub construct :
      Devices F
      → Arrays F
      → MemoryCtrlType
      → System F
      → SystemMc F
      → InputParameter F
      → Option (MemoryController F)
  construct v arrays mc_type sys s ip = do
    p ← mc_param mc_type sys s
    let interface_ip = with_voltages s.vdd s.power_gating_vcc (mc_wires ip)
    frontend ← FrontEnd.construct arrays s interface_ip p
    engine ← Backend.construct v interface_ip p mc_type
    let phy = if has_phy p then some (Phy.construct v interface_ip p mc_type) else none
    some (record {
      mcp = p;
      frontend = frontend;
      transec_engine = engine;
      phy = phy;
      area = with_phy_area phy (d.nat 0 ⊕ frontend.area ⊕ engine.area);
      power = no_power;
      rt_power = no_power;
    })

  abbrev pub phy_energy : Bool → Option (Phy F) → Option (Phy F)
  phy_energy is_tdp none = none
  phy_energy is_tdp (some y) = some (Phy.compute_energy is_tdp y)

  abbrev pub add_phy_power : Option (Phy F) → PowerDef F → PowerDef F
  add_phy_power none p = p
  add_phy_power (some y) p = add_power p y.power

  abbrev pub add_phy_rt_power : Option (Phy F) → PowerDef F → PowerDef F
  add_phy_rt_power none p = p
  add_phy_rt_power (some y) p = add_power p y.rt_power

  -- computeEnergy of the parts
  abbrev pub part_energies : Bool → MemoryController F → MemoryController F
  part_energies is_tdp c = record c {
    frontend = FrontEnd.compute_energy is_tdp c.frontend;
    transec_engine = Backend.compute_energy is_tdp c.transec_engine;
    phy = phy_energy is_tdp c.phy;
  }

  unfoldable pub compute_energy : Bool → MemoryController F → MemoryController F
  compute_energy is_tdp c =
      let e = part_energies is_tdp c in
      if is_tdp
      then record e {
        power =
            add_phy_power e.phy
              (add_power (add_power e.power e.frontend.power) e.transec_engine.power);
      }
      else record e {
        rt_power =
            add_phy_rt_power e.phy
              (add_power (add_power e.rt_power e.frontend.rt_power) e.transec_engine.rt_power);
      }

  -- What the processor adds up.
  abbrev pub part : MemoryController F → Part F
  part c = record {
    area = c.area;
    power = c.power;
    rt_power = c.rt_power;
    clock_rate = c.mcp.clock_rate;
    execution_time = c.mcp.execution_time;
  }
