-- ===== src/IoControllers/Pcie.antt =====
-- PCIeController (fast_mcpat/iocontrollers.cc), whose figures are those of one lane times the lanes.
use wattwatcher.Prelude.{ℕ, ◌*◌, ◌/◌, Bool, ◌==◌, if◌then◌else◌}
use wattwatcher.Double.{Double, ◌⊕◌, ◌⊗◌, ◌⊘◌}
use wattwatcher.Power.{PowerDef, no_power}
use wattwatcher.Basic.{Technology}
use wattwatcher.Cacti.{InputParameter, with_voltages}
use wattwatcher.Total.{Part}
use wattwatcher.Devices.{Devices, subthreshold, through_gate, base_power}
use wattwatcher.IoControllers.{feature, shrink, by_voltage, dynamic_at, nmos_sizing, at_activity}

-- system_pcie
pub record SystemPcie (F : Type 0) : Type 0 where
  pub clockrate : F
  pub number_units : ℕ
  pub num_channels : ℕ
  pub type : ℕ
  pub with_phy : Bool
  pub vdd : F
  pub power_gating_vcc : F
  pub duty_cycle : F
  pub total_load_perc : F

pub record PcieParam (F : Type 0) : Type 0 where
  pub clock_rate : F
  pub num_channels : ℕ
  pub num_units : ℕ
  pub with_phy : Bool
  pub type : ℕ
  pub duty_cycle : F
  pub perc_load : F

pub record Pcie (F : Type 0) : Type 0 where
  pub pciep : PcieParam F
  pub interface_ip : InputParameter F
  pub area : F
  pub power_t : PowerDef F
  pub power : PowerDef F
  pub rt_power : PowerDef F

-- Products of ints.
abbrev pub ctrl_gates : ℕ → ℕ → ℕ
ctrl_gates type channels = (if type == 0 then 900_000 / 8 else 200_000 / 8) * channels

abbrev pub serder_gates : ℕ → ℕ → ℕ
serder_gates type channels = (if type == 0 then 0 else 200_000 / 8) * channels

module _ {F : Type 0} ⦃d : Double F⦄ where
  abbrev pub pcie_param : SystemPcie F → PcieParam F
  pcie_param n = record {
    clock_rate = n.clockrate ⊗ d.nat 1_000_000;
    num_channels = n.num_channels;
    num_units = n.number_units;
    with_phy = n.with_phy;
    type = n.type;
    duty_cycle = n.duty_cycle;
    perc_load = n.total_load_perc;
  }

  abbrev pub ctrl_area : ℕ → InputParameter F → F
  ctrl_area type ip =
      if type == 0 then shrink ((d.lit 52 1 ⊕ d.lit 5 1) ⊘ d.nat 2) ip else shrink (d.lit 412 3) ip

  abbrev pub serder_area : ℕ → InputParameter F → F
  serder_area type ip =
      if type == 0 then (d.lit 303 2 ⊕ d.lit 36 2) ⊗ feature ip else shrink (d.lit 36 2) ip

  abbrev pub ctrl_dyn : ℕ → Technology F → InputParameter F → F
  ctrl_dyn type g_tp ip =
      dynamic_at ((if type == 0 then d.lit 375 11 else d.lit 221 11) ⊘ d.nat 8) g_tp ip

  -- Power, which the clock rate makes energy per cycle.
  abbrev pub serder_dyn : PcieParam F → Technology F → InputParameter F → F
  serder_dyn p g_tp ip =
      by_voltage (d.lit 1 2 ⊗ d.nat 4 ⊗ (ip.f_sz_um ⊘ d.lit 9 2)) (d.lit 12 1) g_tp ⊘ p.clock_rate

  -- withPHY ? x : 0
  abbrev pub if_phy : Bool → F → F
  if_phy phy x = if phy then x else d.nat 0

  abbrev pub pcie_leaking : PcieParam F → F
  pcie_leaking p =
      d.nat (ctrl_gates p.type p.num_channels)
      ⊕ if_phy p.with_phy (d.nat (serder_gates p.type p.num_channels))

  unfoldable pub pcie_area : PcieParam F → InputParameter F → F
  pcie_area p ip =
      (ctrl_area p.type ip ⊕ if_phy p.with_phy (serder_area p.type ip))
      ⊘ d.nat 8
      ⊗ d.nat p.num_channels
      ⊗ d.nat 1_000_000

  unfoldable pub pcie_power : Devices F → Technology F → PcieParam F → InputParameter F → PowerDef F
  pcie_power v g_tp p ip =
      base_power g_tp
        ((ctrl_dyn p.type g_tp ip ⊕ if_phy p.with_phy (serder_dyn p g_tp ip))
          ⊗ d.nat p.num_channels)
        (subthreshold v g_tp (nmos_sizing p.type g_tp) (pcie_leaking p))
        (through_gate v g_tp (nmos_sizing p.type g_tp) (pcie_leaking p))

  unfoldable pub construct : Devices F → InputParameter F → SystemPcie F → Pcie F
  construct v ip n =
      let p = pcie_param n in
      let interface_ip = with_voltages n.vdd n.power_gating_vcc ip in
      let g_tp = v.init_interface interface_ip in
      record {
        pciep = p;
        interface_ip = interface_ip;
        area = pcie_area p interface_ip;
        power_t = pcie_power v g_tp p interface_ip;
        power = no_power;
        rt_power = no_power;
      }

  unfoldable pub compute_energy : Bool → Pcie F → Pcie F
  compute_energy is_tdp c =
      if is_tdp
      then record c { power = at_activity c.pciep.duty_cycle c.power_t }
      else record c { rt_power = at_activity c.pciep.perc_load c.power_t }

  -- What the processor adds up. A PCIe controller has no execution time.
  abbrev pub part : Pcie F → Part F
  part c = record {
    area = c.area;
    power = c.power;
    rt_power = c.rt_power;
    clock_rate = c.pciep.clock_rate;
    execution_time = d.nat 1;
  }
