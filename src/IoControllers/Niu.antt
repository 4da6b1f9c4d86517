-- ===== src/IoControllers/Niu.antt =====
-- NIUController, the network interface (fast_mcpat/iocontrollers.cc).
use wattwatcher.Prelude.{ℕ, ◌+◌, ◌*◌, ◌/◌, Bool, ◌==◌, if◌then◌else◌}
use wattwatcher.Double.{Double, ◌⊕◌, ◌⊗◌, ◌⊘◌}
use wattwatcher.Power.{PowerDef, no_power}
use wattwatcher.Basic.{Technology}
use wattwatcher.Cacti.{InputParameter, with_voltages}
use wattwatcher.Total.{Part}
use wattwatcher.Devices.{Devices, subthreshold, through_gate, base_power}
use wattwatcher.IoControllers.{feature, shrink, by_voltage, dynamic_at, nmos_sizing, at_activity}

-- system_niu
pub record SystemNiu (F : Type 0) : Type 0 where
  pub clockrate : F
  pub number_units : ℕ
  pub type : ℕ
  pub vdd : F
  pub power_gating_vcc : F
  pub duty_cycle : F
  pub total_load_perc : F

pub record NiuParam (F : Type 0) : Type 0 where
  pub clock_rate : F
  pub num_units : ℕ
  pub type : ℕ
  pub duty_cycle : F
  pub perc_load : F

pub record Niu (F : Type 0) : Type 0 where
  pub niup : NiuParam F
  pub interface_ip : InputParameter F
  pub area : F
  pub power_t : PowerDef F
  pub power : PowerDef F
  pub rt_power : PowerDef F

-- The gates of an interface's three parts.
pub record Gates : Type 0 where
  pub mac : ℕ
  pub frontend : ℕ
  pub serder : ℕ

abbrev pub niu_gates : ℕ → Gates
niu_gates type =
    if type == 0
    then record { mac = 111_700; frontend = 320_000; serder = 200_000 }
    else record { mac = 111_700; frontend = 52_000; serder = 199_260 }

module _ {F : Type 0} ⦃d : Double F⦄ where
  abbrev pub niu_param : SystemNiu F → NiuParam F
  niu_param n = record {
    clock_rate = n.clockrate ⊗ d.nat 1_000_000;
    num_units = n.number_units;
    type = n.type;
    duty_cycle = n.duty_cycle;
    perc_load = n.total_load_perc;
  }

  -- Square millimetres.
  abbrev pub mac_area : ℕ → InputParameter F → F
  mac_area type ip =
      if type == 0 then shrink ((d.lit 153 2 ⊕ d.lit 3 1) ⊘ d.nat 2) ip else shrink (d.lit 24 2) ip

  -- The constant's inner quotients are of ints.
  abbrev pub frontend_area : ℕ → InputParameter F → F
  frontend_area type ip =
      if type == 0
      then shrink ((d.lit 98 1 ⊕ d.nat ((6 + 18) * 65 / 130 * 65 / 130)) ⊘ d.nat 3) ip
      else shrink (d.lit 1 1) ip

  abbrev pub serder_area : ℕ → InputParameter F → F
  serder_area type ip =
      if type == 0 then (d.lit 139 2 ⊕ d.lit 36 2) ⊗ feature ip else shrink (d.lit 35 2) ip

  abbrev pub mac_dyn : ℕ → Technology F → InputParameter F → F
  mac_dyn type g_tp ip = dynamic_at (if type == 0 then d.lit 219 11 else d.lit 1257 12) g_tp ip

  abbrev pub frontend_dyn : ℕ → Technology F → InputParameter F → F
  frontend_dyn type g_tp ip = dynamic_at (if type == 0 then d.lit 27 11 else d.lit 6 10) g_tp ip

  -- Power, which the clock rate makes energy per cycle.
  abbrev pub serder_dyn : NiuParam F → Technology F → InputParameter F → F
  serder_dyn p g_tp ip =
      by_voltage
        (if p.type == 0
          then d.lit 1 2 ⊗ d.nat 10 ⊗ d.sqrt (ip.f_sz_um ⊘ d.lit 9 2)
          else d.lit 216 4 ⊗ d.nat 10 ⊗ (ip.f_sz_um ⊘ d.lit 13 2))
        (d.lit 12 1) g_tp
      ⊘ p.clock_rate

  -- The front end is counted twice, and the SerDes not at all.
  abbrev pub niu_leaking : ℕ → F
  niu_leaking type = let g = niu_gates type in d.nat g.mac ⊕ d.nat g.frontend ⊕ d.nat g.frontend

  unfoldable pub construct : Devices F → InputParameter F → SystemNiu F → Niu F
  construct v ip n =
      let p = niu_param n in
      let interface_ip = with_voltages n.vdd n.power_gating_vcc ip in
      let g_tp = v.init_interface interface_ip in
      let dynamic =
        mac_dyn p.type g_tp interface_ip
        ⊕ frontend_dyn p.type g_tp interface_ip
        ⊕ serder_dyn p g_tp interface_ip in
      let area =
        mac_area p.type interface_ip
        ⊕ frontend_area p.type interface_ip
        ⊕ serder_area p.type interface_ip in
      record {
        niup = p;
        interface_ip = interface_ip;
        area = area ⊗ d.nat 1_000_000;
        power_t =
            base_power g_tp dynamic
              (subthreshold v g_tp (nmos_sizing p.type g_tp) (niu_leaking p.type))
              (through_gate v g_tp (nmos_sizing p.type g_tp) (niu_leaking p.type));
        power = no_power;
        rt_power = no_power;
      }

  unfoldable pub compute_energy : Bool → Niu F → Niu F
  compute_energy is_tdp c =
      if is_tdp
      then record c { power = at_activity c.niup.duty_cycle c.power_t }
      else record c { rt_power = at_activity c.niup.perc_load c.power_t }

  -- What the processor adds up. A network interface has no execution time.
  abbrev pub part : Niu F → Part F
  part c = record {
    area = c.area;
    power = c.power;
    rt_power = c.rt_power;
    clock_rate = c.niup.clock_rate;
    execution_time = d.nat 1;
  }
