-- ===== src/IoControllers/Flash.antt =====
-- FlashController (fast_mcpat/iocontrollers.cc). `none` is a run that an exit stops.
use wattwatcher.Prelude.{ℕ, Bool, ◌==◌, Option, none, some, if◌then◌else◌}
use wattwatcher.Double.{Double, ◌⊕◌, ◌⊖◌, ◌⊗◌, ◌⊘◌}
use wattwatcher.Power.{PowerDef, no_power}
use wattwatcher.Basic.{Technology}
use wattwatcher.Cacti.{InputParameter, with_voltages}
use wattwatcher.Total.{Part}
use wattwatcher.Devices.{Devices, subthreshold, through_gate, base_power}
use wattwatcher.IoControllers.{shrink, by_voltage, dynamic_at, nmos_sizing, at_activity}

-- system_mc, the fields of a flash controller
pub record SystemFlash (F : Type 0) : Type 0 where
  pub peak_transfer_rate : F
  pub number_mcs : ℕ
  pub with_phy : Bool
  pub type : ℕ
  pub duty_cycle : F
  pub total_load_perc : F
  pub vdd : F
  pub power_gating_vcc : F

-- The fields of MCParam that a flash controller has.
pub record FlashParam (F : Type 0) : Type 0 where
  pub peak_data_transfer_rate : F
  pub num_channels : ℕ
  pub num_mcs : ℕ
  pub with_phy : Bool
  pub type : ℕ
  pub duty_cycle : F
  pub perc_load : F

pub record Flash (F : Type 0) : Type 0 where
  pub fcp : FlashParam F
  pub interface_ip : InputParameter F
  pub area : F
  pub power_t : PowerDef F
  pub power : PowerDef F
  pub rt_power : PowerDef F

module _ {F : Type 0} ⦃d : Double F⦄ where
  abbrev pub flash_param : SystemFlash F → FlashParam F
  flash_param n = record {
    peak_data_transfer_rate = n.peak_transfer_rate;
    num_channels = d.ceil (n.peak_transfer_rate ⊘ d.nat 200);
    num_mcs = n.number_mcs;
    with_phy = n.with_phy;
    type = n.type;
    duty_cycle = n.duty_cycle;
    perc_load = n.total_load_perc;
  }

  -- 1 + (num_channels - 1) * 0.2
  abbrev pub number_channel : FlashParam F → F
  number_channel p = d.nat 1 ⊕ (d.nat p.num_channels ⊖ d.nat 1) ⊗ d.lit 2 1

  -- withPHY ? x : 0
  abbrev pub if_phy : Bool → F → F
  if_phy phy x = if phy then x else d.nat 0

  abbrev pub flash_area : FlashParam F → InputParameter F → F
  flash_area p ip =
      (shrink (d.lit 243 3) ip ⊕ if_phy p.with_phy (shrink (d.lit 36 2 ⊘ d.nat 8) ip))
      ⊗ d.nat 1_000_000
      ⊗ number_channel p

  -- Power, not energy.
  abbrev pub flash_dyn : FlashParam F → Technology F → InputParameter F → F
  flash_dyn p g_tp ip =
      let serder_dyn =
        by_voltage (d.lit 1 2 ⊗ d.lit 16 1 ⊗ (ip.f_sz_um ⊘ d.lit 9 2)) (d.lit 12 1) g_tp in
      (dynamic_at (d.lit 125 3) g_tp ip ⊕ if_phy p.with_phy serder_dyn) ⊗ number_channel p

  abbrev pub flash_leaking : FlashParam F → F
  flash_leaking p = (d.nat 129_267 ⊕ if_phy p.with_phy (d.nat 25_000)) ⊗ number_channel p

  -- There is no high-performance flash controller.
  unfoldable pub construct : Devices F → InputParameter F → SystemFlash F → Option (Flash F)
  construct v ip n =
      let p = flash_param n in
      let interface_ip = with_voltages n.vdd n.power_gating_vcc ip in
      let g_tp = v.init_interface interface_ip in
      if p.type == 0
      then none
      else some (record {
        fcp = p;
        interface_ip = interface_ip;
        area = flash_area p interface_ip;
        power_t =
            base_power g_tp (flash_dyn p g_tp interface_ip)
              (subthreshold v g_tp (nmos_sizing p.type g_tp) (flash_leaking p))
              (through_gate v g_tp (nmos_sizing p.type g_tp) (flash_leaking p));
        power = no_power;
        rt_power = no_power;
      })

  unfoldable pub compute_energy : Bool → Flash F → Flash F
  compute_energy is_tdp c =
      if is_tdp
      then record c { power = at_activity c.fcp.duty_cycle c.power_t }
      else record c { rt_power = at_activity c.fcp.perc_load c.power_t }

  -- What the processor adds up. A flash controller has neither a clock rate nor an execution time.
  abbrev pub part : Flash F → Part F
  part c = record {
    area = c.area;
    power = c.power;
    rt_power = c.rt_power;
    clock_rate = d.nat 1;
    execution_time = d.nat 1;
  }
