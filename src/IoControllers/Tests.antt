-- ===== src/IoControllers/Tests.antt =====
-- A network interface and a PCIe controller over whole numbers that keep the digits of a literal.
use wattwatcher.Prelude.{ℕ, ◌+◌, ◌≡◌, true, false}
use wattwatcher.Double.{Double, ◌⊕◌}
use wattwatcher.Power.{add_power}
use wattwatcher.Cacti.{InputParameter}
use wattwatcher.IoControllers.Niu
use wattwatcher.IoControllers.Niu.{SystemNiu, niu_gates}
use wattwatcher.IoControllers.Pcie
use wattwatcher.IoControllers.Pcie.{SystemPcie}
use wattwatcher.IoControllers.Lanes.{with_lanes, construct_lanes}
use wattwatcher.IoControllers.Gates.{leak, construct_leakage}
use wattwatcher.Samples.{digits, digits-IsExact, devices, blank_input}

instance abbrev keeps_digits : Double ℕ
keeps_digits = digits

abbrev ip : InputParameter ℕ
ip = record blank_input { f_sz_um = 130; f_sz_nm = 1300 }

abbrev pcie : SystemPcie ℕ
pcie = record {
  clockrate = 1;
  number_units = 1;
  num_channels = 8;
  type = 1;
  with_phy = true;
  vdd = 0;
  power_gating_vcc = 0;
  duty_cycle = 1;
  total_load_perc = 1;
}

construct_lanes_example :
    let c = Pcie.construct devices ip (with_lanes 8 pcie) in
    let c1 = Pcie.construct devices ip (with_lanes 3 pcie) in
    let c2 = Pcie.construct devices ip (with_lanes 5 pcie) in
    (c.area ≡ c1.area ⊕ c2.area) × (c.power_t ≡ add_power c1.power_t c2.power_t)
construct_lanes_example = construct_lanes digits-IsExact devices ip pcie 3 5

abbrev niu : SystemNiu ℕ
niu = record {
  clockrate = 1;
  number_units = 1;
  type = 0;
  vdd = 0;
  power_gating_vcc = 0;
  duty_cycle = 1;
  total_load_perc = 1;
}

construct_leakage_example :
    let c = Niu.compute_energy false (Niu.compute_energy true (Niu.construct devices ip niu)) in
    (c.power.read_op.leakage ⊕ leak devices ip niu 200_000
      ≡ leak devices ip niu (111_700 + 320_000 + 200_000) ⊕ leak devices ip niu 320_000)
    × (c.rt_power.read_op.leakage ≡ c.power.read_op.leakage)
construct_leakage_example = construct_leakage devices ip niu digits-IsExact
