-- ===== src/Processor.antt =====
-- Processor::Processor (fast_mcpat/processor.cc): the parts of the chip and their totals. A core,
-- cache or controller enters as its figures after computeEnergy; the networks are those of Noc.
-- `none` is a run that an exit or an assert of this constructor or of the networks stops. The constructors
-- of the parts run inside this one and may exit themselves, as Core::set_core_param does: what `construct`
-- takes are parts whose constructors have returned.
pub mod Balance
pub mod Directory
pub mod Memory
mod Tests
use wattwatcher.Prelude.{
  ℕ, zero, suc, ◌+◌, Bool, true, false, not, ◌&&◌, Option, none, some, ltb, ◌==◌, if◌then◌else◌,
  ◌>>=◌,
}
use wattwatcher.Double.{Double, ◌⊕◌, ◌⊗◌, ◌⊘◌}
use wattwatcher.Power.{Pppm, set_pppm, add_power, scale_power}
use wattwatcher.Cacti.{InputParameter}
use wattwatcher.System.{System, ProcParam, proc_param, proc_interface}
use wattwatcher.Total.{
  Total, Part, Totals, no_total, add_total, share, homogeneous_step, for_units, add_units,
  count_units,
}
use wattwatcher.Noc.{Noc}
use wattwatcher.Network.{add_networks}

pub record Parts (F : Type 0) : Type 0 where
  pub cores : ℕ → Part F
  pub l2array : ℕ → Part F
  pub l3array : ℕ → Part F
  pub l1dirarray : ℕ → Part F
  pub l2dirarray : ℕ → Part F
  pub mc : Part F
  pub flashcontroller : Part F
  pub niu : Part F
  pub pcie : Part F

-- The totals of the cores and caches, and the chip's with them.
pub record Caches (F : Type 0) : Type 0 where
  pub core : Total F
  pub l2 : Total F
  pub l3 : Total F
  pub l1dir : Total F
  pub l2dir : Total F
  pub chip : Total F

-- The totals of the controllers, and the chip's with them.
pub record Controllers (F : Type 0) : Type 0 where
  pub mcs : Total F
  pub flashcontrollers : Total F
  pub nius : Total F
  pub pcies : Total F
  pub chip : Total F

pub record Processor (F : Type 0) : Type 0 where
  pub procdynp : ProcParam
  pub interface_ip : InputParameter F
  -- the chip's own area, power and rt_power
  pub chip : Total F
  pub core : Total F
  pub l2 : Total F
  pub l3 : Total F
  pub l1dir : Total F
  pub l2dir : Total F
  pub mcs : Total F
  pub flashcontrollers : Total F
  pub nius : Total F
  pub pcies : Total F
  pub noc : Total F

module _ {F : Type 0} ⦃d : Double F⦄ where
  -- Private caches go with their cores one to one.
  abbrev pub mismatch : System F → ProcParam → Bool
  mismatch sys p =
      sys.private_l2 && not (count_units p.homo_core p.num_core == count_units p.homo_l2 p.num_l2)

  -- A first-level directory that is unlike the others: the chip gains its power per cycle.
  abbrev pub bare : Part F → Total F
  bare p = record { area = p.area; power = p.power; rt_power = p.rt_power }

  unfoldable pub directory_step : Part F → Totals F → Totals F
  directory_step p t = record {
    kind = add_total t.kind (share p);
    chip = add_total t.chip (bare p);
  }

  unfoldable pub add_l1_directories : Bool → ℕ → (ℕ → Part F) → Total F → Totals F
  add_l1_directories homogeneous n parts chip =
      for_units (count_units homogeneous n) 0 parts
        (if homogeneous then homogeneous_step n else directory_step)
        (record { kind = no_total; chip = chip })

  -- The controllers, all equal: `peak` and `run` are the masks for the two powers.
  abbrev pub controllers : Bool → ℕ → Pppm F → Pppm F → Part F → Total F
  controllers present n peak run p =
      if present
      then record {
        area = d.nat 0 ⊕ p.area ⊗ d.nat n;
        power = scale_power p.power peak;
        rt_power = scale_power p.rt_power run;
      }
      else no_total

  -- The chip after them: it gains the area of n units, and their powers.
  abbrev pub with_controllers : Bool → ℕ → Part F → Total F → Total F → Total F
  with_controllers present n p kind chip =
      if present
      then record {
        area = chip.area ⊕ p.area ⊗ d.nat n;
        power = add_power chip.power kind.power;
        rt_power = add_power chip.rt_power kind.rt_power;
      }
      else chip

  abbrev pub per_second : ℕ → F → Pppm F
  per_second n rate = set_pppm (d.nat n ⊗ rate) (d.nat n) (d.nat n) (d.nat n)

  abbrev pub per_run : ℕ → F → Pppm F
  per_run n time = set_pppm (d.nat 1 ⊘ time) (d.nat n) (d.nat n) (d.nat n)

  abbrev pub per_unit : ℕ → Pppm F
  per_unit n = set_pppm (d.nat n) (d.nat n) (d.nat n) (d.nat n)

  abbrev pub has_mc : System F → Bool
  has_mc sys = ltb 0 sys.mc_number_mcs && ltb 0 sys.mc_memory_channels_per_mc

  abbrev pub memory_controllers : System F → Part F → Total F
  memory_controllers sys p =
      let n = sys.mc_number_mcs in
      controllers (has_mc sys) n (per_second n p.clock_rate) (per_run n p.execution_time) p

  abbrev pub flash_controllers : System F → Part F → Total F
  flash_controllers sys p =
      let n = sys.flashc_number_mcs in controllers (ltb 0 n) n (per_unit n) (per_unit n) p

  abbrev pub network_interfaces : System F → Part F → Total F
  network_interfaces sys p =
      let n = sys.niu_number_units in
      controllers (ltb 0 n) n (per_second n p.clock_rate) (per_second n p.clock_rate) p

  abbrev pub has_pcie : System F → Bool
  has_pcie sys = ltb 0 sys.pcie_number_units && ltb 0 sys.pcie_num_channels

  abbrev pub pcie_controllers : System F → Part F → Total F
  pcie_controllers sys p =
      let n = sys.pcie_number_units in
      controllers (has_pcie sys) n (per_second n p.clock_rate) (per_second n p.clock_rate) p

  -- Second-level caches that are private are parts of their cores.
  abbrev pub add_l2 : System F → ProcParam → (ℕ → Part F) → Total F → Totals F
  add_l2 sys p parts chip =
      if sys.private_l2
      then record { kind = no_total; chip = chip }
      else add_units p.homo_l2 p.num_l2 parts chip

  unfoldable pub add_caches : System F → ProcParam → Parts F → Caches F
  add_caches sys p parts =
      let core = add_units p.homo_core p.num_core parts.cores no_total in
      let l2 = add_l2 sys p parts.l2array core.chip in
      let l3 = add_units p.homo_l3 p.num_l3 parts.l3array l2.chip in
      let l1dir = add_l1_directories p.homo_l1_dir p.num_l1_dir parts.l1dirarray l3.chip in
      let l2dir = add_units p.homo_l2_dir p.num_l2_dir parts.l2dirarray l1dir.chip in
      record {
        core = core.kind;
        l2 = l2.kind;
        l3 = l3.kind;
        l1dir = l1dir.kind;
        l2dir = l2dir.kind;
        chip = l2dir.chip;
      }

  unfoldable pub add_controllers : System F → Parts F → Total F → Controllers F
  add_controllers sys parts chip =
      let mcs = memory_controllers sys parts.mc in
      let with_mcs = with_controllers (has_mc sys) sys.mc_number_mcs parts.mc mcs chip in
      let flash = flash_controllers sys parts.flashcontroller in
      let with_flash = if ltb 0 sys.flashc_number_mcs then add_total with_mcs flash else with_mcs in
      let nius = network_interfaces sys parts.niu in
      let with_nius =
        with_controllers (ltb 0 sys.niu_number_units) sys.niu_number_units parts.niu nius
          with_flash in
      let pcies = pcie_controllers sys parts.pcie in
      record {
        mcs = mcs;
        flashcontrollers = flash;
        nius = nius;
        pcies = pcies;
        chip = with_controllers (has_pcie sys) sys.pcie_number_units parts.pcie pcies with_nius;
      }

  abbrev pub assemble :
      ProcParam → InputParameter F → Caches F → Controllers F → Totals F → Processor F
  assemble p ip caches io noc = record {
    procdynp = p;
    interface_ip = ip;
    chip = noc.chip;
    core = caches.core;
    l2 = caches.l2;
    l3 = caches.l3;
    l1dir = caches.l1dir;
    l2dir = caches.l2dir;
    mcs = io.mcs;
    flashcontrollers = io.flashcontrollers;
    nius = io.nius;
    pcies = io.pcies;
    noc = noc.kind;
  }

  module _ (build : InputParameter F → ℕ → F → Option (Noc F)) (lay : F → Noc F → Option (Noc F))
      (energy : ℕ → Noc F → Noc F) where
    unfoldable pub construct : System F → InputParameter F → Parts F → Option (Processor F)
    construct sys ip parts =
        let p = proc_param sys in
        let interface_ip = proc_interface sys ip in
        let caches = add_caches sys p parts in
        let io = add_controllers sys parts caches.chip in
        if mismatch sys p then none else (do
          noc ← add_networks sys p.homo_noc p.num_noc (build interface_ip) lay energy io.chip
          some (assemble p interface_ip caches io noc))
