-- ===== src/Network.antt =====
-- The part of Processor::Processor (fast_mcpat/processor.cc) that builds the networks on chip: their
-- routers or buses first, then the global links, whose length depends on the area so far, and last
-- their energy. `none` is a run that an assert stops.
pub mod Balance
mod Tests
use wattwatcher.Prelude.{
  ℕ, zero, suc, ◌+◌, Bool, true, false, ◌&&◌, Option, none, some, List, [], ◌∷◌, if◌then◌else◌,
  ◌>>=◌,
}
use wattwatcher.Double.{Double, ◌⊕◌, ◌⊗◌, ◌⊘◌}
use wattwatcher.Power.{PowerDef, set_pppm, add_power, scale_power}
use wattwatcher.System.{System}
use wattwatcher.Total.{Total, Totals, add_total, no_total, count_units}
use wattwatcher.Noc
use wattwatcher.Noc.{Noc}

module _ {F : Type 0} ⦃d : Double F⦄ where
  -- An area for the kind and for the chip. Equal networks add the kind's whole area to the chip.
  abbrev pub add_network_area : Bool → ℕ → F → Totals F → Totals F
  add_network_area homogeneous n area t =
      let kind = t.kind.area ⊕ (if homogeneous then area ⊗ d.nat n else area) in
      record {
        kind = record (t.kind) { area = kind };
        chip = record (t.chip) { area = t.chip.area ⊕ (if homogeneous then kind else area) };
      }

  abbrev pub add_link_area : Bool → ℕ → F → Totals F → Totals F
  add_link_area homogeneous n area t =
      let links = if homogeneous then area ⊗ d.nat n else area in
      record {
        kind = record (t.kind) { area = t.kind.area ⊕ links };
        chip = record (t.chip) { area = t.chip.area ⊕ links };
      }

  abbrev pub peak_power : Bool → ℕ → Noc F → PowerDef F
  peak_power homogeneous n c =
      let m = if homogeneous then n else 1 in
      scale_power c.power (
        set_pppm (if homogeneous then d.nat n ⊗ c.param.clock_rate else c.param.clock_rate)
          (d.nat m) (d.nat m) (d.nat m))

  abbrev pub runtime_power : Bool → ℕ → Noc F → PowerDef F
  runtime_power homogeneous n c =
      let m = if homogeneous then n else 1 in
      scale_power c.rt_power
        (set_pppm (d.nat 1 ⊘ c.param.execution_time) (d.nat m) (d.nat m) (d.nat m))

  abbrev pub add_network_power : Bool → ℕ → Noc F → Totals F → Totals F
  add_network_power homogeneous n c t =
      let peak = peak_power homogeneous n c in
      let run = runtime_power homogeneous n c in
      let kind_power = add_power t.kind.power peak in
      let kind_rt = add_power t.kind.rt_power run in
      record {
        kind = record (t.kind) { power = kind_power; rt_power = kind_rt };
        chip = record (t.chip) {
          power = add_power t.chip.power (if homogeneous then kind_power else peak);
          rt_power = add_power t.chip.rt_power (if homogeneous then kind_rt else run);
        };
      }

  -- `build i len` is the constructor with a link length, `lay len c` is init_link_bus, and `energy i c`
  -- is computeEnergy() and computeEnergy(false).
  module _ (sys : System F) (homogeneous : Bool) (n : ℕ) (build : ℕ → F → Option (Noc F))
      (lay : F → Noc F → Option (Noc F)) (energy : ℕ → Noc F → Noc F) where
    -- The edge of the part of the chip that the i-th network covers.
    abbrev pub edge : ℕ → Totals F → F
    edge i t = d.sqrt (t.chip.area ⊗ (sys.noc i).chip_coverage)

    unfoldable pub build_networks : ℕ → ℕ → Totals F → Option (List (Noc F) × Totals F)
    build_networks zero i t = some ([], t)
    build_networks (suc count) i t = do
      c ← build i (if (sys.noc i).type then d.nat 0 else edge i t)
      (cs, t') ← build_networks count (i + 1) (add_network_area homogeneous n c.area t)
      some (c ∷ cs, t')

    unfoldable pub lay_link : ℕ → Noc F → Totals F → Option (Noc F × Totals F)
    lay_link i c t =
        if c.param.has_global_link && (sys.noc i).type
        then (do
          c' ← lay (edge i t) c
          let area = c'.per_router_area ⊗ d.nat c'.param.total_nodes
          some (c', add_link_area homogeneous n area t))
        else some (c, t)

    unfoldable pub lay_links : ℕ → List (Noc F) → Totals F → Option (List (Noc F) × Totals F)
    lay_links i [] t = some ([], t)
    lay_links i (c ∷ cs) t = do
      (c', t1) ← lay_link i c t
      (cs', t2) ← lay_links (i + 1) cs t1
      some (c' ∷ cs', t2)

    unfoldable pub power_networks : ℕ → List (Noc F) → Totals F → Totals F
    power_networks i [] t = t
    power_networks i (c ∷ cs) t =
        power_networks (i + 1) cs (add_network_power homogeneous n (energy i c) t)

    unfoldable pub add_networks : Total F → Option (Totals F)
    add_networks chip = do
      (built, t) ←
          build_networks (count_units homogeneous n) 0 (record { kind = no_total; chip = chip })
      (linked, t') ← lay_links 0 built t
      some (power_networks 0 linked t')
