-- ===== src/Total.antt =====
-- What the class Component holds of a part of the chip, area, power and rt_power
-- (fast_mcpat/cacti/component.h), and the sums over several equal or different units that
-- Processor::Processor makes of them (fast_mcpat/processor.cc).
pub mod Sums
mod Tests
use wattwatcher.Prelude.{ℕ, zero, suc, ◌+◌, Bool, ◌==◌, if◌then◌else◌}
use wattwatcher.Double.{Double, ◌⊕◌, ◌⊗◌, ◌⊘◌}
use wattwatcher.Power.{PowerDef, set_pppm, no_power, add_power, scale_power}

pub record Total (F : Type 0) : Type 0 where
  pub area : F
  pub power : PowerDef F
  pub rt_power : PowerDef F

-- A core, cache or controller after computeEnergy() and computeEnergy(false).
pub record Part (F : Type 0) : Type 0 where
  pub area : F
  pub power : PowerDef F
  pub rt_power : PowerDef F
  pub clock_rate : F
  pub execution_time : F

-- The total of one kind of part, and that of the chip, while units are added to both.
pub record Totals (F : Type 0) : Type 0 where
  pub kind : Total F
  pub chip : Total F

-- The units that are built: one stands for all if they are equal.
abbrev pub count_units : Bool → ℕ → ℕ
count_units homogeneous n = if homogeneous then (if n == 0 then 0 else 1) else n

module _ {F : Type 0} ⦃d : Double F⦄ where
  abbrev pub no_total : Total F
  no_total = record { area = d.nat 0; power = no_power; rt_power = no_power }

  unfoldable pub add_total : Total F → Total F → Total F
  add_total x y = record {
    area = x.area ⊕ y.area;
    power = add_power x.power y.power;
    rt_power = add_power x.rt_power y.rt_power;
  }

  -- A unit of its own: its power per cycle becomes power per second.
  abbrev pub share : Part F → Total F
  share p = record {
    area = p.area;
    power = scale_power p.power (set_pppm p.clock_rate (d.nat 1) (d.nat 1) (d.nat 1));
    rt_power =
        scale_power p.rt_power
          (set_pppm (d.nat 1 ⊘ p.execution_time) (d.nat 1) (d.nat 1) (d.nat 1));
  }

  -- One unit for n equal ones; its run-time statistics are those of all n together.
  abbrev pub shares : ℕ → Part F → Total F
  shares n p = record {
    area = p.area ⊗ d.nat n;
    power = scale_power p.power (set_pppm (p.clock_rate ⊗ d.nat n) (d.nat n) (d.nat n) (d.nat n));
    rt_power =
        scale_power p.rt_power
          (set_pppm (d.nat 1 ⊘ p.execution_time) (d.nat n) (d.nat n) (d.nat n));
  }

  unfoldable pub homogeneous_step : ℕ → Part F → Totals F → Totals F
  homogeneous_step n p t =
      let kind = add_total t.kind (shares n p) in
      record { kind = kind; chip = add_total t.chip kind }

  unfoldable pub heterogeneous_step : Part F → Totals F → Totals F
  heterogeneous_step p t = record {
    kind = add_total t.kind (share p);
    chip = add_total t.chip (share p);
  }

  -- for (i = 0; i < count; i++)
  unfoldable pub for_units :
      ℕ → ℕ → (ℕ → Part F) → (Part F → Totals F → Totals F) → Totals F → Totals F
  for_units zero i parts step t = t
  for_units (suc count) i parts step t = for_units count (i + 1) parts step (step (parts i) t)

  unfoldable pub add_units : Bool → ℕ → (ℕ → Part F) → Total F → Totals F
  add_units homogeneous n parts chip =
      for_units (count_units homogeneous n) 0 parts
        (if homogeneous then homogeneous_step n else heterogeneous_step)
        (record { kind = no_total; chip = chip })
