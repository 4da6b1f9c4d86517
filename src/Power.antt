-- ===== src/Power.antt =====
-- powerComponents and powerDef (fast_mcpat/cacti/cacti_interface.h, fast_mcpat/cacti/io.cc), the
-- masks that scale them (set_pppm of fast_mcpat/cacti/basic_circuit.h, pppm_lkg of
-- fast_mcpat/cacti/const.h) and the class Component. Every part of McPAT reports its power in these.
pub mod Algebra
use wattwatcher.Prelude.{ℕ}
use wattwatcher.Double.{Double, ◌⊕◌, ◌⊗◌}

pub record PowerComponents (F : Type 0) : Type 0 where
  pub dynamic : F
  pub leakage : F
  pub gate_leakage : F
  pub short_circuit : F
  pub longer_channel_leakage : F
  pub power_gated_leakage : F
  pub power_gated_with_long_channel_leakage : F

pub record PowerDef (F : Type 0) : Type 0 where
  pub read_op : PowerComponents F
  pub write_op : PowerComponents F
  pub search_op : PowerComponents F

-- double pppm_t[4]
pub record Pppm (F : Type 0) : Type 0 where
  pub p0 : F
  pub p1 : F
  pub p2 : F
  pub p3 : F

abbrev pub set_pppm : {F : Type 0} → F → F → F → F → Pppm F
set_pppm a b c d = record { p0 = a; p1 = b; p2 = c; p3 = d }

module _ {F : Type 0} ⦃d : Double F⦄ where
  abbrev pub no_components : PowerComponents F
  no_components = record {
    dynamic = d.nat 0;
    leakage = d.nat 0;
    gate_leakage = d.nat 0;
    short_circuit = d.nat 0;
    longer_channel_leakage = d.nat 0;
    power_gated_leakage = d.nat 0;
    power_gated_with_long_channel_leakage = d.nat 0;
  }

  abbrev pub no_power : PowerDef F
  no_power = record { read_op = no_components; write_op = no_components; search_op = no_components }

  abbrev pub add_components : PowerComponents F → PowerComponents F → PowerComponents F
  add_components x y = record {
    dynamic = x.dynamic ⊕ y.dynamic;
    leakage = x.leakage ⊕ y.leakage;
    gate_leakage = x.gate_leakage ⊕ y.gate_leakage;
    short_circuit = x.short_circuit ⊕ y.short_circuit;
    longer_channel_leakage = x.longer_channel_leakage ⊕ y.longer_channel_leakage;
    power_gated_leakage = x.power_gated_leakage ⊕ y.power_gated_leakage;
    power_gated_with_long_channel_leakage =
        x.power_gated_with_long_channel_leakage ⊕ y.power_gated_with_long_channel_leakage;
  }

  -- Every kind of subthreshold leakage takes the second entry of the mask.
  abbrev pub scale_components : PowerComponents F → Pppm F → PowerComponents F
  scale_components x y = record {
    dynamic = x.dynamic ⊗ y.p0;
    leakage = x.leakage ⊗ y.p1;
    gate_leakage = x.gate_leakage ⊗ y.p2;
    short_circuit = x.short_circuit ⊗ y.p3;
    longer_channel_leakage = x.longer_channel_leakage ⊗ y.p1;
    power_gated_leakage = x.power_gated_leakage ⊗ y.p1;
    power_gated_with_long_channel_leakage = x.power_gated_with_long_channel_leakage ⊗ y.p1;
  }

  unfoldable pub add_power : PowerDef F → PowerDef F → PowerDef F
  add_power x y = record {
    read_op = add_components x.read_op y.read_op;
    write_op = add_components x.write_op y.write_op;
    search_op = add_components x.search_op y.search_op;
  }

  unfoldable pub scale_power : PowerDef F → Pppm F → PowerDef F
  scale_power x y = record {
    read_op = scale_components x.read_op y;
    write_op = scale_components x.write_op y;
    search_op = scale_components x.search_op y;
  }

  abbrev pub pppm_lkg : Pppm F
  pppm_lkg = set_pppm (d.nat 0) (d.nat 1) (d.nat 1) (d.nat 0)
