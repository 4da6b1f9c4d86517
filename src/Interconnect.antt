-- ===== src/Interconnect.antt =====
-- class interconnect (fast_mcpat/interconnect.h, fast_mcpat/interconnect.cc): a wire that is widened
-- until it is fast enough, and cut into pipeline stages where that is permitted. CACTI's class Wire
-- is an argument. `none` is a run that an assert stops.
pub mod Widen
mod Tests
use wattwatcher.Prelude.{
  ℕ, zero, suc, Bool, true, false, not, ◌&&◌, Option, none, some, ltb, if◌then◌else◌, ◌>>=◌, assert,
}
use wattwatcher.Double.{Double, ◌⊕◌, ◌⊖◌, ◌⊗◌, ◌⊘◌}
use wattwatcher.Power.{PowerDef, no_power}
use wattwatcher.Basic.{
  DeviceTy, CoreType, Technology, longer_channel_device_reduction, power_gating_leakage_reduction,
}
use wattwatcher.Cacti.{InputParameter}

-- What compute() reads of a Wire.
pub record Wire (F : Type 0) : Type 0 where
  pub delay : F
  pub dynamic : F
  pub leakage : F
  pub gate_leakage : F
  pub area : F
  pub wire_width : F
  pub wire_spacing : F

pub record Interconnect (F : Type 0) : Type 0 where
  pub device_ty : DeviceTy
  pub core_ty : CoreType
  pub opt_local : Bool
  pub pipelinable : Bool
  pub route_over_perc : F
  pub data_width : ℕ
  pub length : F
  pub latency : F
  pub throughput : F
  pub width_scaling : F
  pub space_scaling : F
  pub delay : F
  pub area : F
  -- no_device_under_wire_area
  pub bare_w : F
  pub bare_h : F
  pub power : PowerDef F
  pub power_bit : PowerDef F
  pub latency_overflow : Bool
  -- not set before the wire is pipelined
  pub num_pipe_stages : Option ℕ

-- Wires start at a scaling of 1 and have two widenings before 3.
abbrev pub widenings : ℕ
widenings = 2

module _ {F : Type 0} ⦃d : Double F⦄ where
  -- The wire before the first compute().
  abbrev pub fresh :
      InputParameter F
      → DeviceTy
      → CoreType
      → (data_w : ℕ) (len : F) (pipelinable : Bool) (route_over_perc : F) (opt_local : Bool)
      → (width_s space_s : F) → Interconnect F
  fresh l_ip device_ty core_ty data_w len pipelinable route_over_perc opt_local width_s space_s =
      record {
        device_ty = device_ty;
        core_ty = core_ty;
        opt_local = opt_local;
        pipelinable = pipelinable;
        route_over_perc = route_over_perc;
        data_width = data_w;
        length = len;
        latency = l_ip.latency;
        throughput = l_ip.throughput;
        width_scaling = width_s;
        space_scaling = space_s;
        delay = d.nat 0;
        area = d.nat 0;
        bare_w = d.nat 0;
        bare_h = d.nat 0;
        power = no_power;
        power_bit = no_power;
        latency_overflow = false;
        num_pipe_stages = none;
      }

  -- delay > limit && width_scaling < 3.0
  abbrev pub too_slow : F → Interconnect F → Bool
  too_slow limit c = d.lt limit c.delay && d.lt c.width_scaling (d.lit 30 1)

  module _ (new_wire : (length width_scaling space_scaling : F) → Wire F) where
    unfoldable pub compute : Interconnect F → Interconnect F
    compute c =
        let wtemp = new_wire c.length c.width_scaling c.space_scaling in
        record c {
          delay = wtemp.delay;
          power = record (c.power) {
            read_op = record (c.power.read_op) {
              dynamic = wtemp.dynamic;
              leakage = wtemp.leakage;
              gate_leakage = wtemp.gate_leakage;
            };
          };
          area = wtemp.area;
          bare_h = wtemp.wire_width ⊕ wtemp.wire_spacing;
          bare_w = c.length;
        }

    abbrev pub widen : Interconnect F → Interconnect F
    widen c = compute (record c {
      width_scaling = c.width_scaling ⊗ d.nat 2;
      space_scaling = c.space_scaling ⊗ d.nat 2;
    })

    -- The while loop, with fuel.
    unfoldable pub widen_until : ℕ → F → Interconnect F → Interconnect F
    widen_until zero limit c = c
    widen_until (suc fuel) limit c = elim (too_slow limit c) [
      | true ↦ widen_until fuel limit (widen c)
      | false ↦ c
    ]

    -- Bypass logic and the like: what is too slow is reported.
    unfoldable pub meet_latency : Bool → Interconnect F → Interconnect F
    meet_latency opt_for_clk c =
        let w = widen_until widenings c.latency c in
        if opt_for_clk && c.opt_local
        then record w { latency_overflow = d.lt c.latency w.delay }
        else c

    abbrev pub pipeline : Interconnect F → Option (Interconnect F)
    pipeline c =
        let stages = d.ceil (c.delay ⊘ c.throughput) in
        assert (ltb 0 stages) (record c {
          num_pipe_stages = some stages;
          delay = c.delay ⊘ d.nat stages ⊕ d.nat stages ⊗ d.lit 5 2 ⊗ c.delay;
        })

    -- Buses: what is too slow is pipelined.
    unfoldable pub meet_throughput : Bool → Interconnect F → Option (Interconnect F)
    meet_throughput opt_for_clk c =
        let w = widen_until widenings c.throughput c in
        if opt_for_clk && c.opt_local
        then (if d.lt c.throughput w.delay then pipeline w else some w)
        else some c

    -- One bit becomes the whole width, with the leakage of its devices.
    unfoldable pub finish : Technology F → Interconnect F → Option (Interconnect F)
    finish g_tp c =
        let width = d.nat c.data_width in
        let dynamic = c.power.read_op.dynamic ⊗ width in
        let leakage = c.power.read_op.leakage ⊗ width in
        let gate_leakage = c.power.read_op.gate_leakage ⊗ width in
        let reduction = longer_channel_device_reduction g_tp c.device_ty c.core_ty in
        let gated = leakage ⊗ power_gating_leakage_reduction g_tp false in
        let bare_h = c.bare_h ⊗ width in
        let area = c.area ⊗ width in
        assert (d.lt (d.nat 0) dynamic && (d.lt (d.nat 0) leakage && d.lt (d.nat 0) gate_leakage))
          (record c {
            power_bit = c.power;
            power = record {
              read_op = record (c.power.read_op) {
                dynamic = dynamic ⊗ g_tp.sckt_co_eff;
                leakage = leakage;
                gate_leakage = gate_leakage;
                longer_channel_leakage = leakage ⊗ reduction;
                power_gated_leakage = gated;
                power_gated_with_long_channel_leakage = gated ⊗ reduction;
              };
              write_op = record (c.power.write_op) {
                dynamic = c.power.write_op.dynamic ⊗ g_tp.sckt_co_eff;
              };
              search_op = record (c.power.search_op) {
                dynamic = c.power.search_op.dynamic ⊗ g_tp.sckt_co_eff;
              };
            };
            bare_h = bare_h;
            area =
                if c.pipelinable
                then area ⊗ c.route_over_perc ⊕ (c.bare_w ⊗ bare_h) ⊗ (d.nat 1 ⊖ c.route_over_perc)
                else area;
          })

    -- The constructor, from the fresh wire on.
    unfoldable pub construct : Technology F → Bool → Interconnect F → Option (Interconnect F)
    construct g_tp opt_for_clk c = do
      w ←
          (if c.pipelinable
            then meet_throughput opt_for_clk (compute c)
            else some (meet_latency opt_for_clk (compute c)))
      finish g_tp w

    -- leakage_feedback, after CACTI has taken the new temperature. It leaves the wire's area that of
    -- one bit.
    unfoldable pub leakage_feedback : Technology F → Interconnect F → Option (Interconnect F)
    leakage_feedback g_tp old =
        let c = compute old in
        let width = d.nat c.data_width in
        let dynamic = c.power.read_op.dynamic ⊗ width in
        let leakage = c.power.read_op.leakage ⊗ width in
        let gate_leakage = c.power.read_op.gate_leakage ⊗ width in
        assert (d.lt (d.nat 0) dynamic && (d.lt (d.nat 0) leakage && d.lt (d.nat 0) gate_leakage))
          (record c {
            power_bit = c.power;
            power = record {
              read_op = record (c.power.read_op) {
                dynamic = dynamic ⊗ g_tp.sckt_co_eff;
                leakage = leakage;
                gate_leakage = gate_leakage;
                longer_channel_leakage =
                    leakage ⊗ longer_channel_device_reduction g_tp c.device_ty c.core_ty;
              };
              write_op = record (c.power.write_op) {
                dynamic = c.power.write_op.dynamic ⊗ g_tp.sckt_co_eff;
              };
              search_op = record (c.power.search_op) {
                dynamic = c.power.search_op.dynamic ⊗ g_tp.sckt_co_eff;
              };
            };
          })
