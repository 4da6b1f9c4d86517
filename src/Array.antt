-- ===== src/Array.antt =====
-- class ArrayST (fast_mcpat/array.h, fast_mcpat/array.cc): a memory array whose organisation CACTI
-- chooses, tightened until it meets the clock. `none` is a run that an assert stops. cleanup() frees
-- CACTI's results for other voltages, which McPAT does not read: it changes nothing here.
pub mod Loop
pub mod Choice
mod Tests
use wattwatcher.Prelude.{
  ℕ, zero, suc, ◌-◌, ◌*◌, Bool, true, false, not, ◌&&◌, ◌||◌, Option, none, some, List, [], ◌∷◌,
  ◌++◌, String, ltb, ◌==◌, if◌then◌else◌, ◌>>=◌, assert,
}
use wattwatcher.Double.{Double, ◌⊖◌, ◌⊘◌}
use wattwatcher.Basic.{DeviceTy, CoreType, Technology}
use wattwatcher.Cacti.{InputParameter, UcaOrg}
use wattwatcher.Overhead.{add_overheads, rescale}

pub record ArraySt (F : Type 0) : Type 0 where
  pub l_ip : InputParameter F
  pub name : String
  pub device_ty : DeviceTy
  pub opt_local : Bool
  pub core_ty : CoreType
  pub is_default : Bool
  pub local_result : UcaOrg F

pub data Warning : Type 0 where
  throughput_constraint latency_constraint : Warning

-- The variables of optimize_array while it searches.
pub record Search (F : Type 0) : Type 0 where
  pub l_ip : InputParameter F
  pub local_result : UcaOrg F
  pub candidates : List (UcaOrg F)
  pub throughput_overflow : Bool
  pub latency_overflow : Bool

abbrev pub optimization_end : ℕ
optimization_end = 20

-- The evaluations that the loop can make, cycle_time_dev falling by 10 from 100 to 20.
abbrev pub rounds : ℕ
rounds = 8

module _ {F : Type 0} ⦃d : Double F⦄ where
  abbrev pub area_efficiency_threshold : F
  area_efficiency_threshold = d.lit 200 1

  abbrev pub bignum : F
  bignum = d.lit 1_000_000_000_000_000_000_000_000_000_000 0

  -- (time - constraint) <= 1e-10
  abbrev pub meets : F → F → Bool
  meets time constraint = d.le (time ⊖ constraint) (d.lit 1 10)

  abbrev pub with_dev : ℕ → InputParameter F → InputParameter F
  with_dev k l_ip = record l_ip { cycle_time_dev = k }

  abbrev pub is_kept : InputParameter F → UcaOrg F → Bool
  is_kept l_ip r =
      (meets r.cycle_time l_ip.throughput && meets r.access_time l_ip.latency)
      || (d.lt r.data_array2.area_efficiency area_efficiency_threshold && l_ip.assoc == 0)

  -- The constraints are those of the moment when optimize_array began; no step changes them.
  abbrev pub body : Search F → UcaOrg F → Search F
  body s r =
      let fast = meets r.cycle_time s.l_ip.throughput in
      let prompt = meets r.access_time s.l_ip.latency in
      let keep = is_kept s.l_ip r in
      record {
        l_ip = with_dev (s.l_ip.cycle_time_dev - 10) s.l_ip;
        local_result = r;
        candidates = if keep then s.candidates ++ r ∷ [] else s.candidates;
        throughput_overflow = s.throughput_overflow && not (if keep then fast && prompt else fast);
        latency_overflow = s.latency_overflow && not (if keep then fast && prompt else prompt);
      }

  abbrev pub unfinished : Search F → Bool
  unfinished s =
      (s.throughput_overflow || s.latency_overflow) && ltb optimization_end s.l_ip.cycle_time_dev

  module _ (cacti_interface : InputParameter F → UcaOrg F) where
    unfoldable pub compute_base_power : InputParameter F → Option (UcaOrg F)
    compute_base_power l_ip = do
      let r = cacti_interface l_ip
      assert (d.lt (d.nat 0) r.cycle_time && d.lt (d.nat 0) r.access_time) r

    -- One round of the while loop, its test apart.
    unfoldable pub round : Search F → Option (Search F)
    round s = do r ← compute_base_power s.l_ip; some (body s r)

    -- The while loop, with fuel; it gives the search also when the fuel runs out.
    unfoldable pub search : ℕ → Search F → Option (Search F)
    search zero s = some s
    search (suc fuel) s = elim (unfinished s) [
      | true ↦ elim (round s) [ none ↦ none | some t ↦ search fuel t ]
      | false ↦ some s
    ]

  -- Timing before all else: the settings of the search.
  abbrev pub exhaustive : InputParameter F → InputParameter F
  exhaustive l_ip = record l_ip {
    ed = 0;
    delay_wt = 100;
    cycle_time_wt = 1000;
    area_wt = 10;
    dynamic_power_wt = 10;
    leakage_power_wt = 10;
    delay_dev = 1_000_000;
    cycle_time_dev = 100;
    area_dev = 1_000_000;
    dynamic_power_dev = 1_000_000;
    leakage_power_dev = 1_000_000;
  }

  -- Over-optimising a small array leads to worse solutions.
  abbrev pub is_worthwhile : Bool → ArraySt F → Bool
  is_worthwhile opt_for_clk a =
      (opt_for_clk && a.opt_local)
      && ((ltb 2048 a.l_ip.cache_sz && not (a.l_ip.assoc == 0))
          || (ltb 256 a.l_ip.cache_sz && a.l_ip.assoc == 0))

  -- The candidate of least dynamic energy, the first of several.
  unfoldable pub select : F → UcaOrg F → List (UcaOrg F) → UcaOrg F
  select min_dynamic_energy best [] = best
  select min_dynamic_energy best (c ∷ cs) =
      let energy = c.power.read_op.dynamic in
      let better = d.lt energy min_dynamic_energy in
      select (if better then energy else min_dynamic_energy) (if better then c else best) cs

  unfoldable pub choose : UcaOrg F → List (UcaOrg F) → UcaOrg F
  unfolding select
  choose last [] = last
  choose last (c ∷ cs) = select bignum (record last { valid = true }) (c ∷ cs)

  unfoldable pub warnings : Search F → List Warning
  warnings s =
      if ltb 0 s.l_ip.assoc
      then (if s.throughput_overflow then Warning.throughput_constraint ∷ [] else [])
        ++ (if s.latency_overflow then Warning.latency_constraint ∷ [] else [])
      else []

  -- The search from the first result.
  abbrev pub start : Search F → Search F
  start s =
      if s.throughput_overflow || s.latency_overflow
      then record s {
        l_ip = exhaustive s.l_ip;
        throughput_overflow = true;
        latency_overflow = true;
      }
      else s

  abbrev pub initial : InputParameter F → UcaOrg F → Search F
  initial l_ip first = record {
    l_ip = l_ip;
    local_result = first;
    candidates = [];
    throughput_overflow = not (meets first.cycle_time l_ip.throughput);
    latency_overflow = not (meets first.access_time l_ip.latency);
  }

  -- The search and the choice among its candidates.
  unfoldable pub improve :
      (InputParameter F → UcaOrg F) → Search F → Option (InputParameter F × UcaOrg F × List Warning)
  improve cacti_interface s = do
    t ← search cacti_interface rounds (start s)
    some (t.l_ip, choose t.local_result t.candidates, warnings t)

  module _ (cacti_interface : InputParameter F → UcaOrg F) (g_tp : Technology F)
      (opt_for_clk : Bool) where
    unfoldable pub optimize_array : ArraySt F → Option (ArraySt F × List Warning)
    optimize_array a = do
      first ← compute_base_power cacti_interface a.l_ip
      let s = initial a.l_ip first
      (l_ip, best, warned) ←
          (if is_worthwhile opt_for_clk a
            then improve cacti_interface s
            else some (a.l_ip, first, []))
      let result = add_overheads g_tp a.device_ty a.core_ty l_ip best
      some (record a { l_ip = l_ip; local_result = result }, warned)

    -- error_checking() fills in missing parameters.
    unfoldable pub construct :
        (InputParameter F → InputParameter F) → ArraySt F → Option (ArraySt F × List Warning)
    construct error_checking a =
        let ip = a.l_ip in
        let ip' = if ltb ip.cache_sz 64 then record ip { cache_sz = 64 } else ip in
        let ip'' =
          if ip'.power_gating && ip'.assoc == 0 then record ip' { power_gating = false } else ip' in
        optimize_array (record a { l_ip = error_checking ip'' })

    -- A new temperature, in steps of ten degrees.
    pub leakage_feedback : (InputParameter F → UcaOrg F → UcaOrg F) → F → ArraySt F → ArraySt F
    leakage_feedback reconfigure temperature a =
        let l_ip = record (a.l_ip) { temp = d.round (temperature ⊘ d.lit 100 1) * 10 } in
        let fresh = reconfigure l_ip a.local_result in
        record a { l_ip = l_ip; local_result = rescale g_tp a.device_ty a.core_ty l_ip fresh }
