-- ===== src/Array/Tests.antt =====
-- The search at a clock that it meets on the sixth attempt, the choice among two candidates, and the
-- results that are in time only by halves.
use wattwatcher.Prelude.{
  ℕ, ◌≡◌, refl, true, false, some, [], ◌∷◌, All, arith, ◌+◌, ltb, if◌then◌else◌,
}
use wattwatcher.Double.{nat_double, nat-IsOrdered}
use wattwatcher.Basic.{DeviceTy, CoreType}
use wattwatcher.Cacti.{InputParameter, UcaOrg}
use wattwatcher.Overhead.{add_overheads}
use wattwatcher.Array.{
  ArraySt, Search, search, round, compute_base_power, start, rounds, exhaustive, initial, with_dev,
  choose, bignum, improve, optimize_array, unfinished,
}
use wattwatcher.Array.Loop.{IsSound, IsAcceptable, IsEvaluated, candidates_kept, search_total}
use wattwatcher.Array.Choice.{IsLeast, choose-IsLeast, optimize_array-met, improve-misses}
use wattwatcher.Samples.{blank_input, blank_uca, technology, power_of}

abbrev ip : InputParameter ℕ
ip = record blank_input { assoc = 4; cache_sz = 4096; throughput = 50; latency = 10 }

-- The cycle time follows the permitted deviation.
abbrev follows : InputParameter ℕ → UcaOrg ℕ
follows ip = record blank_uca { cycle_time = ip.cycle_time_dev + 1; access_time = 5 }

follows-IsSound : IsSound follows
unfolding compute_base_power
follows-IsSound ip = ground arith

abbrev slow : UcaOrg ℕ
slow = record blank_uca { cycle_time = 90; access_time = 5 }

abbrev met : UcaOrg ℕ
met = record blank_uca { cycle_time = 41; access_time = 5 }

abbrev found : Search ℕ
found = record {
  l_ip = with_dev 30 (exhaustive ip);
  local_result = met;
  candidates = met ∷ [];
  throughput_overflow = false;
  latency_overflow = false;
}

finds : search follows rounds (start (initial ip slow)) ≡ some found
unfolding search round compute_base_power
finds = refl

search_total_example :
    (t : Search ℕ) × (search follows rounds (start (initial ip slow)) ≡ some t)
    × (unfinished t ≡ false)
search_total_example = search_total follows follows-IsSound ip slow

candidates_kept_example : All (λ r. IsAcceptable follows ip r × IsEvaluated follows ip r) (met ∷ [])
candidates_kept_example = candidates_kept follows ip slow {t = found} finds

abbrev hot : UcaOrg ℕ
hot = record blank_uca { power = power_of 9 4 }

choose-IsLeast_example :
    IsLeast bignum (record slow { valid = true }) (hot ∷ met ∷ []) (choose slow (hot ∷ met ∷ []))
choose-IsLeast_example = choose-IsLeast nat-IsOrdered slow hot (met ∷ [])

chooses : choose slow (hot ∷ met ∷ []) ≡ met
unfolding choose
chooses = refl

abbrev array : ArraySt ℕ
array = record {
  l_ip = record ip { cycle_time_dev = 20 };
  name = "cache";
  device_ty = DeviceTy.core_device;
  opt_local = true;
  core_ty = CoreType.ooo;
  is_default = true;
  local_result = blank_uca;
}

optimize_array-met_example :
    optimize_array follows technology true array
    ≡ some (
      record array {
        local_result =
            add_overheads technology array.device_ty array.core_ty array.l_ip (follows array.l_ip);
      },
      [],
    )
optimize_array-met_example =
    optimize_array-met follows follows-IsSound technology true array refl refl

-- Fast at first, and prompt afterwards.
abbrev halves : InputParameter ℕ → UcaOrg ℕ
halves ip = record blank_uca {
  cycle_time = if ltb 95 ip.cycle_time_dev then 40 else 60;
  access_time = if ltb 95 ip.cycle_time_dev then 20 else 8;
}

halves-IsSound : IsSound halves
unfolding compute_base_power
halves-IsSound ip = ground arith

improve-misses_example :
    improve halves (initial ip slow)
    ≡ some (with_dev 80 (exhaustive ip), record blank_uca { cycle_time = 60; access_time = 8 }, [])
improve-misses_example =
    improve-misses halves halves-IsSound ip slow (omega arith) refl refl refl refl refl
