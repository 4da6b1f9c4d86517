-- ===== src/Array/Loop.antt =====
-- The while loop of optimize_array: it ends within its rounds, and what it collects.
use wattwatcher.Prelude.{
  ℕ, zero, suc, ◌+◌, ◌-◌, ◌*◌, ◌≤◌, ◌<◌, ◌≡◌, refl, ap, sym, subst, ◌∙◌, true, false, ◌||◌, ◌⊎◌,
  inl, inr, some, [], ◌∷◌, arith, ◌==◌, Bool-cases, Option-cases, All, All-append,
}
use mathlib.Core.Option.{some-injective}
use wattwatcher.Double.{Double}
use wattwatcher.Cacti.{InputParameter, UcaOrg}
use wattwatcher.Array.{
  Search, body, unfinished, round, search, compute_base_power, start, rounds, meets,
  area_efficiency_threshold, exhaustive, initial, with_dev, is_kept,
}

module _ {F : Type 0} ⦃d : Double F⦄ (ci : InputParameter F → UcaOrg F) where
  -- An evaluation that passes the asserts returns CACTI's result.
  pub compute_base_power-eq :
      (ip : InputParameter F) {r : UcaOrg F} → compute_base_power ci ip ≡ some r → r ≡ ci ip
  unfolding compute_base_power
  compute_base_power-eq ip h = ground arith

  -- CACTI's results pass the asserts.
  abbrev pub IsSound : Type 0
  IsSound = (ip : InputParameter F) → compute_base_power ci ip ≡ some (ci ip)

  -- What every round keeps holds of the search that the loop returns.
  pub search_inv :
      (P : Search F → Type 0)
      → ((s : Search F) → P s → unfinished s ≡ true → P (body s (ci s.l_ip)))
      → (fuel : ℕ) (s : Search F) {t : Search F} → P s
      → search ci fuel s ≡ some t
      → P t
  unfolding search round
  search_inv P keep zero s {t} p h = rw (← some-injective _ _ h) p
  search_inv P keep (suc fuel) s {t} p h = elim (Bool-cases (unfinished s)) [
    | inl more ↦ elim (Option-cases (compute_base_power ci s.l_ip)) [
      | inl failed ↦ absurd (ground arith)
      | inr (r, e) ↦
          search_inv P keep fuel (body s r) (rw (compute_base_power-eq s.l_ip e) (keep s p more))
            (ground arith)
    ]
    | inr done ↦ ground arith
  ]

  -- The loop ends by its own test: the fuel is never the reason.
  search-finished :
      (fuel : ℕ) (s : Search F) {t : Search F}
      → s.l_ip.cycle_time_dev ≤ 20 + 10 * fuel
      → search ci fuel s ≡ some t
      → unfinished t ≡ false
  unfolding search round
  search-finished zero s {t} small h = rw (← some-injective _ _ h) (ground arith)
  search-finished (suc fuel) s {t} small h = elim (Bool-cases (unfinished s)) [
    | inl more ↦ elim (Option-cases (compute_base_power ci s.l_ip)) [
      | inl failed ↦ absurd (ground arith)
      | inr (r, e) ↦ search-finished fuel (body s r) {t = t} (ground arith) (ground arith)
    ]
    | inr done ↦ ground arith
  ]

  search-some :
      (sound : IsSound) (fuel : ℕ) (s : Search F) → (t : Search F) × (search ci fuel s ≡ some t)
  unfolding search round
  search-some sound zero s = (s, refl)
  search-some sound (suc fuel) s = elim (Bool-cases (unfinished s)) [
    | inl more ↦
        let (t, e) = search-some sound fuel (body s (ci s.l_ip)) in
        (t, ground (arith, sound s.l_ip))
    | inr done ↦ (s, ground arith)
  ]

  pub search-stop : (fuel : ℕ) (s : Search F) → unfinished s ≡ false → search ci fuel s ≡ some s
  unfolding search
  search-stop zero s done = refl
  search-stop (suc fuel) s done = ground arith

  pub search-step :
      (sound : IsSound) (fuel : ℕ) (s : Search F)
      → unfinished s ≡ true
      → search ci (suc fuel) s ≡ search ci fuel (body s (ci s.l_ip))
  unfolding search round
  search-step sound fuel s more = ground (arith, sound s.l_ip)

  search-idle :
      (s : Search F) {t : Search F}
      → (s.throughput_overflow || s.latency_overflow) ≡ false
      → search ci rounds (start s) ≡ some t
      → s ≡ t
  search-idle s under h =
      some-injective _ _ (sym (search-stop rounds s (rw under refl)) ∙ (rw under at h))

  search-start :
      (s : Search F) {t : Search F} → search ci rounds (start s) ≡ some t → unfinished t ≡ false
  search-start s h = elim (Bool-cases (s.throughput_overflow || s.latency_overflow)) [
    | inl over ↦ search-finished rounds (start s) (rw over (omega arith)) h
    | inr under ↦ subst (λ x. unfinished x ≡ false) (search-idle s under h) (rw under refl)
  ]

  -- If every result of CACTI passes the asserts, the search of optimize_array returns, its loop having
  -- ended by its own test.
  pub search_total :
      (sound : IsSound) (ip : InputParameter F) (first : UcaOrg F)
      → (t : Search F) × (search ci rounds (start (initial ip first)) ≡ some t)
        × (unfinished t ≡ false)
  search_total sound ip first =
      let s = start (initial ip first) in
      let (t, e) = search-some sound rounds s in (t, e, search-start (initial ip first) e)

  -- A result that the code may keep: it meets both constraints, or it is an inefficient CAM.
  abbrev pub IsAcceptable : InputParameter F → UcaOrg F → Type 0
  IsAcceptable ip r =
      ((meets r.cycle_time ip.throughput ≡ true) × (meets r.access_time ip.latency ≡ true))
      ⊎ ((d.lt r.data_array2.area_efficiency area_efficiency_threshold ≡ true)
          × ((ip.assoc == 0) ≡ true))

  -- CACTI returned it for the settings of the search at some deviation from 30 to 100.
  abbrev pub IsEvaluated : InputParameter F → UcaOrg F → Type 0
  IsEvaluated ip r = (k : ℕ) × (20 < k) × (k ≤ 100) × (r ≡ ci (with_dev k (exhaustive ip)))

  abbrev Kept : InputParameter F → UcaOrg F → Type 0
  Kept ip r = IsAcceptable ip r × IsEvaluated ip r

  -- The settings that the search began with, and the deviation left.
  abbrev Inv : InputParameter F → Search F → Type 0
  Inv ip s =
      (k : ℕ) × (k ≤ 100) × (s.l_ip ≡ with_dev k (exhaustive ip)) × All (Kept ip) s.candidates

  is_kept-IsAcceptable :
      (k : ℕ) (ip : InputParameter F) (r : UcaOrg F)
      → is_kept (with_dev k (exhaustive ip)) r ≡ true
      → IsAcceptable ip r
  is_kept-IsAcceptable k ip r h = ground arith

  candidates-Kept :
      (ip : InputParameter F) (s : Search F)
      → Inv ip s
      → unfinished s ≡ true
      → All (Kept ip) (body s (ci s.l_ip)).candidates
  candidates-Kept ip s (k, k_le, settings, kept) more =
      elim (Bool-cases (is_kept s.l_ip (ci s.l_ip))) [
        | inl keep ↦ rw keep (
            All-append (Kept ip) s.candidates (ci s.l_ip ∷ []) kept (
              (
                is_kept-IsAcceptable k ip (ci s.l_ip) (still keep),
                (k, dev_lt, k_le, ap ci settings),
              ),
              tt,
            ))
        | inr drop ↦ rw drop kept
      ]
    where
      dev_lt : 20 < k
      dev_lt = ground (arith, ap (λ x. x.cycle_time_dev) settings)

      still :
          is_kept s.l_ip (ci s.l_ip) ≡ true
          → is_kept (with_dev k (exhaustive ip)) (ci s.l_ip) ≡ true
      still = subst (λ x. is_kept x (ci s.l_ip) ≡ true) settings

  body-Inv :
      (ip : InputParameter F) (s : Search F)
      → Inv ip s
      → unfinished s ≡ true
      → Inv ip (body s (ci s.l_ip))
  body-Inv ip s (k, k_le, settings, kept) more = (
    k - 10,
    omega arith,
    ap (λ x. with_dev (x.cycle_time_dev - 10) x) settings,
    candidates-Kept ip s (k, k_le, settings, kept) more,
  )

  -- Every candidate that the search of optimize_array has collected meets both constraints or is a CAM
  -- of low area efficiency, and is CACTI's result for the search's settings with a permitted
  -- cycle-time deviation above 20 and up to 100.
  pub candidates_kept :
      (ip : InputParameter F) (first : UcaOrg F) {t : Search F}
      → search ci rounds (start (initial ip first)) ≡ some t
      → All (λ r. IsAcceptable ip r × IsEvaluated ip r) t.candidates
  candidates_kept ip first {t} h =
      let s = initial ip first in
      elim (Bool-cases (s.throughput_overflow || s.latency_overflow)) [
        | inl over ↦
            (search_inv (Inv ip) (body-Inv ip) rounds (start s) {t = t}
              (100, omega arith, rw over refl, rw over tt) h).3
        | inr under ↦ rw (← search-idle s under h) tt
      ]
