-- ===== src/Array/Choice.antt =====
-- The choice among the candidates, and what optimize_array makes of a first result that is in time
-- and of results that are in time only by halves.
use wattwatcher.Prelude.{
  ℕ, ◌-◌, ◌<◌, ◌≡◌, refl, sym, subst, ap, ◌∙◌, Bool, true, false, ◌⊎◌, inl, inr, some, List, [],
  ◌∷◌, arith, Bool-cases, All,
}
use wattwatcher.Double.{Double, IsOrdered}
use wattwatcher.Basic.{Technology}
use wattwatcher.Cacti.{InputParameter, UcaOrg}
use wattwatcher.Overhead.{add_overheads}
use wattwatcher.Array.{
  ArraySt, Search, body, search, start, rounds, meets, exhaustive, initial, with_dev, select,
  choose, bignum, improve, optimize_array, warnings,
}
use wattwatcher.Array.Loop.{IsSound, search-step, search-stop}

abbrev pub Among : {A : Type 0} → A → List A → Type 0
Among r [] = ⊥
Among r (c ∷ cs) = (r ≡ c) ⊎ Among r cs

module _ {F : Type 0} ⦃d : Double F⦄ where
  abbrev pub energy : UcaOrg F → F
  energy r = r.power.read_op.dynamic

  -- Either no candidate goes below the limit, or the choice is a candidate that none goes below.
  abbrev pub IsLeast : F → UcaOrg F → List (UcaOrg F) → UcaOrg F → Type 0
  IsLeast limit fallback cs r =
      ((r ≡ fallback) × All (λ c. d.lt (energy c) limit ≡ false) cs)
      ⊎ (Among r cs
          × (d.le (energy r) limit ≡ true)
          × All (λ c. d.le (energy r) (energy c) ≡ true) cs)

  select-nil : (limit : F) (b : UcaOrg F) → select limit b [] ≡ b
  unfolding select
  select-nil limit b = refl

  select-better :
      (limit : F) (b c : UcaOrg F) (cs : List (UcaOrg F))
      → d.lt (energy c) limit ≡ true
      → select limit b (c ∷ cs) ≡ select (energy c) c cs
  unfolding select
  select-better limit b c cs h = rw h

  select-worse :
      (limit : F) (b c : UcaOrg F) (cs : List (UcaOrg F))
      → d.lt (energy c) limit ≡ false
      → select limit b (c ∷ cs) ≡ select limit b cs
  unfolding select
  select-worse limit b c cs h = rw h

  module _ (ordered : IsOrdered F) where
    open ordered use {le_refl, le_trans, le_of_not_lt, le_of_lt}

    le-All :
        (x limit : F) (cs : List (UcaOrg F))
        → d.le x limit ≡ true
        → All (λ c. d.lt (energy c) limit ≡ false) cs
        → All (λ c. d.le x (energy c) ≡ true) cs
    le-All x limit [] h all = tt
    le-All x limit (c ∷ cs) h (p, ps) =
        (le_trans x limit (energy c) h (le_of_not_lt (energy c) limit p), le-All x limit cs h ps)

    better-IsLeast :
        (limit : F) (b c : UcaOrg F) (cs : List (UcaOrg F)) (r : UcaOrg F)
        → d.lt (energy c) limit ≡ true
        → IsLeast (energy c) c cs r
        → IsLeast limit b (c ∷ cs) r
    better-IsLeast limit b c cs r h (inl (e, all)) =
        let least = le-All (energy c) (energy c) cs (le_refl (energy c)) all in
        subst (IsLeast limit b (c ∷ cs)) (sym e)
          (inr (inl refl, le_of_lt (energy c) limit h, (le_refl (energy c), least)))
    better-IsLeast limit b c cs r h (inr (m, le, all)) =
        inr
          (inr m, le_trans (energy r) (energy c) limit le (le_of_lt (energy c) limit h), (le, all))

    worse-IsLeast :
        (limit : F) (b c : UcaOrg F) (cs : List (UcaOrg F)) (r : UcaOrg F)
        → d.lt (energy c) limit ≡ false
        → IsLeast limit b cs r
        → IsLeast limit b (c ∷ cs) r
    worse-IsLeast limit b c cs r h (inl (e, all)) = inl (e, (h, all))
    worse-IsLeast limit b c cs r h (inr (m, le, all)) = inr (
      inr m,
      le,
      (le_trans (energy r) limit (energy c) le (le_of_not_lt (energy c) limit h), all),
    )

    select-IsLeast :
        (limit : F) (b : UcaOrg F) (cs : List (UcaOrg F)) → IsLeast limit b cs (select limit b cs)
    select-IsLeast limit b [] =
        subst (IsLeast limit b []) (sym (select-nil limit b)) (inl (refl, tt))
    select-IsLeast limit b (c ∷ cs) = elim (Bool-cases (d.lt (energy c) limit)) [
      | inl below ↦ subst (IsLeast limit b (c ∷ cs)) (sym (select-better limit b c cs below)) (
          better-IsLeast limit b c cs (select (energy c) c cs) below
            (select-IsLeast (energy c) c cs))
      | inr above ↦
          subst (IsLeast limit b (c ∷ cs)) (sym (select-worse limit b c cs above))
            (worse-IsLeast limit b c cs (select limit b cs) above (select-IsLeast limit b cs))
    ]

    -- If there are candidates, optimize_array goes on with one whose dynamic energy no candidate goes
    -- below, or all their energies are at least 1e30 and it goes on with the last result, marked valid.
    pub choose-IsLeast :
        (last c : UcaOrg F) (cs : List (UcaOrg F))
        → IsLeast bignum (record last { valid = true }) (c ∷ cs) (choose last (c ∷ cs))
    unfolding choose
    choose-IsLeast last c cs = select-IsLeast bignum (record last { valid = true }) (c ∷ cs)

  module _ (ci : InputParameter F → UcaOrg F) (sound : IsSound ci) where
    -- A first result that meets both constraints is kept with the settings as they are and with no
    -- warning, whether or not the search is permitted; only the layout's overheads are added.
    pub optimize_array-met :
        (g_tp : Technology F) (opt_for_clk : Bool) (a : ArraySt F)
        → meets (ci a.l_ip).cycle_time a.l_ip.throughput ≡ true
        → meets (ci a.l_ip).access_time a.l_ip.latency ≡ true
        → optimize_array ci g_tp opt_for_clk a
          ≡ some (
            record a { local_result = add_overheads g_tp a.device_ty a.core_ty a.l_ip (ci a.l_ip) },
            [],
          )
    unfolding optimize_array improve search choose warnings
    optimize_array-met g_tp opt_for_clk a fast prompt = ground (arith, sound a.l_ip)

    -- A round that meets the throughput alone, and one that meets the latency alone.
    body-fast :
        (s : Search F) (r : UcaOrg F)
        → 0 < s.l_ip.assoc
        → meets r.cycle_time s.l_ip.throughput ≡ true
        → meets r.access_time s.l_ip.latency ≡ false
        → body s r ≡ record s {
          l_ip = with_dev (s.l_ip.cycle_time_dev - 10) s.l_ip;
          local_result = r;
          throughput_overflow = false;
        }
    body-fast s r set fast late = ground arith

    body-prompt :
        (s : Search F) (r : UcaOrg F)
        → 0 < s.l_ip.assoc
        → meets r.cycle_time s.l_ip.throughput ≡ false
        → meets r.access_time s.l_ip.latency ≡ true
        → body s r ≡ record s {
          l_ip = with_dev (s.l_ip.cycle_time_dev - 10) s.l_ip;
          local_result = r;
          latency_overflow = false;
        }
    body-prompt s r set late prompt = ground arith

    -- The search before, between and after the two rounds.
    abbrev at_rounds : InputParameter F → ℕ → UcaOrg F → Bool → Bool → Search F
    at_rounds ip k r t l = record {
      l_ip = with_dev k (exhaustive ip);
      local_result = r;
      candidates = [];
      throughput_overflow = t;
      latency_overflow = l;
    }

    start-late :
        (ip : InputParameter F) (first : UcaOrg F)
        → meets first.cycle_time ip.throughput ≡ false
        → start (initial ip first) ≡ at_rounds ip 100 first true true
    start-late ip first late = rw late

    -- The flags of the two constraints are cleared apart. If the first two rounds of the search each meet
    -- one constraint only, the throughput and then the latency, the array gets the second result,
    -- which misses the throughput, and no warning is given.
    pub improve-misses :
        (ip : InputParameter F) (first : UcaOrg F)
        → let r1 = ci (exhaustive ip) in
          let r2 = ci (with_dev 90 (exhaustive ip)) in
          0 < ip.assoc
          → meets first.cycle_time ip.throughput ≡ false
          → meets r1.cycle_time ip.throughput ≡ true
          → meets r1.access_time ip.latency ≡ false
          → meets r2.cycle_time ip.throughput ≡ false
          → meets r2.access_time ip.latency ≡ true
          → improve ci (initial ip first) ≡ some (with_dev 80 (exhaustive ip), r2, [])
    unfolding improve choose warnings
    improve-misses ip first set late fast1 late1 late2 prompt2 =
        rw (start-late ip first late, found) (ground arith)
      where
        r1 : UcaOrg F
        r1 = ci (exhaustive ip)

        r2 : UcaOrg F
        r2 = ci (with_dev 90 (exhaustive ip))

        s1 : Search F
        s1 = at_rounds ip 90 r1 false true

        found :
            search ci rounds (at_rounds ip 100 first true true)
            ≡ some (at_rounds ip 80 r2 false false)
        found =
            search-step ci sound 7 (at_rounds ip 100 first true true) refl
            ∙ ap (search ci 7) (body-fast (at_rounds ip 100 first true true) r1 set fast1 late1)
            ∙ search-step ci sound 6 s1 refl
            ∙ ap (search ci 6) (body-prompt s1 r2 set late2 prompt2)
            ∙ search-stop ci 6 (at_rounds ip 80 r2 false false) refl
