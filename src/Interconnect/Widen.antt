-- ===== src/Interconnect/Widen.antt =====
-- How far a wire is widened, and what becomes of one that stays too slow.
use wattwatcher.Prelude.{ℕ, zero, suc, ◌≡◌, refl, true, false, ◌⊎◌, inl, inr, arith, Bool-cases}
use wattwatcher.Double.{Double, ◌⊗◌}
use wattwatcher.Interconnect.{
  Wire, Interconnect, compute, too_slow, widen, widen_until, widenings, meet_latency,
}

module _ {F : Type 0} ⦃d : Double F⦄
    (new_wire : (length width_scaling space_scaling : F) → Wire F) where
  -- Two widenings pass the widest scaling, 3.
  abbrev pub IsNarrow : F → Type 0
  IsNarrow w = d.lt (w ⊗ d.nat 2 ⊗ d.nat 2) (d.lit 30 1) ≡ false

  width-widen :
      (c : Interconnect F)
      → (widen new_wire (widen new_wire c)).width_scaling ≡ c.width_scaling ⊗ d.nat 2 ⊗ d.nat 2
  unfolding compute
  width-widen c = refl

  widened-done :
      (limit : F) (c : Interconnect F)
      → IsNarrow c.width_scaling
      → too_slow limit (widen new_wire (widen new_wire c)) ≡ false
  widened-done limit c narrow = ground (arith, width-widen c)

  widen_until-stop :
      (fuel : ℕ) (limit : F) (c : Interconnect F)
      → too_slow limit c ≡ false
      → widen_until new_wire fuel limit c ≡ c
  unfolding widen_until
  widen_until-stop zero limit c stop = refl
  widen_until-stop (suc fuel) limit c stop = ground arith

  widen_until-step :
      (fuel : ℕ) (limit : F) (c : Interconnect F)
      → too_slow limit c ≡ true
      → widen_until new_wire (suc fuel) limit c ≡ widen_until new_wire fuel limit (widen new_wire c)
  unfolding widen_until
  widen_until-step fuel limit c go = ground arith

  widen_until-zero : (limit : F) (c : Interconnect F) → widen_until new_wire 0 limit c ≡ c
  unfolding widen_until
  widen_until-zero limit c = refl

  -- The loop stops at the first of the wire, the wire at twice and the wire at four times the scaling
  -- that is fast enough or wide enough, and one of them is.
  pub widen_until-first :
      (limit : F) (c : Interconnect F)
      → IsNarrow c.width_scaling
      → let w = widen_until new_wire widenings limit c in
        (too_slow limit w ≡ false)
        × ((w ≡ c)
            ⊎ ((too_slow limit c ≡ true)
                × ((w ≡ widen new_wire c)
                    ⊎ ((too_slow limit (widen new_wire c) ≡ true)
                        × (w ≡ widen new_wire (widen new_wire c))))))
  widen_until-first limit c narrow =
      let c1 = widen new_wire c in
      elim (Bool-cases (too_slow limit c)) [
        | inr stop ↦ rw (widen_until-stop 2 limit c stop) (stop, inl refl)
        | inl go ↦ elim (Bool-cases (too_slow limit c1)) [
          | inr stop ↦
              rw (widen_until-step 1 limit c go, widen_until-stop 1 limit c1 stop)
                (stop, inr (go, inl refl))
          | inl go1 ↦
              rw
                (
                  widen_until-step 1 limit c go,
                  widen_until-step 0 limit c1 go1,
                  widen_until-zero limit (widen new_wire c1),
                )
                (widened-done limit c narrow, inr (go, inr (go1, refl)))
        ]
      ]

  latency-widen_until :
      (fuel : ℕ) (limit : F) (c : Interconnect F)
      → (widen_until new_wire fuel limit c).latency ≡ c.latency
  unfolding widen_until compute
  latency-widen_until zero limit c = refl
  latency-widen_until (suc fuel) limit c =
      ground (arith, latency-widen_until fuel limit (widen new_wire c))

  -- With the clock as the goal, a wire that is not pipelined is reported exactly if its final delay
  -- is over the latency, and only if it could be widened no more. The latency is the one asked for.
  pub meet_latency-overflow :
      (c : Interconnect F)
      → IsNarrow c.width_scaling
      → c.opt_local ≡ true
      → let w = meet_latency new_wire true c in
        (w.latency ≡ c.latency)
        × (w.latency_overflow ≡ d.lt w.latency w.delay)
        × (w.latency_overflow ≡ true → d.lt w.width_scaling (d.lit 30 1) ≡ false)
  unfolding meet_latency
  meet_latency-overflow c narrow local =
      let w = widen_until new_wire widenings c.latency c in
      let same : w.latency ≡ c.latency = latency-widen_until widenings c.latency c in
      let (done, _) = widen_until-first c.latency c narrow in ground arith
