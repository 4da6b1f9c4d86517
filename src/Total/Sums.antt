-- ===== src/Total/Sums.antt =====
-- The sums of Processor::Processor under exact arithmetic: the chip gains what the kind of unit
-- gains, and one unit that stands for n equal ones counts as n units.
use wattwatcher.Prelude.{ℕ, zero, suc, ◌+◌, ◌≡◌, refl, sym, ap, ◌∙◌, Bool, true, false, arith, ◌==◌}
use wattwatcher.Double.{Double, IsExact, ◌⊕◌, ◌⊗◌}
use wattwatcher.Power.{add_power}
use wattwatcher.Power.Algebra.{
  add_power-zero, add_power_assoc, add_power_comm, scale_power-suc, scale_power-zero,
}
use wattwatcher.Total.{
  Total, Part, Totals, no_total, add_total, share, shares, homogeneous_step, heterogeneous_step,
  for_units, add_units,
}

module _ {F : Type 0} ⦃d : Double F⦄ where
  -- The sum of the next units, each for itself.
  unfoldable pub sum_shares : ℕ → ℕ → (ℕ → Part F) → Total F
  sum_shares zero i parts = no_total
  sum_shares (suc count) i parts = add_total (share (parts i)) (sum_shares count (i + 1) parts)

  module _ (exact : IsExact F) where
    pub add_total-zero : (x : Total F) → add_total x no_total ≡ x
    unfolding add_total
    add_total-zero x = simp (exact.add-zero, add_power-zero exact)

    pub add_total_assoc :
        (x y z : Total F) → add_total (add_total x y) z ≡ add_total x (add_total y z)
    unfolding add_total
    add_total_assoc x y z = simp (exact.add_assoc, add_power_assoc exact)

    pub add_total_comm : (x y : Total F) → add_total x y ≡ add_total y x
    unfolding add_total
    add_total_comm x y = λ i. record {
      area = exact.add_comm x.area y.area i;
      power = add_power_comm exact x.power y.power i;
      rt_power = add_power_comm exact x.rt_power y.rt_power i;
    }

    pub zero-add_total : (x : Total F) → add_total no_total x ≡ x
    zero-add_total x = add_total_comm no_total x ∙ add_total-zero x

    for_units-heterogeneous :
        (count i : ℕ) (parts : ℕ → Part F) (t : Totals F)
        → for_units count i parts heterogeneous_step t ≡ record {
          kind = add_total t.kind (sum_shares count i parts);
          chip = add_total t.chip (sum_shares count i parts);
        }
    unfolding for_units sum_shares heterogeneous_step
    for_units-heterogeneous zero i parts t = simp add_total-zero
    for_units-heterogeneous (suc count) i parts t =
        for_units-heterogeneous count (i + 1) parts (heterogeneous_step (parts i) t)
        ∙ simp add_total_assoc

    -- What a kind of unit ends with when its units differ.
    pub add_units-false :
        (n : ℕ) (parts : ℕ → Part F) (chip : Total F)
        → add_units false n parts chip
          ≡ record { kind = sum_shares n 0 parts; chip = add_total chip (sum_shares n 0 parts) }
    unfolding add_units
    add_units-false n parts chip =
        for_units-heterogeneous n 0 parts (record { kind = no_total; chip = chip })
        ∙ simp zero-add_total

    -- And when they are equal.
    pub add_units-true :
        (n : ℕ) (parts : ℕ → Part F) (chip : Total F)
        → add_units true (suc n) parts chip ≡ record {
          kind = shares (suc n) (parts 0);
          chip = add_total chip (shares (suc n) (parts 0));
        }
    unfolding add_units for_units homogeneous_step
    add_units-true n parts chip =
        let several : (suc n == 0) ≡ false = ground arith in
        rw several (
          ap (λ (x : Total F). let t : Totals F = record { kind = x; chip = add_total chip x } in t)
            (zero-add_total (shares (suc n) (parts 0))))

    add_units-zero :
        (parts : ℕ → Part F) (chip : Total F)
        → add_units true 0 parts chip ≡ record { kind = no_total; chip = chip }
    unfolding add_units for_units
    add_units-zero parts chip = refl

    -- The chip gains in area and in both powers exactly what the kind of unit has in the end, whether
    -- the units are equal or not and however many there are.
    pub add_units_balance :
        (homogeneous : Bool) (n : ℕ) (parts : ℕ → Part F) (chip : Total F)
        → (add_units homogeneous n parts chip).chip
          ≡ add_total chip (add_units homogeneous n parts chip).kind
    add_units_balance false n parts chip = simp add_units-false
    add_units_balance true zero parts chip = simp (add_units-zero, add_total-zero)
    add_units_balance true (suc n) parts chip = simp add_units-true

    area-sum_shares : (n i : ℕ) (p : Part F) → (sum_shares n i (λ _. p)).area ≡ p.area ⊗ d.nat n
    unfolding sum_shares add_total
    area-sum_shares zero i p = sym (exact.mul-zero p.area)
    area-sum_shares (suc n) i p =
        let e : p.area ⊗ d.nat (suc n) ≡ p.area ⊗ d.nat n ⊕ p.area =
          simp (exact.nat-suc, exact.mul-add, exact.mul-one) in
        rw (area-sum_shares n (i + 1) p) (exact.add_comm p.area (p.area ⊗ d.nat n) ∙ sym e)

    power-sum_shares : (n i : ℕ) (p : Part F) → (sum_shares n i (λ _. p)).power ≡ (shares n p).power
    unfolding sum_shares add_total
    power-sum_shares zero i p = sym (scale_power-zero exact p.power p.clock_rate)
    power-sum_shares (suc n) i p = rw (power-sum_shares n (i + 1) p) (
        add_power_comm exact (share p).power (shares n p).power
        ∙ sym (scale_power-suc exact p.power p.clock_rate n))

    -- One unit that stands for n equal ones gives the area and the peak power that the n units give
    -- when each is counted for itself, in the total of its kind and in that of the chip.
    pub homogeneous-heterogeneous :
        (n : ℕ) (p : Part F) (chip : Total F)
        → let one = add_units true n (λ _. p) chip in
          let all = add_units false n (λ _. p) chip in
          (one.kind.area ≡ all.kind.area)
          × (one.kind.power ≡ all.kind.power)
          × (one.chip.area ≡ all.chip.area)
          × (one.chip.power ≡ all.chip.power)
    unfolding add_total add_units for_units
    homogeneous-heterogeneous zero p chip = (refl, refl, refl, refl)
    homogeneous-heterogeneous (suc n) p chip =
        rw (add_units-true n (λ _. p) chip, add_units-false (suc n) (λ _. p) chip)
          (
            sym (area-sum_shares (suc n) 0 p),
            sym (power-sum_shares (suc n) 0 p),
            ap (λ x. chip.area ⊕ x) (sym (area-sum_shares (suc n) 0 p)),
            ap (add_power chip.power) (sym (power-sum_shares (suc n) 0 p)),
          )
