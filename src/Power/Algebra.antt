-- ===== src/Power/Algebra.antt =====
-- Sums and scalings of powers under exact arithmetic: powers form a commutative monoid on which the
-- masks act.
use wattwatcher.Prelude.{ℕ, suc, ◌≡◌, ◌∙◌, ap₂}
use wattwatcher.Double.{Double, IsExact, ◌⊗◌, ◌⊕◌}
use wattwatcher.Power.{
  PowerComponents, PowerDef, set_pppm, no_power, add_components, add_power, scale_power,
}

module _ {F : Type 0} ⦃d : Double F⦄ (exact : IsExact F) where
  pub add-mul : (x y z : F) → (x ⊕ y) ⊗ z ≡ x ⊗ z ⊕ y ⊗ z
  add-mul x y z =
      exact.mul_comm (x ⊕ y) z
      ∙ exact.mul-add z x y
      ∙ ap₂ (λ a b. a ⊕ b) (exact.mul_comm z x) (exact.mul_comm z y)

  pub zero-add : (x : F) → d.nat 0 ⊕ x ≡ x
  zero-add x = exact.add_comm (d.nat 0) x ∙ exact.add-zero x

  pub zero-mul : (x : F) → d.nat 0 ⊗ x ≡ d.nat 0
  zero-mul x = exact.mul_comm (d.nat 0) x ∙ exact.mul-zero x

  pub add_power-zero : (x : PowerDef F) → add_power x no_power ≡ x
  unfolding add_power
  add_power-zero x = simp (exact.add-zero)

  pub add_power_assoc :
      (x y z : PowerDef F) → add_power (add_power x y) z ≡ add_power x (add_power y z)
  unfolding add_power
  add_power_assoc x y z = simp (exact.add_assoc)

  add_components_comm : (x y : PowerComponents F) → add_components x y ≡ add_components y x
  add_components_comm x y = λ i. record {
    dynamic = exact.add_comm x.dynamic y.dynamic i;
    leakage = exact.add_comm x.leakage y.leakage i;
    gate_leakage = exact.add_comm x.gate_leakage y.gate_leakage i;
    short_circuit = exact.add_comm x.short_circuit y.short_circuit i;
    longer_channel_leakage = exact.add_comm x.longer_channel_leakage y.longer_channel_leakage i;
    power_gated_leakage = exact.add_comm x.power_gated_leakage y.power_gated_leakage i;
    power_gated_with_long_channel_leakage =
        exact.add_comm x.power_gated_with_long_channel_leakage
          y.power_gated_with_long_channel_leakage i;
  }

  pub add_power_comm : (x y : PowerDef F) → add_power x y ≡ add_power y x
  unfolding add_power
  add_power_comm x y = λ i. record {
    read_op = add_components_comm x.read_op y.read_op i;
    write_op = add_components_comm x.write_op y.write_op i;
    search_op = add_components_comm x.search_op y.search_op i;
  }

  -- The mask for n units is the mask for one and that for the others.
  pub scale_power-suc :
      (x : PowerDef F) (rate : F) (n : ℕ)
      → scale_power x
          (set_pppm (rate ⊗ d.nat (suc n)) (d.nat (suc n)) (d.nat (suc n)) (d.nat (suc n)))
        ≡ add_power
            (scale_power x (set_pppm (rate ⊗ d.nat n) (d.nat n) (d.nat n) (d.nat n)))
            (scale_power x (set_pppm rate (d.nat 1) (d.nat 1) (d.nat 1)))
  unfolding add_power scale_power
  scale_power-suc x rate n = simp (exact.nat-suc, exact.mul-add, exact.mul-one)

  pub scale_power-zero :
      (x : PowerDef F) (rate : F)
      → scale_power x (set_pppm (rate ⊗ d.nat 0) (d.nat 0) (d.nat 0) (d.nat 0)) ≡ no_power
  unfolding scale_power
  scale_power-zero x rate = simp (exact.mul-zero)
