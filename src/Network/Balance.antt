-- ===== src/Network/Balance.antt =====
-- The chip gains what the networks have, in exact arithmetic.
use wattwatcher.Prelude.{
  ℕ, zero, suc, ◌+◌, ◌≡◌, refl, sym, ap, ◌∙◌, Bool, true, false, ◌&&◌, Option, some, List, [], ◌∷◌,
  arith, ◌≤◌, length, Ensures, Ensures-bind, Ensures-any, Ensures-if,
}
use wattwatcher.Double.{Double, IsExact, ◌⊕◌, ◌⊗◌}
use wattwatcher.Power.{PowerDef, add_power}
use wattwatcher.Power.Algebra.{add_power-zero, add_power_assoc}
use wattwatcher.System.{System}
use wattwatcher.Total.{Total, Totals, add_total, no_total, count_units}
use wattwatcher.Noc.{Noc}
use wattwatcher.Network.{
  add_network_area, add_link_area, add_network_power, build_networks, lay_link, lay_links,
  power_networks, add_networks,
}

module _ {F : Type 0} ⦃d : Double F⦄ (exact : IsExact F) (base : Total F) where
  abbrev AreaBalanced : Totals F → Type 0
  AreaBalanced t = t.chip.area ≡ base.area ⊕ t.kind.area

  abbrev PowerBalanced : Totals F → Type 0
  PowerBalanced t =
      (t.chip.power ≡ add_power base.power t.kind.power)
      × (t.chip.rt_power ≡ add_power base.rt_power t.kind.rt_power)

  -- No power has been added yet.
  abbrev PowerUntouched : Totals F → Type 0
  PowerUntouched t =
      (t.chip.power ≡ base.power) × (t.chip.rt_power ≡ base.rt_power) × PowerBalanced t

  area_step : {a k : F} (x : F) → a ≡ base.area ⊕ k → a ⊕ x ≡ base.area ⊕ (k ⊕ x)
  area_step {a} {k} x e = ap (λ y. y ⊕ x) e ∙ exact.add_assoc base.area k x

  power_step :
      (b k x : PowerDef F) {a : PowerDef F}
      → a ≡ add_power b k
      → add_power a x ≡ add_power b (add_power k x)
  power_step b k x e = ap (λ y. add_power y x) e ∙ add_power_assoc exact b k x

  add_left : {a b : PowerDef F} (k : PowerDef F) → a ≡ b → add_power a k ≡ add_power b k
  add_left k e = ap (λ y. add_power y k) e

  -- While areas are added.
  abbrev Before : Totals F → Type 0
  Before t = AreaBalanced t × PowerUntouched t

  abbrev BeforeAll : ℕ → List (Noc F) × Totals F → Type 0
  BeforeAll count r = (length r.0 ≡ count) × Before r.1

  add_link_area-Before :
      (homogeneous : Bool) (n : ℕ) (area : F) (t : Totals F)
      → Before t
      → Before (add_link_area homogeneous n area t)
  add_link_area-Before homogeneous n area t (a, p) = (area_step {k = t.kind.area} _ a, p)

  module _ (sys : System F) (homogeneous : Bool) (n : ℕ) (build : ℕ → F → Option (Noc F))
      (lay : F → Noc F → Option (Noc F)) (energy : ℕ → Noc F → Noc F) where
    lay_link-Before :
        (i : ℕ) (c : Noc F) (t : Totals F)
        → Before t
        → Ensures (λ r. Before r.1) (lay_link sys homogeneous n build lay energy i c t)
    unfolding lay_link
    lay_link-Before i c t v =
        Ensures-if (λ r. Before r.1) (c.param.has_global_link && (sys.noc i).type) _ (some (c, t))
          (Ensures-bind (λ _. Unit {0}) (λ r. Before r.1) (lay _ c) _ (Ensures-any (lay _ c))
            (λ c' _. add_link_area-Before homogeneous n _ t v))
          v

    lay_links-Before :
        (i : ℕ) (cs : List (Noc F)) (t : Totals F)
        → Before t
        → Ensures (BeforeAll (length cs)) (lay_links sys homogeneous n build lay energy i cs t)
    unfolding lay_links
    lay_links-Before i [] t v = (refl, v)
    lay_links-Before i (c ∷ cs) t v =
        Ensures-bind (λ r. Before r.1) (BeforeAll (suc (length cs)))
          (lay_link sys homogeneous n build lay energy i c t) _ (lay_link-Before i c t v)
          (λ r w.
            Ensures-bind (BeforeAll (length cs)) (BeforeAll (suc (length cs)))
              (lay_links sys homogeneous n build lay energy (i + 1) cs r.1) _
              (lay_links-Before (i + 1) cs r.1 w) (λ _ (e, x). (ap suc e, x)))

    -- Different networks add to the kind and to the chip alike.
    build-false :
        (count i : ℕ) (t : Totals F)
        → Before t
        → Ensures (BeforeAll count) (build_networks sys false n build lay energy count i t)
    unfolding build_networks
    build-false zero i t v = (refl, v)
    build-false (suc count) i t (a, p) =
        Ensures-bind (λ _. Unit {0}) (BeforeAll (suc count)) (build i _) _ (Ensures-any (build i _))
          (λ c _.
            Ensures-bind (BeforeAll count) (BeforeAll (suc count))
              (build_networks sys false n build lay energy count (i + 1) _) _
              (build-false count (i + 1) (add_network_area false n c.area t)
                (area_step {k = t.kind.area} c.area a, p))
              (λ _ (e, x). (ap suc e, x)))

    power-false :
        (i : ℕ) (cs : List (Noc F)) (t : Totals F)
        → AreaBalanced t
        → PowerBalanced t
        → let t' = power_networks sys false n build lay energy i cs t in
          AreaBalanced t' × PowerBalanced t'
    unfolding power_networks
    power-false i [] t a p = (a, p)
    power-false i (c ∷ cs) t a (p, r) =
        power-false (i + 1) cs (add_network_power false n (energy i c) t) a
          (power_step base.power t.kind.power _ p, power_step base.rt_power t.kind.rt_power _ r)

    -- Equal networks have one that stands for all.
    build-true :
        (count : ℕ) (t : Totals F)
        → count ≤ 1
        → t.chip.area ≡ base.area
        → Before t
        → Ensures (BeforeAll count) (build_networks sys true n build lay energy count 0 t)
    unfolding build_networks
    build-true zero t few e v = (refl, v)
    build-true (suc zero) t few e (a, p) =
        Ensures-bind (λ _. Unit {0}) (BeforeAll 1) (build 0 _) _ (Ensures-any (build 0 _))
          (λ c _. (refl, (ap (λ y. y ⊕ (t.kind.area ⊕ c.area ⊗ d.nat n)) e, p)))
    build-true (suc (suc _)) t few e v = absurd (omega arith)

    power-true :
        (cs : List (Noc F)) (t : Totals F)
        → length cs ≤ 1
        → Before t
        → let t' = power_networks sys true n build lay energy 0 cs t in
          AreaBalanced t' × PowerBalanced t'
    unfolding power_networks
    power-true [] t few (a, (p, r, v)) = (a, v)
    power-true (c ∷ []) t few (a, (p, r, v)) = (a, (add_left _ p, add_left _ r))
    power-true (_ ∷ _ ∷ _) t few v = absurd (omega arith)

  abbrev Balanced : Totals F → Type 0
  Balanced t = t.chip ≡ add_total base t.kind

  balance : (t : Totals F) → AreaBalanced t → PowerBalanced t → Balanced t
  unfolding add_total
  balance t a (p, r) = λ i. record { area = a i; power = p i; rt_power = r i }

  start-Before : Before (record { kind = no_total; chip = base })
  start-Before = (
    sym (exact.add-zero base.area),
    (refl, refl, (sym (add_power-zero exact base.power), sym (add_power-zero exact base.rt_power))),
  )

  few_units : (n : ℕ) → count_units true n ≤ 1
  few_units n = ground arith

module _ {F : Type 0} ⦃d : Double F⦄ (exact : IsExact F) (sys : System F) (n : ℕ)
    (build : ℕ → F → Option (Noc F)) (lay : F → Noc F → Option (Noc F))
    (energy : ℕ → Noc F → Noc F) where
  -- If the networks are built at all, the chip gains in area and in both powers what the networks have
  -- in the end, links included, whether they are equal or not.
  pub add_networks_balance :
      (homogeneous : Bool) (base : Total F)
      → Ensures
          (λ t. t.chip ≡ add_total base t.kind)
          (add_networks sys homogeneous n build lay energy base)
  unfolding add_networks
  add_networks_balance false base =
      let t0 : Totals F = record { kind = no_total; chip = base } in
      Ensures-bind (BeforeAll exact base n) (Balanced exact base)
        (build_networks sys false n build lay energy n 0 t0) _
        (build-false exact base sys false n build lay energy n 0 t0 (start-Before exact base))
        (λ r v.
          Ensures-bind (BeforeAll exact base (length r.0)) (Balanced exact base)
            (lay_links sys false n build lay energy 0 r.0 r.1) _
            (lay_links-Before exact base sys false n build lay energy 0 r.0 r.1 v.1)
            (λ s w.
              let (a, p) =
                power-false exact base sys false n build lay energy 0 s.0 s.1 w.1.0 w.1.1.2 in
              balance exact base _ a p))
  add_networks_balance true base =
      let t0 : Totals F = record { kind = no_total; chip = base } in
      let k : ℕ = count_units true n in
      Ensures-bind (BeforeAll exact base k) (Balanced exact base)
        (build_networks sys true n build lay energy k 0 t0) _
        (build-true exact base sys true n build lay energy k t0 (few_units exact base n) refl
          (start-Before exact base))
        (λ r v.
          Ensures-bind (BeforeAll exact base (length r.0)) (Balanced exact base)
            (lay_links sys true n build lay energy 0 r.0 r.1) _
            (lay_links-Before exact base sys true n build lay energy 0 r.0 r.1 v.1)
            (λ s w.
              let few : length s.0 ≤ 1 = omega (arith, w.0, v.0, few_units exact base n) in
              let (a, p) = power-true exact base sys true n build lay energy s.0 s.1 few w.1 in
              balance exact base _ a p))

module _ {F : Type 0} ⦃d : Double F⦄ (sys : System F) (build : ℕ → F → Option (Noc F))
    (lay : F → Noc F → Option (Noc F)) (energy : ℕ → Noc F → Noc F) where
  add_networks-zero :
      (homogeneous : Bool) (base : Total F)
      → add_networks sys homogeneous 0 build lay energy base
        ≡ some (record { kind = no_total; chip = base })
  unfolding add_networks build_networks lay_links power_networks
  add_networks-zero false base = refl
  add_networks-zero true base = refl

  -- Without networks nothing is added.
  pub add_networks-none :
      (n : ℕ) (homogeneous : Bool) (base : Total F)
      → n ≡ 0
      → add_networks sys homogeneous n build lay energy base
        ≡ some (record { kind = no_total; chip = base })
  add_networks-none n homogeneous base e = rw e (add_networks-zero homogeneous base)
