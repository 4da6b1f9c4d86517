-- ===== src/Noc/Energy.antt =====
-- What a constructed network has.
use wattwatcher.Prelude.{
  ℕ, ◌≡◌, refl, Bool, true, false, ◌⊎◌, inl, inr, none, some, Ensures, Ensures-bind, Ensures-any,
  Ensures-split, Ensures-weaken, Ensures-assert, ap, ◌∙◌, assert,
}
use wattwatcher.Double.{Double}
use wattwatcher.Basic.{Technology}
use wattwatcher.Cacti.{InputParameter}
use wattwatcher.System.{System}
use wattwatcher.Interconnect.{Interconnect, Wire}
use wattwatcher.Noc.{
  Router, NocParam, Noc, set_noc_param, init_router, init_link_bus, construct, new_link, with_link,
  fresh,
}

module _ {F : Type 0} ⦃d : Double F⦄ where
  -- A network of routers before its links are laid, or a bus.
  abbrev pub IsBuilt : Noc F → Type 0
  IsBuilt n =
      ((n.param.type ≡ true) × ((r : Router F) × (n.router ≡ some r)) × (n.link_bus ≡ none))
      ⊎ ((n.param.type ≡ false)
          × (n.router ≡ none)
          × ((l : Interconnect F) × (n.link_bus ≡ some l)))

  module _ (new_wire : (length width_scaling space_scaling : F) → Wire F)
      (new_router : NocParam F → F → Router F) (g_tp : Technology F) (opt_for_clk : Bool) where
    abbrev Laid : Noc F → Noc F → Type 0
    Laid n m =
        (m.router ≡ n.router) × (m.param ≡ n.param) × ((l : Interconnect F) × (m.link_bus ≡ some l))

    init_link_bus-Laid :
        (len : F) (n : Noc F)
        → Ensures (Laid n) (init_link_bus new_wire new_router g_tp opt_for_clk len n)
    unfolding init_link_bus
    init_link_bus-Laid len n =
        Ensures-bind (λ x. x ≡ len) (Laid n) (assert (d.lt (d.nat 0) len) len) _
          (Ensures-assert (λ x. x ≡ len) (d.lt (d.nat 0) len) len (λ _. refl))
          (λ x _.
            Ensures-bind (λ _. Unit {0}) (Laid n)
              (new_link new_wire new_router g_tp opt_for_clk x n)
              (λ link. some (with_link new_wire new_router g_tp opt_for_clk n link))
              (Ensures-any (new_link new_wire new_router g_tp opt_for_clk x n))
              (λ l _. (refl, refl, (l, refl))))

    IsBuilt-bus : (n m : Noc F) → n.param.type ≡ false → n.router ≡ none → Laid n m → IsBuilt m
    IsBuilt-bus n m bus no_router (same, param, link) =
        inr (ap (λ p. p.type) param ∙ bus, same ∙ no_router, link)

    -- A network that is constructed has a router and no link, or, if it is a bus, a link and no router.
    pub construct-IsBuilt :
        (sys : System F) (i : ℕ) (ip : InputParameter F) (m_traffic_pattern link_len : F)
        → Ensures IsBuilt
            (construct new_wire new_router g_tp opt_for_clk sys i ip m_traffic_pattern link_len)
    unfolding construct init_router
    construct-IsBuilt sys i ip m link_len =
        Ensures-bind (λ _. Unit {0}) IsBuilt (set_noc_param sys (sys.noc i)) _
          (Ensures-any (set_noc_param sys (sys.noc i)))
          (λ param _.
            Ensures-split IsBuilt param.type _ _ (λ net. inl (net, (_, refl), refl))
              (λ bus.
                let n = fresh new_wire new_router g_tp opt_for_clk sys i ip m param in
                Ensures-weaken (Laid n) IsBuilt
                  (init_link_bus new_wire new_router g_tp opt_for_clk link_len n)
                  (init_link_bus-Laid link_len n) (λ k laid. IsBuilt-bus n k bus refl laid)))
