-- ===== src/Description/Refinement.antt =====
-- ParseXML::parse (fast_mcpat/XML_Parse.cc) takes the components by their indices as a reader takes
-- them from the front of the list.
use Prim.Native.Nat.{◌^◌}
use wattwatcher.Prelude.{
  ℕ, ◌+◌, ◌%◌, ◌<◌, Bool, true, false, Option, none, some, List, [], ◌∷◌, String, ltb,
  if◌then◌else◌, ◌≡◌, refl, sym, ◌∙◌, arith,
}
use wattwatcher.Double.{Double}
use wattwatcher.Description.{Run, done, stopped, fault, ◌>>=◌, run_map}
use wattwatcher.Description.Document.{Component}
use wattwatcher.Description.Root.{RootSystem}
use wattwatcher.Description.Post.{Post, Post-map, Post-weaken}
use wattwatcher.Description.Counts.{counts, Keeps}
use wattwatcher.Description.Order.{drop, take_controller, Front, drop-Front}
use wattwatcher.Description.Ranges.{InRange}
use wattwatcher.Description.Unchanged.{Any, any-Sound}
use wattwatcher.Description.Taking.{total, take_kinds, take_controllers, take_components}
use wattwatcher.Description.Components.{read_mc, read_niu, read_pcie, read_flashc}
use wattwatcher.Description.Parse.{
  get_elem?, has_word, with_component, read_controller, read_kinds, read_controllers,
  read_components,
}
use wattwatcher.Description.OrderRange.{taken-le, first_taken-le}
use wattwatcher.Description.Follow.{run_map-run_map, front, Follows, follow, At}
use wattwatcher.Description.KindsFollow.{kinds-Follows}

module _ {F : Type 0} ⦃d : Double F⦄ (cs : List Component) (s0 : RootSystem F) where
  word-Follows :
      (t order : ℕ) (found : Run Bool) (m : Run (RootSystem F))
      → order + 1 ≡ t
      → Post Any (Keeps s0) m
      → Follows cs
          (At cs s0 t)
          (found >>= λ ok. if ok then run_map (λ s'. (drop (order + 1) cs, s')) m else stopped)
          (found >>= λ ok. if ok then run_map (λ s'. (order, s')) m else stopped)
  word-Follows t order (done true) m e keep = (
    sym (run_map-run_map _ _ _),
    Post-map Any (At cs s0 t) _ _ (Post-weaken Any (Keeps s0) _ m keep (λ s' keeps. (e, keeps))),
  )
  word-Follows t order (done false) m e keep = (refl, tt)
  word-Follows t order stopped m e keep = (refl, tt)
  word-Follows t order fault m e keep = (refl, tt)

  controller-Follows :
      (word : String) (read : Component → RootSystem F → Run (RootSystem F)) (t : ℕ)
      → ((c : Component) (s : RootSystem F) → Post Any (Keeps s) (read c s))
      → 1 < t
      → t < 2 ^ 32
      → (r : ℕ × RootSystem F) → At cs s0 t r
      → Follows cs
          (At cs s0 (t + 1))
          (take_controller word read (front cs r))
          (read_controller word read cs r)
  unfolding take_controller read_controller
  controller-Follows word read t keep pos lt (o, s) (e, keeps) =
      let at : (if ltb 0 o then (o + 1) % 2 ^ 32 else o) ≡ o + 1 = ground (arith, pos, lt, e) in
      rw at (component (get_elem? cs (o + 1)) (drop (o + 1) cs) (drop-Front cs (o + 1)))
    where
      component :
          (found : Option Component) (l : List Component)
          → Front found l (drop (o + 1 + 1) cs)
          → Follows cs (At cs s0 (t + 1)) (take_controller word read (l, s)) (
              with_component found λ c. has_word c.id word >>= λ ok.
              if ok then run_map (λ s'. (o + 1, s')) (read c s) else stopped)
      component none l h = rw h (refl, tt)
      component (some c) l h = rw h (
          word-Follows (t + 1) (o + 1) (has_word c.id word) (read c s) (omega (arith, e))
            (Post-weaken Any (Keeps s) (Keeps s0) (read c s) (keep c s) (λ s' k. k ∙ keeps)))

  then_controller :
      (word : String) (read : Component → RootSystem F → Run (RootSystem F)) (t : ℕ)
      (m' : Run (List Component × RootSystem F)) (m : Run (ℕ × RootSystem F))
      → Follows cs (At cs s0 t) m' m
      → ((c : Component) (s : RootSystem F) → Post Any (Keeps s) (read c s))
      → 1 < t
      → t < 2 ^ 32
      → Follows cs
          (At cs s0 (t + 1))
          (m' >>= take_controller word read)
          (m >>= read_controller word read cs)
  then_controller word read t m' m before keep pos lt =
      follow cs (At cs s0 t) (At cs s0 (t + 1)) m' m _ _ before
        (controller-Follows word read t keep pos lt)

module _ {F : Type 0} ⦃d : Double F⦄ where
  one-Keeps :
      {T : Type 0} (m : Run T) (set : T → RootSystem F) (s : RootSystem F)
      → ((r : T) → Keeps s (set r))
      → Post Any (Keeps s) (run_map set m)
  one-Keeps m set s keep =
      Post-map Any (Keeps s) set m
        (Post-weaken Any (λ _. Unit {0}) _ m (any-Sound m) (λ r _. keep r))

  controllers_follow :
      (cs : List Component) (s0 : RootSystem F) (t : ℕ) (r : ℕ × RootSystem F)
      → At cs s0 t r
      → 1 < t
      → t + 4 < 2 ^ 32
      → take_controllers (front cs r)
        ≡ run_map (front cs) (
            read_controller "system.mc" read_mc cs r
            >>= read_controller "system.niu" read_niu cs
            >>= read_controller "system.pcie" read_pcie cs
            >>= read_controller "system.flashc" read_flashc cs)
  unfolding take_controllers read_mc read_niu read_pcie read_flashc
  controllers_follow cs s0 t r at pos lt =
      (then_controller cs s0 "system.flashc" read_flashc (t + 1 + 1 + 1) _ _
        (then_controller cs s0 "system.pcie" read_pcie (t + 1 + 1) _ _
          (then_controller cs s0 "system.niu" read_niu (t + 1) _ _
            (controller-Follows cs s0 "system.mc" read_mc t (λ c s. one-Keeps _ _ s (λ r. refl)) pos
              (omega (arith, lt)) r at)
            (λ c s. one-Keeps _ _ s (λ r. refl)) (omega (arith, pos)) (omega (arith, lt)))
          (λ c s. one-Keeps _ _ s (λ r. refl)) (omega (arith, pos)) (omega (arith, lt)))
        (λ c s. one-Keeps _ _ s (λ r. refl)) (omega (arith, pos)) (omega (arith, lt))).0

  controllers_after :
      (cs : List Component) (s0 : RootSystem F) (t : ℕ) (m' : Run (List Component × RootSystem F))
      (m : Run (ℕ × RootSystem F))
      → Follows cs (At cs s0 t) m' m
      → 1 < t
      → t + 4 < 2 ^ 32
      → (m >>= read_controllers cs) ≡ run_map (λ r. r.1) (m' >>= take_controllers)
  unfolding read_controllers
  controllers_after cs s0 t m' (done r) (e, at) pos lt =
      rw (e, controllers_follow cs s0 t r at pos lt) (sym (run_map-run_map _ _ _))
  controllers_after cs s0 t m' stopped (e, at) pos lt = rw e refl
  controllers_after cs s0 t m' fault (e, at) pos lt = rw e refl

  pub total-le : (s : RootSystem F) → InRange (counts s) → total (counts s) + 4 < 2 ^ 32
  total-le s range =
      let c = counts s in
      omega (
        arith,
        first_taken-le (c.cores.0) (c.cores.1) range.cores.0 range.cores.1,
        taken-le c.l1_directories range.l1_directories,
        taken-le c.l2_directories range.l2_directories,
        taken-le c.l2s range.l2s,
        taken-le c.l3s range.l3s,
        taken-le c.nocs range.nocs,
      )

  -- If the six counts are in range and tell of more than one component, then the reading of the
  -- components by their indices, unsigned sums and differences, takes and reads them as a reader does
  -- that goes through the list from its front: so many of each kind as its count says, or one if they
  -- are equal, and then the four controllers, one after the other. The result is the same, whether it
  -- is a description, a stop or a fault.
  pub read_components-take :
      (cs : List Component) (s : RootSystem F)
      → InRange (counts s)
      → 1 < total (counts s)
      → read_components cs s ≡ take_components cs s
  unfolding take_components
  read_components-take [] s range more = refl
  read_components-take (c ∷ cs) s range more =
      controllers_after (c ∷ cs) s (total (counts s)) (take_kinds (c ∷ cs, s))
        (read_kinds (c ∷ cs) s) (kinds-Follows (c ∷ cs) s range) more (total-le s range)
