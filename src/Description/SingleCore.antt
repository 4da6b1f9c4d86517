-- ===== src/Description/SingleCore.antt =====
-- ParseXML::parse (fast_mcpat/XML_Parse.cc) on a chip of one component, where OrderofComponents_3layer
-- is still 0 when it looks for the controllers.
use wattwatcher.Prelude.{ℕ, ◌+◌, false, List, ◌∷◌, ◌≡◌, ◌≢◌, refl, ◌∙◌, arith}
use wattwatcher.Double.{Double}
use wattwatcher.Description.{Run, done, stopped, fault}
use wattwatcher.Description.Document.{Component}
use wattwatcher.Description.Root.{RootSystem}
use wattwatcher.Description.Post.{Post, Post-bind}
use wattwatcher.Description.Counts.{counts}
use wattwatcher.Description.Ranges.{InRange}
use wattwatcher.Description.Unchanged.{Any}
use wattwatcher.Description.Taking.{total}
use wattwatcher.Description.Follow.{At}
use wattwatcher.Description.KindsFollow.{kinds-Follows}
use wattwatcher.Description.Parse.{
  has_word, read_controller, read_kinds, read_controllers, read_components,
}

never-ne-done : {A : Type 0} (m : Run A) → Post Any (λ _. ⊥) m → (a : A) → m ≢ done a
never-ne-done (done b) h a e = h
never-ne-done stopped h a e = cc
never-ne-done fault h a e = cc

module _ {F : Type 0} ⦃d : Double F⦄ (c : Component) (cs : List Component) (s : RootSystem F) where
  controllers_at_zero :
      (r : ℕ × RootSystem F)
      → r.0 + 1 ≡ 1
      → has_word c.id "system.mc" ≡ done false
      → read_controllers (c ∷ cs) r ≡ stopped
  unfolding read_controllers read_controller
  controllers_at_zero (o, r) e h =
      let zero_order : o ≡ 0 = omega (arith, e) in rw (zero_order, h) refl

  -- If the counts are in range and tell of one component, and if the id of the first component of the
  -- document, a core, does not name a memory controller, then no description is read, whichever
  -- components stand behind it: the memory controller is looked for in the core.
  pub read_components-ne-done :
      InRange (counts s)
      → total (counts s) ≡ 1
      → has_word c.id "system.mc" ≡ done false
      → (s' : RootSystem F) → read_components (c ∷ cs) s ≢ done s'
  read_components-ne-done range one h s' =
      never-ne-done (read_components (c ∷ cs) s)
        (Post-bind Any (At (c ∷ cs) s (total (counts s))) (λ _. ⊥) (read_kinds (c ∷ cs) s)
          (read_controllers (c ∷ cs)) (kinds-Follows (c ∷ cs) s range).1
          (λ r at. rw (controllers_at_zero r (at.0 ∙ one) h) tt))
        s'
