-- ===== src/Description/Finish.antt =====
-- ParseXML::parse (fast_mcpat/XML_Parse.cc) has a result for each document that is complete and fits.
use wattwatcher.Prelude.{◌<◌, Bool, true, false, if◌then◌else◌, ◌≡◌, refl, sym, subst, arith}
use wattwatcher.Double.{Double}
use wattwatcher.Description.{Run, done, stopped, ◌>>=◌, read_items}
use wattwatcher.Description.Document.{Document}
use wattwatcher.Description.Root.{RootSystem, system_params, system_stats}
use wattwatcher.Description.Counts.{counts, Keeps}
use wattwatcher.Description.Ranges.{InRange, is_count, in_range}
use wattwatcher.Description.Fit.{
  components_fit, document_fits, both_fit, items_fit, &&-true, read_items-Sound,
}
use wattwatcher.Description.IntNames.{is_int_name}
use wattwatcher.Description.Items.{read_items-Leaves}
use wattwatcher.Description.Goes.{Goes-done, items-Goes}
use wattwatcher.Description.Complete.{complete, demands}
use wattwatcher.Description.Served.{Succeeds, bind-Succeeds}
use wattwatcher.Description.Safety.{Post-of-done}
use wattwatcher.Description.Taking.{total}
use wattwatcher.Description.Refinement.{read_components-take}
use wattwatcher.Description.Parse.{exceeds, read_components, read_document}
use wattwatcher.Description.ServedKinds.{components-Succeeds}

checked-Succeeds :
    {A : Type 0} (P : A → Type 0) (b : Bool) (m : Run A)
    → b ≡ false
    → Succeeds P m
    → Succeeds P (if b then stopped else m)
checked-Succeeds P true m e h = cc
checked-Succeeds P false m e h = h

module _ {F : Type 0} ⦃d : Double F⦄ (doc : Document) (r : RootSystem F) where
  stats-Succeeds :
      items_fit doc.stats ≡ true → Succeeds (Keeps r) (read_items system_stats doc.stats r)
  unfolding is_int_name system_stats
  stats-Succeeds h = Goes-done (Keeps r) _ (items-Goes system_stats doc.stats r) (
      Post-of-done _ (read_items-Sound system_stats refl doc.stats r h)
        (λ r' e'. read_items-Leaves counts system_stats (ground arith) doc.stats r r' e'))

  rest-Succeeds :
      items_fit doc.stats ≡ true
      → components_fit doc.components ≡ true
      → InRange (counts r)
      → 1 < total (counts r)
      → complete (demands (counts r)) doc.components ≡ true
      → Succeeds
          (λ _. Unit {0})
          (read_items system_stats doc.stats r >>= read_components doc.components)
  rest-Succeeds hs hc range more there =
      bind-Succeeds (Keeps r) (λ _. Unit {0}) _ (read_components doc.components) (stats-Succeeds hs)
        (λ r1 keeps.
          let range1 = subst InRange (sym keeps) range in
          subst (Succeeds (λ _. Unit {0}))
            (sym (
              read_components-take doc.components r1 range1
                (subst (λ c. 1 < total c) (sym keeps) more)))
            (components-Succeeds doc.components r1 range1
              (subst (λ c. complete (demands c) doc.components ≡ true) (sym keeps) there) hc))

-- After initialize, whatever it leaves: if each attribute of a document is there and each value fits its
-- place, in its array and in its int, if the counts that its params
-- set are in range and tell of more than one component, and if so many components of each kind stand one
-- behind the other with the word of the kind in their name or id, followed by the four controllers, then
-- the rest of parse ends with a description.
pub read_document-done :
    {F : Type 0} ⦃d : Double F⦄ (doc : Document) (s r : RootSystem F)
    → document_fits doc ≡ true
    → read_items system_params doc.params s ≡ done r
    → is_count (counts r) ≡ true
    → exceeds r ≡ false
    → 1 < total (counts r)
    → complete (demands (counts r)) doc.components ≡ true
    → (r' : RootSystem F) × (read_document doc s ≡ done r')
unfolding read_document
read_document-done doc s r fit params count within more there =
    let (h, hc) = &&-true (both_fit doc.params doc.stats) _ fit in
    let (hp, hs) = &&-true (items_fit doc.params) _ h in
    let run =
      bind-Succeeds (λ r1. r1 ≡ r) (λ _. Unit {0}) (read_items system_params doc.params s)
        (λ s1.
          if exceeds s1
          then stopped
          else read_items system_stats doc.stats s1 >>= read_components doc.components)
        (r, params, refl)
        (λ r1 e. rw e (
          checked-Succeeds (λ _. Unit {0}) (exceeds r) _ within
            (rest-Succeeds doc r hs hc (in_range r count within) more there))) in
    (run.0, run.1)
