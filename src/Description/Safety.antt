-- ===== src/Description/Safety.antt =====
-- ParseXML::parse (fast_mcpat/XML_Parse.cc), after initialize, does nothing undefined on a document that fits
-- and whose counts are not negative.
use Prim.Native.Nat.{◌^◌}
use wattwatcher.Prelude.{
  ℕ, ◌+◌, ◌%◌, ◌<◌, true, Option, none, some, List, [], ◌∷◌, String, ltb, if◌then◌else◌, is_some,
  ◌≡◌, ◌≢◌, refl, sym, subst, arith,
}
use wattwatcher.Double.{Double}
use wattwatcher.Text.{ℤ}
use wattwatcher.Description.{Run, done, stopped, fault, ◌>>=◌, run_map, read_items}
use wattwatcher.Description.Document.{Component, Document}
use wattwatcher.Description.Post.{Post, Post-bind, Post-map, Post-weaken, Post-if}
use wattwatcher.Description.Counts.{counts, Keeps, Sound}
use wattwatcher.Description.Fit.{
  component_fits, components_fit, document_fits, both_fit, items_fit, &&-true, read_items-Sound,
}
use wattwatcher.Description.Sound.{
  Reads, read_core-Reads, read_l1_directory-Reads, read_l2_directory-Reads, read_l2-Reads,
  read_l3-Reads, read_mc-Sound, read_niu-Sound, read_pcie-Sound, read_flashc-Sound,
}
use wattwatcher.Description.Components.{
  read_core, read_l1_directory, read_l2_directory, read_l2, read_l3, read_mc, read_niu, read_pcie,
  read_flashc,
}
use wattwatcher.Description.Items.{read_items-Leaves}
use wattwatcher.Description.IntNames.{is_int_name}
use wattwatcher.Description.Root.{RootSystem, system_params, system_stats}
use wattwatcher.Description.Parse.{
  get_elem?, has_word, read_controller, with_component, exceeds, read_cores, read_kind,
  read_networks, kind_l1_directory, kind_l2_directory, kind_l2, kind_l3, read_kinds,
  read_controllers, read_components, read_document,
}
use wattwatcher.Description.Ranges.{
  KindInRange, InRange, is_count, in_range, next_order-lt, first_order-le, rounds-le,
}
use wattwatcher.Description.Loops.{
  group-Keeps, nocs-Keeps, get_elem?-fits, has_word-Sound, has_id, has_name,
}

module _ {F : Type 0} ⦃d : Double F⦄ (cs : List Component) (fit : components_fit cs ≡ true)
    (s0 : RootSystem F) (range : InRange (counts s0)) where
  -- The counts are in range at each loop.
  range_at : (s : RootSystem F) → Keeps s0 s → InRange (counts s)
  range_at s keeps = subst InRange (sym keeps) range

  -- What holds between the loops.
  abbrev Between : ℕ × RootSystem F → Type 0
  Between r = (r.0 < 2 ^ 32) × Keeps s0 (r.1)

  read_cores-Between : Post ⊥ Between (read_cores cs s0)
  unfolding read_cores
  read_cores-Between =
      let le = first_order-le s0.homogeneous_cores s0.number_of_cores range.cores.0 range.cores.1 in
      Post-map ⊥ Between _ _ (
        Post-weaken ⊥ (Keeps s0) _ _
          (group-Keeps cs fit s0 (λ c. c.name) "core" read_core _ 0 s0 has_name read_core-Reads le
            refl)
          (λ s1 keeps. (omega arith, keeps)))

  read_kind-Between :
      (attribute : Component → Option String) (word : String)
      (read : ℕ → Component → RootSystem F → Run (RootSystem F))
      (homogeneous number : RootSystem F → ℤ) (r : ℕ × RootSystem F)
      → ((c : Component) → component_fits c ≡ true → is_some (attribute c) ≡ true)
      → Reads read
      → KindInRange (homogeneous (r.1), number (r.1))
      → Between r
      → Post ⊥ Between (read_kind attribute word read homogeneous number cs r)
  unfolding read_kind
  read_kind-Between attribute word read homogeneous number r has reads (k, m) (lt, keeps) =
      Post-map ⊥ Between _ _ (
        Post-weaken ⊥ (Keeps s0) _ _
          (group-Keeps cs fit s0 attribute word read _ (r.0 + 1) (r.1) has reads
            (rounds-le (homogeneous (r.1)) (number (r.1)) (r.0) lt k m) keeps)
          (λ s' keeps'. (next_order-lt (homogeneous (r.1)) (number (r.1)) (r.0), keeps')))

  read_networks-Between : (r : ℕ × RootSystem F) → Between r → Post ⊥ Between (read_networks cs r)
  unfolding read_networks
  read_networks-Between (o, s) (lt, keeps) =
      let (k, m) = (range_at s keeps).nocs in
      Post-map ⊥ Between _ _ (
        Post-weaken ⊥ (Keeps s0) _ _
          (nocs-Keeps cs fit s0 _ (o + 1) s (rounds-le s.homogeneous_nocs s.number_of_nocs o lt k m)
            keeps)
          (λ s' keeps'. (next_order-lt s.homogeneous_nocs s.number_of_nocs o, keeps')))

  then-Between :
      (m : Run (ℕ × RootSystem F)) (f : ℕ × RootSystem F → Run (ℕ × RootSystem F))
      → Post ⊥ Between m
      → ((r : ℕ × RootSystem F) → Between r → Post ⊥ Between (f r))
      → Post ⊥ Between (m >>= f)
  then-Between m f = Post-bind ⊥ Between Between m f

  read_kinds-Between : Post ⊥ Between (read_kinds cs s0)
  unfolding read_kinds
  read_kinds-Between =
      then-Between _ (read_networks cs)
        (then-Between _ (kind_l3 cs)
          (then-Between _ (kind_l2 cs)
            (then-Between _ (kind_l2_directory cs)
              (then-Between (read_cores cs s0) (kind_l1_directory cs) read_cores-Between (λ r b.
                read_kind-Between (λ c. c.id) "L1Directory" read_l1_directory
                  (λ s. s.homogeneous_l1_directories) (λ s. s.number_of_l1_directories) r has_id
                  read_l1_directory-Reads (range_at (r.1) (b.1)).l1_directories b))
              (λ r b.
                read_kind-Between (λ c. c.id) "L2Directory" read_l2_directory
                  (λ s. s.homogeneous_l2_directories) (λ s. s.number_of_l2_directories) r has_id
                  read_l2_directory-Reads (range_at (r.1) (b.1)).l2_directories b))
            (λ r b.
              read_kind-Between (λ c. c.name) "L2" read_l2 (λ s. s.homogeneous_l2s)
                (λ s. s.number_of_l2s) r has_name read_l2-Reads (range_at (r.1) (b.1)).l2s b))
          (λ r b.
            read_kind-Between (λ c. c.name) "L3" read_l3 (λ s. s.homogeneous_l3s)
              (λ s. s.number_of_l3s) r has_name read_l3-Reads (range_at (r.1) (b.1)).l3s b))
        read_networks-Between

  controller-Sound :
      (word : String) (read : Component → RootSystem F → Run (RootSystem F)) (r : ℕ × RootSystem F)
      → ((c : Component) (s : RootSystem F) → component_fits c ≡ true → Sound ⊥ (read c s))
      → Sound ⊥ (read_controller word read cs r)
  unfolding read_controller
  controller-Sound word read (order, s) reads =
      let at = if ltb 0 order then (order + 1) % 2 ^ 32 else order in
      component (get_elem? cs at) refl
    where
      component :
          (o : Option Component)
          → get_elem? cs (if ltb 0 order then (order + 1) % 2 ^ 32 else order) ≡ o
          → Sound {A = ℕ × RootSystem F} ⊥ (
              with_component o λ c. has_word c.id word >>= λ ok.
              if ok
              then run_map
                  (λ s'. ((if ltb 0 order then (order + 1) % 2 ^ 32 else order), s'))
                  (read c s)
              else stopped)
      component none e = tt
      component (some c) e =
          let fits = get_elem?-fits cs _ fit e in
          Post-bind ⊥ (λ _. Unit {0}) (λ _. Unit {0}) (has_word c.id word) _
            (has_word-Sound c.id word (has_id c fits))
            (λ ok _.
              Post-if ⊥ (λ _. Unit {0}) ok _ stopped
                (λ _. Post-map ⊥ (λ _. Unit {0}) _ (read c s) (reads c s fits)) (λ _. tt))

  then-Sound :
      {A B : Type 0} (m : Run A) (f : A → Run B)
      → Sound ⊥ m
      → ((a : A) → Sound ⊥ (f a))
      → Sound ⊥ (m >>= f)
  then-Sound m f h k = Post-bind ⊥ (λ _. Unit {0}) (λ _. Unit {0}) m f h (λ a _. k a)

  read_controllers-Sound : (r : ℕ × RootSystem F) → Sound ⊥ (read_controllers cs r)
  unfolding read_controllers
  read_controllers-Sound r =
      Post-map ⊥ (λ _. Unit {0}) _ _
        (then-Sound _ (read_controller "system.flashc" read_flashc cs)
          (then-Sound _ (read_controller "system.pcie" read_pcie cs)
            (then-Sound _ (read_controller "system.niu" read_niu cs)
              (controller-Sound "system.mc" read_mc r read_mc-Sound)
              (λ r. controller-Sound "system.niu" read_niu r read_niu-Sound))
            (λ r. controller-Sound "system.pcie" read_pcie r read_pcie-Sound))
          (λ r. controller-Sound "system.flashc" read_flashc r read_flashc-Sound))

read_components-Sound :
    {F : Type 0} ⦃d : Double F⦄ (cs : List Component) (s : RootSystem F)
    → components_fit cs ≡ true
    → InRange (counts s)
    → Sound ⊥ (read_components cs s)
read_components-Sound [] s fit range = tt
read_components-Sound (c ∷ cs) s fit range =
    Post-bind ⊥ _ (λ _. Unit {0}) (read_kinds (c ∷ cs) s) (read_controllers (c ∷ cs))
      (read_kinds-Between (c ∷ cs) fit s range)
      (λ r _. read_controllers-Sound (c ∷ cs) fit s range r)

pub Post-of-done :
    {A : Type 0} {P : A → Type 0} (m : Run A)
    → Sound ⊥ m
    → ((a : A) → m ≡ done a → P a)
    → Post ⊥ P m
Post-of-done (done a) h k = k a refl
Post-of-done stopped h k = tt
Post-of-done fault h k = h

pub Post-done : {A : Type 0} (m : Run A) → Sound ⊥ m → Post ⊥ (λ a. m ≡ done a) m
Post-done (done a) h = refl
Post-done stopped h = tt
Post-done fault h = h

Sound-ne-fault : {A : Type 0} (m : Run A) → Sound ⊥ m → m ≢ fault
Sound-ne-fault (done a) h e = cc
Sound-ne-fault stopped h e = cc
Sound-ne-fault fault h e = h

-- After initialize, whatever it leaves: if each attribute of a document is there and each value fits its
-- place, in its array and in its int, and if the counts that its params set are not negative, the count
-- of cores positive where they are not marked as equal, then the rest of parse does nothing undefined: it
-- ends with a description or with a message.
pub read_document-ne-fault :
    {F : Type 0} ⦃d : Double F⦄ (doc : Document) (s : RootSystem F)
    → document_fits doc ≡ true
    → ((r : RootSystem F)
        → read_items system_params doc.params s ≡ done r
        → is_count (counts r) ≡ true)
    → read_document doc s ≢ fault
unfolding is_int_name read_document system_params system_stats
read_document-ne-fault doc s fit count =
    let (h, hc) = &&-true (both_fit doc.params doc.stats) _ fit in
    let (hp, hs) = &&-true (items_fit doc.params) _ h in
    let sound =
      Post-bind ⊥ (λ r. read_items system_params doc.params s ≡ done r) (λ _. Unit {0})
        (read_items system_params doc.params s) _
        (Post-done _ (read_items-Sound system_params refl doc.params s hp))
        (λ r e.
          Post-if ⊥ (λ _. Unit {0}) (exceeds r) stopped _ (λ _. tt)
            (λ within.
              Post-bind ⊥ (Keeps r) (λ _. Unit {0}) (read_items system_stats doc.stats r)
                (read_components doc.components)
                (Post-of-done _ (read_items-Sound system_stats refl doc.stats r hs)
                  (λ r' e'. read_items-Leaves counts system_stats (ground arith) doc.stats r r' e'))
                (λ r' keeps.
                  read_components-Sound doc.components r' hc
                    (subst InRange (sym keeps) (in_range r (count r e) within))))) in
    Sound-ne-fault (read_document doc s) sound
