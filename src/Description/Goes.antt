-- ===== src/Description/Goes.antt =====
-- Reading one component never ends a run of ParseXML::parse (fast_mcpat/XML_Parse.cc) with a message:
-- only the loops over the components do.
use wattwatcher.Prelude.{
  ℕ, Bool, ◌&&◌, true, false, Option, none, some, List, [], ◌∷◌, String, str_eq, ltb, if◌then◌else◌,
  ◌≡◌, refl,
}
use wattwatcher.Double.{Double}
use wattwatcher.Text.{codes}
use wattwatcher.Description.{
  Run, done, stopped, fault, ◌>>=◌, run_map, Item, Entry, cut, fits, text_fits, int_fits, all_int,
  find, assign, assign_value, assign_found, read_named, read_item, read_items,
}
use wattwatcher.Description.Document.{Part, Component}
use wattwatcher.Description.Core.{SystemCore}
use wattwatcher.Description.Root.{RootSystem}
use wattwatcher.Description.Post.{Post}
use wattwatcher.Description.Components.{
  max_num_cores, put, read_both, read_part, read_parts, read_core, read_l1_directory,
  read_l2_directory, read_l2, read_l3, read_xbar, read_inner, read_xbars, read_noc, read_mc,
  read_niu, read_pcie, read_flashc,
}

-- A run that does not stop.
abbrev pub Goes : {A : Type 0} → Run A → Type 0
Goes (done a) = Unit {0}
Goes stopped = ⊥
Goes fault = Unit {0}

Goes-bind :
    {A B : Type 0} (m : Run A) (f : A → Run B) → Goes m → ((a : A) → Goes (f a)) → Goes (m >>= f)
Goes-bind (done a) f h k = k a
Goes-bind stopped f h k = h
Goes-bind fault f h k = tt

Goes-map : {A B : Type 0} (f : A → B) (m : Run A) → Goes m → Goes (run_map f m)
Goes-map f (done a) h = tt
Goes-map f stopped h = h
Goes-map f fault h = tt

Goes-if : {A : Type 0} (b : Bool) (m n : Run A) → Goes m → Goes n → Goes (if b then m else n)
Goes-if true m n h k = h
Goes-if false m n h k = k

-- A run that neither stops nor does anything undefined has a result.
pub Goes-done :
    {A : Type 0} (P : A → Type 0) (m : Run A) → Goes m → Post ⊥ P m → (a : A) × (m ≡ done a) × P a
Goes-done P (done a) h k = (a, refl, k)
Goes-done P stopped h k = absurd h
Goes-done P fault h k = absurd k

module _ {F T : Type 0} ⦃d : Double F⦄ where
  assign-Goes : (e : Entry F T) (v : String) (r : T) → Goes (assign e v r)
  unfolding assign
  assign-Goes (Entry.int k upd) v r = Goes-if (int_fits v) _ fault tt tt
  assign-Goes (Entry.bool k upd) v r = Goes-if (int_fits v) _ fault tt tt
  assign-Goes (Entry.double k upd) v r = tt
  assign-Goes (Entry.text k upd) v r = Goes-if (text_fits v) _ fault tt tt
  assign-Goes (Entry.ints k get upd) v r =
      Goes-if (fits (cut [] (codes v)) && all_int (cut [] (codes v))) _ fault tt tt
  assign-Goes (Entry.doubles k get upd) v r = Goes-if (fits (cut [] (codes v))) _ fault tt tt

  value-Goes : (e : Entry F T) (v : Option String) (r : T) → Goes (assign_value e v r)
  value-Goes e none r = tt
  value-Goes e (some v) r = assign-Goes e v r

  found-Goes : (e : Option (Entry F T)) (v : Option String) (r : T) → Goes (assign_found e v r)
  found-Goes none v r = tt
  found-Goes (some e) v r = value-Goes e v r

  named-Goes :
      (table : List (Entry F T)) (n v : Option String) (r : T) → Goes (read_named table n v r)
  named-Goes table none v r = tt
  named-Goes table (some n) v r = found-Goes (find n table) v r

  pub items-Goes :
      (table : List (Entry F T)) (its : List Item) (r : T) → Goes (read_items table its r)
  unfolding read_items
  items-Goes table [] r = tt
  items-Goes table (it ∷ its) r =
      Goes-bind (read_item table it r) _ (named-Goes table it.name it.value r)
        (items-Goes table its)

  both-Goes :
      (params stats : List (Entry F T)) (its its' : List Item) (r : T)
      → Goes (read_both params stats its its' r)
  unfolding read_both
  both-Goes params stats its its' r =
      Goes-bind (read_items params its r) _ (items-Goes params its r) (items-Goes stats its')

put-Goes : {A S : Type 0} (i : ℕ) (m : Run A) (set : A → S) → Goes m → Goes (put i m set)
put-Goes i m set h = Goes-if (ltb i max_num_cores) (run_map set m) fault (Goes-map set m h) tt

map-if-Goes :
    {A S : Type 0} (b : Bool) (set : A → S) (m : Run A) (rest : Run S)
    → Goes m
    → Goes rest
    → Goes (if b then run_map set m else rest)
map-if-Goes b set m rest h k = Goes-if b (run_map set m) rest (Goes-map set m h) k

module _ {F : Type 0} ⦃d : Double F⦄ where
  part-Goes : (n : Option String) (p : Part) (r : SystemCore F) → Goes (read_part n p r)
  unfolding read_part
  part-Goes none p r = tt
  part-Goes (some n) p r =
      map-if-Goes (str_eq n "PBT") _ _ _ (both-Goes _ _ p.params p.stats r.predictor) (
        map-if-Goes (str_eq n "itlb") _ _ _ (both-Goes _ _ p.params p.stats r.itlb) (
          map-if-Goes (str_eq n "icache") _ _ _ (both-Goes _ _ p.params p.stats r.icache) (
            map-if-Goes (str_eq n "dtlb") _ _ _ (both-Goes _ _ p.params p.stats r.dtlb) (
              map-if-Goes (str_eq n "dcache") _ _ _ (both-Goes _ _ p.params p.stats r.dcache)
                (map-if-Goes (str_eq n "BTB") _ _ _ (both-Goes _ _ p.params p.stats r.btb) tt)))))

  parts-Goes : (ps : List Part) (r : SystemCore F) → Goes (read_parts ps r)
  unfolding read_parts
  parts-Goes [] r = tt
  parts-Goes (p ∷ ps) r = Goes-bind (read_part p.name p r) _ (part-Goes p.name p r) (parts-Goes ps)

  xbar-Goes : (i : ℕ) (p : Part) (s : RootSystem F) → Goes (read_xbar i p s)
  unfolding read_xbar
  xbar-Goes i p s =
      Goes-bind _ _ (items-Goes _ p.params (s.noc i).xbar0)
        (λ x. Goes-bind _ _ (items-Goes _ p.stats (s.core i).predictor) (λ a. tt))

  inner-Goes : (i : ℕ) (n : Option String) (p : Part) (s : RootSystem F) → Goes (read_inner i n p s)
  unfolding read_inner
  inner-Goes i none p s = tt
  inner-Goes i (some n) p s = Goes-if (str_eq n "xbar0") _ (done s) (xbar-Goes i p s) tt

  xbars-Goes : (i : ℕ) (ps : List Part) (s : RootSystem F) → Goes (read_xbars i ps s)
  unfolding read_xbars
  xbars-Goes i [] s = tt
  xbars-Goes i (p ∷ ps) s =
      Goes-bind (read_inner i p.name p s) _ (inner-Goes i p.name p s) (xbars-Goes i ps)

module _ {F : Type 0} ⦃d : Double F⦄ (i : ℕ) (c : Component) (s : RootSystem F) where
  pub core-Goes : Goes (read_core i c s)
  unfolding read_core
  core-Goes = put-Goes i _ _ (
      Goes-bind _ (read_parts c.components) (both-Goes _ _ c.params c.stats (s.core i))
        (parts-Goes c.components))

  pub l1_directory-Goes : Goes (read_l1_directory i c s)
  unfolding read_l1_directory
  l1_directory-Goes = put-Goes i _ _ (both-Goes _ _ c.params c.stats (s.l1_directory i))

  pub l2_directory-Goes : Goes (read_l2_directory i c s)
  unfolding read_l2_directory
  l2_directory-Goes = put-Goes i _ _ (both-Goes _ _ c.params c.stats (s.l2_directory i))

  pub l2-Goes : Goes (read_l2 i c s)
  unfolding read_l2
  l2-Goes = put-Goes i _ _ (both-Goes _ _ c.params c.stats (s.l2 i))

  pub l3-Goes : Goes (read_l3 i c s)
  unfolding read_l3
  l3-Goes = put-Goes i _ _ (both-Goes _ _ c.params c.stats (s.l3 i))

  pub noc-Goes : Goes (read_noc i c s)
  unfolding read_noc
  noc-Goes = Goes-bind _ _ (put-Goes i _ _ (items-Goes _ c.params (s.noc i))) (λ s1.
      Goes-bind _ _ (xbars-Goes i c.components s1)
        (λ s2. Goes-bind _ _ (items-Goes _ c.stats (s2.noc i)) (λ r. tt)))

module _ {F : Type 0} ⦃d : Double F⦄ (c : Component) (s : RootSystem F) where
  pub mc-Goes : Goes (read_mc c s)
  unfolding read_mc
  mc-Goes = Goes-map _ _ (both-Goes _ _ c.params c.stats s.mc)

  pub niu-Goes : Goes (read_niu c s)
  unfolding read_niu
  niu-Goes = Goes-map _ _ (both-Goes _ _ c.params c.stats s.niu)

  pub pcie-Goes : Goes (read_pcie c s)
  unfolding read_pcie
  pcie-Goes = Goes-map _ _ (both-Goes _ _ c.params c.stats s.pcie)

  pub flashc-Goes : Goes (read_flashc c s)
  unfolding read_flashc
  flashc-Goes = Goes-map _ _ (both-Goes _ _ c.params c.stats s.flashc)
