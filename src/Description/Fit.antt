-- ===== src/Description/Fit.antt =====
-- Documents that ParseXML::parse (fast_mcpat/XML_Parse.cc) reads with nothing undefined: each attribute
-- is there, and each value fits its place.
use text.Mathlib.TextEquality.{eq_iff}
use wattwatcher.Prelude.{
  Bool, true, false, not, ◌&&◌, ◌||◌, Option, none, some, List, [], ◌∷◌, String, str_eq,
  if◌then◌else◌, is_some, All, ◌≡◌, refl, ap, ◌∙◌,
}
use wattwatcher.Double.{Double}
use wattwatcher.Text.{codes}
use wattwatcher.Description.IntNames.{is_int_name}
use wattwatcher.Description.{
  done, fault, Item, Entry, key, find, cut, fits, text_fits, int_fits, all_int, assign,
  assign_value, assign_found, read_named, read_items,
}
use wattwatcher.Description.Document.{Part, Component, Document}
use wattwatcher.Description.Post.{Post-bind}
use wattwatcher.Description.Counts.{Sound}
use wattwatcher.Description.Components.{read_both}
use wattwatcher.Description.Items.{find-All}

-- The names of the items that are copied as texts.
abbrev is_text : String → Bool
is_text n =
    str_eq n "FPU"
    || str_eq n "divider_multiplier"
    || str_eq n "LSU_order"
    || str_eq n "Dcache_dual_pump"
    || str_eq n "prediction_scheme"
    || str_eq n "threeD_stack"
    || str_eq n "3D_stack"
    || str_eq n "topology"
    || str_eq n "crossbar_type"
    || str_eq n "crosspoint_type"

-- A value that atoi reads, whole or in parts.
abbrev ints_fit : String → Bool
ints_fit v = int_fits v && all_int (cut [] (codes v))

-- Every value is short enough to be cut as a list, a text is short enough for its array, and an int
-- holds the value of each name that is read by atoi in some component.
unfoldable pub value_fits : (name value : Option String) → Bool
unfolding fits cut is_int_name
value_fits none value = false
value_fits (some n) none = false
value_fits (some n) (some v) =
    fits (cut [] (codes v))
    && ((not (is_text n) || text_fits v) && (not (is_int_name n) || ints_fit v))

abbrev pub items_fit : List Item → Bool
items_fit [] = true
items_fit (it ∷ its) = value_fits it.name it.value && items_fit its

abbrev pub both_fit : List Item → List Item → Bool
both_fit its its' = items_fit its && items_fit its'

abbrev pub part_fits : Part → Bool
part_fits p = is_some p.name && both_fit p.params p.stats

abbrev pub parts_fit : List Part → Bool
parts_fit [] = true
parts_fit (p ∷ ps) = part_fits p && parts_fit ps

abbrev pub component_fits : Component → Bool
component_fits c =
    is_some c.id && (is_some c.name && (both_fit c.params c.stats && parts_fit c.components))

abbrev pub components_fit : List Component → Bool
components_fit [] = true
components_fit (c ∷ cs) = component_fits c && components_fit cs

abbrev pub document_fits : Document → Bool
document_fits doc = both_fit doc.params doc.stats && components_fit doc.components

pub &&-true : (a b : Bool) → (a && b) ≡ true → (a ≡ true) × (b ≡ true)
&&-true true b h = (refl, h)
&&-true false b h = cc

pub component_parts :
    (c : Component)
    → component_fits c ≡ true
    → (both_fit c.params c.stats ≡ true) × (parts_fit c.components ≡ true)
component_parts c h =
    &&-true (both_fit c.params c.stats) _
      (&&-true (is_some c.name) _ (&&-true (is_some c.id) _ h).1).1

-- The texts and the ints of a table are among those names.
abbrev is_listed : {F T : Type 0} → Entry F T → Bool
is_listed (Entry.int k upd) = is_int_name k
is_listed (Entry.bool k upd) = is_int_name k
is_listed (Entry.double k upd) = true
is_listed (Entry.text k upd) = is_text k
is_listed (Entry.ints k get upd) = is_int_name k
is_listed (Entry.doubles k get upd) = true

abbrev pub all_listed : {F T : Type 0} → List (Entry F T) → Bool
all_listed [] = true
all_listed (e ∷ es) = is_listed e && all_listed es

guard-Sound : {A : Type 0} (b : Bool) (a : A) → b ≡ true → Sound ⊥ (if b then done a else fault)
guard-Sound true a h = tt
guard-Sound false a h = cc

or-rest : (a b : Bool) → a ≡ true → (not a || b) ≡ true → b ≡ true
or-rest true b e h = h
or-rest false b e h = cc

text-room :
    (n k v : String)
    → n ≡ k
    → (not (is_text n) || text_fits v) ≡ true
    → is_text k ≡ true
    → text_fits v ≡ true
text-room n k v e h l = or-rest (is_text n) (text_fits v) (ap is_text e ∙ l) h

int-room :
    (n k v : String)
    → n ≡ k
    → (not (is_int_name n) || ints_fit v) ≡ true
    → is_int_name k ≡ true
    → (int_fits v ≡ true) × (all_int (cut [] (codes v)) ≡ true)
int-room n k v e h l =
    &&-true (int_fits v) _ (or-rest (is_int_name n) (ints_fit v) (ap is_int_name e ∙ l) h)

&&-intro : (a b : Bool) → a ≡ true → b ≡ true → (a && b) ≡ true
&&-intro true b h k = k
&&-intro false b h k = h

value_parts :
    (n v : String)
    → value_fits (some n) (some v) ≡ true
    → (fits (cut [] (codes v)) ≡ true)
      × ((not (is_text n) || text_fits v) ≡ true)
      × ((not (is_int_name n) || ints_fit v) ≡ true)
unfolding value_fits
value_parts n v h =
    let (h1, h2) = &&-true (fits (cut [] (codes v))) _ h in
    let (h3, h4) = &&-true (not (is_text n) || text_fits v) _ h2 in (h1, h3, h4)

module _ {F T : Type 0} ⦃d : Double F⦄ where
  assign-Sound :
      (e : Entry F T) (n v : String) (r : T)
      → value_fits (some n) (some v) ≡ true
      → n ≡ key e
      → is_listed e ≡ true
      → Sound ⊥ (assign e v r)
  unfolding assign value_fits
  assign-Sound (Entry.int k upd) n v r h e l =
      guard-Sound (int_fits v) _ (int-room n k v e (value_parts n v h).2 l).0
  assign-Sound (Entry.bool k upd) n v r h e l =
      guard-Sound (int_fits v) _ (int-room n k v e (value_parts n v h).2 l).0
  assign-Sound (Entry.double k upd) n v r h e l = tt
  assign-Sound (Entry.text k upd) n v r h e l =
      guard-Sound (text_fits v) _ (text-room n k v e (value_parts n v h).1 l)
  assign-Sound (Entry.ints k get upd) n v r h e l =
      guard-Sound _ _
        (&&-intro _ _ (value_parts n v h).0 (int-room n k v e (value_parts n v h).2 l).1)
  assign-Sound (Entry.doubles k get upd) n v r h e l = guard-Sound _ _ (value_parts n v h).0

  value-Sound :
      (e : Entry F T) (n : String) (value : Option String) (r : T)
      → value_fits (some n) value ≡ true
      → n ≡ key e
      → is_listed e ≡ true
      → Sound ⊥ (assign_value e value r)
  unfolding value_fits
  value-Sound e n none r h q l = cc
  value-Sound e n (some v) r h q l = assign-Sound e n v r h q l

  All-listed :
      (table : List (Entry F T)) → all_listed table ≡ true → All (λ e. is_listed e ≡ true) table
  All-listed [] h = tt
  All-listed (e ∷ es) h =
      ((&&-true (is_listed e) _ h).0, All-listed es (&&-true (is_listed e) _ h).1)

  module _ (table : List (Entry F T)) (listed : all_listed table ≡ true) where
    found-Sound :
        (m : Option (Entry F T)) (n : String) (value : Option String) (r : T)
        → find n table ≡ m
        → value_fits (some n) value ≡ true
        → Sound ⊥ (assign_found m value r)
    found-Sound none n value r f h = tt
    found-Sound (some e) n value r f h =
        let (l, q) = find-All (λ e. is_listed e ≡ true) n table e (All-listed table listed) f in
        value-Sound e n value r h ((eq_iff n (key e)).0 q) l

    named-Sound :
        (name value : Option String) (r : T)
        → value_fits name value ≡ true
        → Sound ⊥ (read_named table name value r)
    unfolding value_fits
    named-Sound none value r h = cc
    named-Sound (some n) value r h = found-Sound (find n table) n value r refl h

    pub read_items-Sound :
        (its : List Item) (r : T) → items_fit its ≡ true → Sound ⊥ (read_items table its r)
    unfolding read_items
    read_items-Sound [] r h = tt
    read_items-Sound (it ∷ its) r h =
        let (h1, h2) = &&-true (value_fits it.name it.value) _ h in
        Post-bind ⊥ (λ _. Unit {0}) (λ _. Unit {0}) (read_named table it.name it.value r) _
          (named-Sound it.name it.value r h1) (λ r' _. read_items-Sound its r' h2)

  pub read_both-Sound :
      (params stats : List (Entry F T)) (its its' : List Item) (r : T)
      → all_listed params ≡ true
      → all_listed stats ≡ true
      → (items_fit its && items_fit its') ≡ true
      → Sound ⊥ (read_both params stats its its' r)
  unfolding read_both
  read_both-Sound params stats its its' r l l' h =
      let (h1, h2) = &&-true (items_fit its) _ h in
      Post-bind ⊥ (λ _. Unit {0}) (λ _. Unit {0}) (read_items params its r) _
        (read_items-Sound params l its r h1) (λ r' _. read_items-Sound stats l' its' r' h2)
