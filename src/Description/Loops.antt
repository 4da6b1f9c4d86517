-- ===== src/Description/Loops.antt =====
-- The loops of ParseXML::parse (fast_mcpat/XML_Parse.cc) over the components of a kind: they do nothing
-- undefined on components that fit.
use wattwatcher.Prelude.{
  ℕ, zero, suc, ◌≤◌, ◌<◌, true, false, Option, none, some, List, [], ◌∷◌, String, ltb, is_some, ◌≡◌,
  subst, ◌∙◌, arith,
}
use wattwatcher.Double.{Double}
use wattwatcher.Description.{Run}
use wattwatcher.Description.Document.{Component}
use wattwatcher.Description.Post.{Post, Post-weaken, read_group-Post, read_nocs-Post}
use wattwatcher.Description.Counts.{Keeps, Sound}
use wattwatcher.Description.Fit.{component_fits, components_fit, &&-true}
use wattwatcher.Description.Sound.{Reads, read_noc-Reads}
use wattwatcher.Description.Components.{max_num_cores, read_noc}
use wattwatcher.Description.Root.{RootSystem}
use wattwatcher.Description.Parse.{get_elem?, has_word, read_group, read_nocs}

some-injective : {A : Type 0} {a b : A} → Option.some a ≡ some b → a ≡ b
some-injective h = cc

pub get_elem?-fits :
    (cs : List Component) (k : ℕ) {c : Component}
    → components_fit cs ≡ true
    → get_elem? cs k ≡ some c
    → component_fits c ≡ true
get_elem?-fits [] k h e = cc
get_elem?-fits (c ∷ cs) zero h e =
    subst (λ x. component_fits x ≡ true) (some-injective e) (&&-true (component_fits c) _ h).0
get_elem?-fits (c ∷ cs) (suc k) h e = get_elem?-fits cs k (&&-true (component_fits c) _ h).1 e

pub has_word-Sound :
    (a : Option String) (word : String) → is_some a ≡ true → Sound ⊥ (has_word a word)
has_word-Sound none word h = cc
has_word-Sound (some a) word h = tt

pub has_id : (c : Component) → component_fits c ≡ true → is_some c.id ≡ true
has_id c h = (&&-true (is_some c.id) _ h).0

pub has_name : (c : Component) → component_fits c ≡ true → is_some c.name ≡ true
has_name c h = (&&-true (is_some c.name) _ (&&-true (is_some c.id) _ h).1).0

pub inside : (i : ℕ) → i < 1024 → ltb i max_num_cores ≡ false → ⊥
inside i lt h = ground arith

module _ {F : Type 0} ⦃d : Double F⦄ (cs : List Component) (fit : components_fit cs ≡ true)
    (s0 : RootSystem F) where
  pub group-Keeps :
      (attribute : Component → Option String) (word : String)
      (read : ℕ → Component → RootSystem F → Run (RootSystem F)) (n k : ℕ) (s : RootSystem F)
      → ((c : Component) → component_fits c ≡ true → is_some (attribute c) ≡ true)
      → Reads read
      → n ≤ 1024
      → Keeps s0 s
      → Post ⊥ (Keeps s0) (read_group attribute word read n 0 k cs s)
  group-Keeps attribute word read n k s has reads le keeps =
      read_group-Post ⊥ attribute word read cs (λ _ _. Keeps s0) 1024
        (λ k c e. has_word-Sound (attribute c) word (has c (get_elem?-fits cs k fit e)))
        (λ i k c s lt e keeps.
          Post-weaken ⊥ (Keeps s) (Keeps s0) (read i c s)
            (reads i c s (inside i lt) (get_elem?-fits cs k fit e)) (λ s' e'. e' ∙ keeps))
        n 0 k s (omega arith) keeps

  pub nocs-Keeps :
      (n k : ℕ) (s : RootSystem F)
      → n ≤ 1024
      → Keeps s0 s
      → Post ⊥ (Keeps s0) (read_nocs read_noc n 0 k cs s)
  nocs-Keeps n k s le keeps =
      read_nocs-Post ⊥ read_noc cs (Keeps s0) 1024
        (λ k c e. has_word-Sound c.name "noc" (has_name c (get_elem?-fits cs k fit e)))
        (λ i k c s lt e keeps.
          Post-weaken ⊥ (Keeps s) (Keeps s0) (read_noc i c s)
            (read_noc-Reads i c s (inside i lt) (get_elem?-fits cs k fit e)) (λ s' e'. e' ∙ keeps))
        n 0 k s (omega arith) keeps
