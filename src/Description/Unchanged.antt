-- ===== src/Description/Unchanged.antt =====
-- The components of a document do not change the counts of a description that
-- ParseXML::parse (fast_mcpat/XML_Parse.cc) reads between its loops, whatever they hold.
use wattwatcher.Prelude.{
  ℕ, Option, none, some, List, [], ◌∷◌, String, str_eq, refl, ◌∙◌, arith, ◌+◌,
}
use wattwatcher.Double.{Double}
use wattwatcher.Description.{Run, done, stopped, fault}
use wattwatcher.Description.Document.{Part, Component}
use wattwatcher.Description.Root.{RootSystem}
use wattwatcher.Description.Post.{
  Post, Post-bind, Post-weaken, Post-if, read_group-Post, read_nocs-Post,
}
use wattwatcher.Description.Parse.{read_group, read_nocs}
use wattwatcher.Description.Counts.{
  Sound, Keeps, read_core-Keeps, read_l1_directory-Keeps, read_l2_directory-Keeps, read_l2-Keeps,
  read_l3-Keeps, read_noc-Keeps, read_xbar-Keeps,
}
use wattwatcher.Description.Components.{
  read_core, read_l1_directory, read_l2_directory, read_l2, read_l3, read_inner, read_xbars,
  read_noc,
}

-- A fault says nothing.
abbrev pub Any : Type 0
Any = Unit {0}

pub any-Sound : {A : Type 0} (m : Run A) → Sound Any m
any-Sound (done a) = tt
any-Sound stopped = tt
any-Sound fault = tt

-- A reader keeps the counts.
abbrev pub KeepsCounts : {F : Type 0} → (ℕ → Component → RootSystem F → Run (RootSystem F)) → Type 0
KeepsCounts {F} read = (i : ℕ) (c : Component) (s : RootSystem F) → Post Any (Keeps s) (read i c s)

pub read_group-Keeps :
    {F : Type 0} (attribute : Component → Option String) (word : String)
    (read : ℕ → Component → RootSystem F → Run (RootSystem F)) (n k : ℕ) (cs : List Component)
    (s0 s : RootSystem F)
    → KeepsCounts read
    → Keeps s0 s
    → Post Any (Keeps s0) (read_group attribute word read n 0 k cs s)
read_group-Keeps attribute word read n k cs s0 s keep e =
    read_group-Post Any attribute word read cs (λ _ _. Keeps s0) (n + 0) (λ k c h. any-Sound _)
      (λ i k c s lt h e.
        Post-weaken Any (Keeps s) (Keeps s0) (read i c s) (keep i c s) (λ s' e'. e' ∙ e))
      n 0 k s (omega arith) e

module _ {F : Type 0} ⦃d : Double F⦄ where
  pub read_core-KeepsCounts : KeepsCounts (read_core {F = F})
  read_core-KeepsCounts i c s = read_core-Keeps Any i (λ _. tt) c s (λ r. any-Sound _)

  pub read_l1_directory-KeepsCounts : KeepsCounts (read_l1_directory {F = F})
  read_l1_directory-KeepsCounts i c s = read_l1_directory-Keeps Any i (λ _. tt) c s (any-Sound _)

  pub read_l2_directory-KeepsCounts : KeepsCounts (read_l2_directory {F = F})
  read_l2_directory-KeepsCounts i c s = read_l2_directory-Keeps Any i (λ _. tt) c s (any-Sound _)

  pub read_l2-KeepsCounts : KeepsCounts (read_l2 {F = F})
  read_l2-KeepsCounts i c s = read_l2-Keeps Any i (λ _. tt) c s (any-Sound _)

  pub read_l3-KeepsCounts : KeepsCounts (read_l3 {F = F})
  read_l3-KeepsCounts i c s = read_l3-Keeps Any i (λ _. tt) c s (any-Sound _)

  read_inner-Keeps :
      (i : ℕ) (name : Option String) (p : Part) (s : RootSystem F)
      → Post Any (Keeps s) (read_inner i name p s)
  unfolding read_inner
  read_inner-Keeps i none p s = tt
  read_inner-Keeps i (some n) p s =
      Post-if Any (Keeps s) (str_eq n "xbar0") _ (done s)
        (λ _. read_xbar-Keeps Any i p s (λ x. any-Sound _) (λ x. any-Sound _)) (λ _. refl)

  read_xbars-Keeps :
      (i : ℕ) (ps : List Part) (s : RootSystem F) → Post Any (Keeps s) (read_xbars i ps s)
  unfolding read_xbars
  read_xbars-Keeps i [] s = refl
  read_xbars-Keeps i (p ∷ ps) s =
      Post-bind Any (Keeps s) (Keeps s) (read_inner i p.name p s) _ (read_inner-Keeps i p.name p s)
        (λ s' e.
          Post-weaken Any (Keeps s') (Keeps s) _ (read_xbars-Keeps i ps s') (λ s'' e'. e' ∙ e))

  pub read_noc-KeepsCounts : KeepsCounts (read_noc {F = F})
  read_noc-KeepsCounts i c s =
      read_noc-Keeps Any i (λ _. tt) c s (λ r. any-Sound _) (λ r. read_xbars-Keeps i c.components r)
        (λ r. any-Sound _)

  pub read_nocs-Keeps :
      (n k : ℕ) (cs : List Component) (s0 s : RootSystem F)
      → Keeps s0 s
      → Post Any (Keeps s0) (read_nocs read_noc n 0 k cs s)
  read_nocs-Keeps n k cs s0 s e =
      read_nocs-Post Any read_noc cs (Keeps s0) (n + 0) (λ k c h. any-Sound _)
        (λ i k c s lt h e.
          Post-weaken Any (Keeps s) (Keeps s0) (read_noc i c s) (read_noc-KeepsCounts i c s)
            (λ s' e'. e' ∙ e))
        n 0 k s (omega arith) e
