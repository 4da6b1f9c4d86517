-- ===== src/Description/Served.antt =====
-- The reader of Taking on components that are there, have the right names and fit.
use wattwatcher.Prelude.{
  ℕ, zero, suc, ◌+◌, ◌≤◌, ◌<◌, true, Option, none, some, List, [], ◌∷◌, String, ◌≡◌, refl, sym, ap,
  subst, ◌∙◌, arith,
}
use wattwatcher.Double.{Double}
use wattwatcher.Text.{ℤ}
use wattwatcher.Description.{Run, done, ◌>>=◌}
use wattwatcher.Description.Document.{Component}
use wattwatcher.Description.Root.{RootSystem}
use wattwatcher.Description.Counts.{counts, Keeps}
use wattwatcher.Description.Order.{drop, take_group, take_nocs}
use wattwatcher.Description.Follow.{drop-zero}
use wattwatcher.Description.Loops.{inside}
use wattwatcher.Description.Fit.{component_fits, components_fit, &&-true}
use wattwatcher.Description.Sound.{Reads}
use wattwatcher.Description.Goes.{Goes, Goes-done}
use wattwatcher.Description.Complete.{Demand, has, named, complete, kind}
use wattwatcher.Description.Taking.{taken, take_kind, take_networks}
use wattwatcher.Description.Parse.{has_word}
use wattwatcher.Description.Components.{read_noc}

-- A run has a result, of which P holds.
abbrev pub Succeeds : {A : Type 0} → (A → Type 0) → Run A → Type 0
Succeeds {A} P m = (a : A) × (m ≡ done a) × P a

pub bind-Succeeds :
    {A B : Type 0} (P : A → Type 0) (R : B → Type 0) (m : Run A) (f : A → Run B)
    → Succeeds P m
    → ((a : A) → P a → Succeeds R (f a))
    → Succeeds R (m >>= f)
bind-Succeeds P R m f (a, e, p) k = rw e (k a p)

pub weaken-Succeeds :
    {A : Type 0} (P R : A → Type 0) (m : Run A)
    → Succeeds P m
    → ((a : A) → P a → R a)
    → Succeeds R m
weaken-Succeeds P R m (a, e, p) k = (a, e, k a p)

pub has-done : (a : Option String) (word : String) → has a word ≡ true → has_word a word ≡ done true
has-done none word h = cc
has-done (some a) word h = ap (λ b. Run.done b) h

drop-fit :
    (n : ℕ) (cs : List Component) → components_fit cs ≡ true → components_fit (drop n cs) ≡ true
drop-fit n [] h = refl
drop-fit zero (c ∷ cs) h = h
drop-fit (suc n) (c ∷ cs) h = drop-fit n cs (&&-true (component_fits c) _ h).1

module _ {F : Type 0} where
  -- A reader has a result for each component that fits, and keeps the counts.
  abbrev pub Serves : (ℕ → Component → RootSystem F → Run (RootSystem F)) → Type 0
  Serves read =
      (i : ℕ) (c : Component) (s : RootSystem F)
      → i < 1024
      → component_fits c ≡ true
      → Succeeds (Keeps s) (read i c s)

  pub Reads-Serves :
      ⦃d : Double F⦄ (read : ℕ → Component → RootSystem F → Run (RootSystem F))
      → Reads read
      → ((i : ℕ) (c : Component) (s : RootSystem F) → Goes (read i c s))
      → Serves read
  Reads-Serves read reads goes i c s lt fit =
      Goes-done (Keeps s) (read i c s) (goes i c s) (reads i c s (inside i lt) fit)

  -- What a kind leaves of the list.
  abbrev Left : RootSystem F → List Component → List Component × RootSystem F → Type 0
  Left s0 rest r = (r.0 ≡ rest) × Keeps s0 (r.1)

  group-Succeeds :
      (attribute : Component → Option String) (word : String)
      (read : ℕ → Component → RootSystem F → Run (RootSystem F)) (serve : Serves read)
      (s0 : RootSystem F) (n i : ℕ) (cs : List Component) (s : RootSystem F)
      → n + i ≤ 1024
      → named attribute word n cs ≡ true
      → components_fit cs ≡ true
      → Keeps s0 s
      → Succeeds (Left s0 (drop n cs)) (take_group attribute word read n i cs s)
  unfolding take_group
  group-Succeeds attribute word read serve s0 zero i cs s le h fit keeps =
      ((cs, s), refl, (sym (drop-zero cs), keeps))
  group-Succeeds attribute word read serve s0 (suc n) i [] s le h fit keeps = cc
  group-Succeeds attribute word read serve s0 (suc n) i (c ∷ cs) s le h fit keeps =
      let (h1, h2) = &&-true (has (attribute c) word) _ h in
      let (f1, f2) = &&-true (component_fits c) _ fit in
      rw (has-done (attribute c) word h1) (
        bind-Succeeds (Keeps s) (Left s0 (drop n cs)) (read i c s) _
          (serve i c s (omega (arith, le)) f1)
          (λ s' e.
            group-Succeeds attribute word read serve s0 n (i + 1) cs s' (omega (arith, le)) h2 f2
              (e ∙ keeps)))

  nocs-Succeeds :
      (read : ℕ → Component → RootSystem F → Run (RootSystem F)) (serve : Serves read)
      (s0 : RootSystem F) (n i : ℕ) (cs : List Component) (s : RootSystem F)
      → n + i ≤ 1024
      → named (λ c. c.name) "noc" n cs ≡ true
      → components_fit cs ≡ true
      → Keeps s0 s
      → Succeeds (Left s0 (drop n cs)) (take_nocs read n i cs s)
  unfolding take_nocs
  nocs-Succeeds read serve s0 zero i cs s le h fit keeps =
      ((cs, s), refl, (sym (drop-zero cs), keeps))
  nocs-Succeeds read serve s0 (suc n) i [] s le h fit keeps = cc
  nocs-Succeeds read serve s0 (suc n) i (c ∷ cs) s le h fit keeps =
      let (h1, h2) = &&-true (has c.name "noc") _ h in
      let (f1, f2) = &&-true (component_fits c) _ fit in
      rw (has-done c.name "noc" h1) (
        bind-Succeeds (Keeps s) (Left s0 (drop n cs)) (read i c s) _
          (serve i c s (omega (arith, le)) f1)
          (λ s' e.
            nocs-Succeeds read serve s0 n (i + 1) cs s' (omega (arith, le)) h2 f2 (e ∙ keeps)))

  -- The list is complete for the demands that are left.
  abbrev pub Ready : List Demand → List Component × RootSystem F → Type 0
  Ready es r = (complete es (r.0) ≡ true) × (components_fit (r.0) ≡ true)

  Left-Ready :
      (s0 : RootSystem F) (e : Demand) (es : List Demand) (cs : List Component) (s : RootSystem F)
      (r : List Component × RootSystem F)
      → Ready (e ∷ es) (cs, s)
      → Left s0 (drop e.number cs) r
      → Ready es r × Keeps s0 (r.1)
  Left-Ready s0 e es cs s r (h, fit) (at, keeps) = (
    (
      subst (λ l. complete es l ≡ true) (sym at)
          (&&-true (named e.attribute e.word e.number cs) _ h).1,
      subst (λ l. components_fit l ≡ true) (sym at) (drop-fit e.number cs fit),
    ),
    keeps,
  )

  pub take_kind-Succeeds :
      ⦃d : Double F⦄ (attribute : Component → Option String) (word : String)
      (read : ℕ → Component → RootSystem F → Run (RootSystem F))
      (homogeneous number : RootSystem F → ℤ) (s0 : RootSystem F) (c : ℤ × ℤ) (es : List Demand)
      (r : List Component × RootSystem F)
      → Serves read
      → ((s : RootSystem F) → Keeps s0 s → (homogeneous s, number s) ≡ c)
      → taken (c.0) (c.1) ≤ 1024
      → Ready (kind c attribute word ∷ es) r × Keeps s0 (r.1)
      → Succeeds
          (λ r'. Ready es r' × Keeps s0 (r'.1))
          (take_kind attribute word read homogeneous number r)
  unfolding take_kind
  take_kind-Succeeds attribute word read homogeneous number s0 c es (cs, s) serve same le
        (ready, keeps) =
      let n : taken (homogeneous s) (number s) ≡ taken (c.0) (c.1) =
        ap (λ c. taken (c.0) (c.1)) (same s keeps) in
      rw n (
        weaken-Succeeds (Left s0 (drop (taken (c.0) (c.1)) cs)) _ _
          (group-Succeeds attribute word read serve s0 (taken (c.0) (c.1)) 0 cs s
            (omega (arith, le)) (&&-true (named attribute word (taken (c.0) (c.1)) cs) _ ready.0).0
            ready.1 keeps)
          (λ r' left. Left-Ready s0 (kind c attribute word) es cs s r' ready left))

  pub take_networks-Succeeds :
      ⦃d : Double F⦄ (s0 : RootSystem F) (es : List Demand) (r : List Component × RootSystem F)
      → Serves read_noc
      → taken s0.homogeneous_nocs s0.number_of_nocs ≤ 1024
      → Ready (kind ((counts s0).nocs) (λ c. c.name) "noc" ∷ es) r × Keeps s0 (r.1)
      → Succeeds (λ r'. Ready es r' × Keeps s0 (r'.1)) (take_networks r)
  unfolding take_networks
  take_networks-Succeeds s0 es (cs, s) serve le (ready, keeps) =
      let c = (counts s0).nocs in
      let n : taken s.homogeneous_nocs s.number_of_nocs
          ≡ taken s0.homogeneous_nocs s0.number_of_nocs =
        ap (λ c. taken (c.nocs.0) (c.nocs.1)) keeps in
      rw n (
        weaken-Succeeds (Left s0 (drop (taken (c.0) (c.1)) cs)) _ _
          (nocs-Succeeds read_noc serve s0 (taken (c.0) (c.1)) 0 cs s (omega (arith, le))
            (&&-true (named (λ c. c.name) "noc" (taken (c.0) (c.1)) cs) _ ready.0).0 ready.1 keeps)
          (λ r' left. Left-Ready s0 (kind c (λ c. c.name) "noc") es cs s r' ready left))
