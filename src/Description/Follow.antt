-- ===== src/Description/Follow.antt =====
-- A run of ParseXML::parse (fast_mcpat/XML_Parse.cc) on an index beside one on the rest of the list.
use wattwatcher.Prelude.{
  ℕ, ◌+◌, Option, List, [], ◌∷◌, String, ◌≡◌, refl, sym, ap, subst, ◌∙◌, arith,
}
use wattwatcher.Double.{Double}
use wattwatcher.Description.{Run, done, stopped, fault, ◌>>=◌, run_map}
use wattwatcher.Description.Document.{Component}
use wattwatcher.Description.Root.{RootSystem}
use wattwatcher.Description.Post.{Post, Post-map, Post-weaken}
use wattwatcher.Description.Counts.{Keeps}
use wattwatcher.Description.Order.{drop, take_group, take_group_lem, take_nocs}
use wattwatcher.Description.Networks.{take_nocs_lem}
use wattwatcher.Description.Unchanged.{Any, KeepsCounts, read_group-Keeps, read_nocs-Keeps}
use wattwatcher.Description.Components.{read_noc}
use wattwatcher.Description.Parse.{read_group, read_nocs}

pub drop-zero : {A : Type 0} (xs : List A) → drop 0 xs ≡ xs
drop-zero [] = refl
drop-zero (x ∷ xs) = refl

pub run_map-run_map :
    {A B C : Type 0} (f : A → B) (g : B → C) (m : Run A)
    → run_map g (run_map f m) ≡ run_map (λ a. g (f a)) m
run_map-run_map f g (done a) = refl
run_map-run_map f g stopped = refl
run_map-run_map f g fault = refl

module _ {F : Type 0} (cs : List Component) where
  -- What an index leaves of the list.
  abbrev pub front : ℕ × RootSystem F → List Component × RootSystem F
  front r = (drop (r.0 + 1) cs, r.1)

  -- A run on the rest of the list does what a run on the index does, which ends in P.
  abbrev pub Follows :
      (ℕ × RootSystem F → Type 0)
      → Run (List Component × RootSystem F)
      → Run (ℕ × RootSystem F)
      → Type 0
  Follows P m' m = (m' ≡ run_map front m) × Post Any P m

  pub follow :
      (P R : ℕ × RootSystem F → Type 0) (m' : Run (List Component × RootSystem F))
      (m : Run (ℕ × RootSystem F))
      (f' : List Component × RootSystem F → Run (List Component × RootSystem F))
      (f : ℕ × RootSystem F → Run (ℕ × RootSystem F))
      → Follows P m' m
      → ((r : ℕ × RootSystem F) → P r → Follows R (f' (front r)) (f r))
      → Follows R (m' >>= f') (m >>= f)
  follow P R m' (done r) f' f (e, h) k = (rw e (k r h).0, (k r h).1)
  follow P R m' stopped f' f (e, h) k = (rw e refl, tt)
  follow P R m' fault f' f (e, h) k = (rw e refl, tt)

  -- The order after t components, with the counts of s0.
  abbrev pub At : RootSystem F → ℕ → ℕ × RootSystem F → Type 0
  At s0 t r = (r.0 + 1 ≡ t) × Keeps s0 (r.1)

  module _ (attribute : Component → Option String) (word : String)
      (read : ℕ → Component → RootSystem F → Run (RootSystem F)) (keep : KeepsCounts read)
      (s0 : RootSystem F) where
    pub group-Follows :
        (n order k : ℕ) (s : RootSystem F)
        → order + 1 ≡ n + k
        → Keeps s0 s
        → Follows
            (At s0 (n + k))
            (take_group attribute word read n 0 (drop k cs) s)
            (run_map (λ s'. (order, s')) (read_group attribute word read n 0 k cs s))
    group-Follows n order k s e keeps = (
      take_group_lem attribute word read n 0 k cs s
          ∙ ap
              (λ m.
                run_map {B = List Component × RootSystem F} (λ s'. (drop m cs, s'))
                  (read_group attribute word read n 0 k cs s))
              (sym e)
          ∙ sym (run_map-run_map _ _ _),
      Post-map Any (At s0 (n + k)) _ _ (
          Post-weaken Any (Keeps s0) _ _
            (read_group-Keeps attribute word read n k cs s0 s keep keeps)
            (λ s' keeps'. (e, keeps'))),
    )

    -- From the start of the list.
    pub start-Follows :
        (n order : ℕ) (s : RootSystem F)
        → order + 1 ≡ n
        → Keeps s0 s
        → Follows
            (At s0 n)
            (take_group attribute word read n 0 cs s)
            (run_map (λ s'. (order, s')) (read_group attribute word read n 0 0 cs s))
    start-Follows n order s e keeps =
        let all : n + 0 ≡ n = omega arith in
        let run = run_map (λ s'. (order, s')) (read_group attribute word read n 0 0 cs s) in
        subst (λ l. Follows (At s0 n) (take_group attribute word read n 0 l s) run) (drop-zero cs)
          (subst (λ t. Follows (At s0 t) (take_group attribute word read n 0 (drop 0 cs) s) run) all
            (group-Follows n order 0 s (e ∙ sym all) keeps))

  pub nocs-Follows :
      ⦃d : Double F⦄ (s0 : RootSystem F) (n order k : ℕ) (s : RootSystem F)
      → order + 1 ≡ n + k
      → Keeps s0 s
      → Follows
          (At s0 (n + k))
          (take_nocs read_noc n 0 (drop k cs) s)
          (run_map (λ s'. (order, s')) (read_nocs read_noc n 0 k cs s))
  nocs-Follows s0 n order k s e keeps = (
    take_nocs_lem read_noc n 0 k cs s
        ∙ ap
            (λ m.
              run_map {B = List Component × RootSystem F} (λ s'. (drop m cs, s'))
                (read_nocs read_noc n 0 k cs s))
            (sym e)
        ∙ sym (run_map-run_map _ _ _),
    Post-map Any (At s0 (n + k)) _ _ (
        Post-weaken Any (Keeps s0) _ _ (read_nocs-Keeps n k cs s0 s keeps)
          (λ s' keeps'. (e, keeps'))),
  )
