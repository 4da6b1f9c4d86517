-- ===== src/Description/Counts.antt =====
-- The numbers of components of each kind, which the loops of ParseXML::parse (fast_mcpat/XML_Parse.cc)
-- read between the components: no component changes them.
use wattwatcher.Prelude.{ℕ, Bool, true, false, ltb, if◌then◌else◌, ◌≡◌, refl, ◌∙◌}
use wattwatcher.Double.{Double}
use wattwatcher.Text.{ℤ}
use wattwatcher.Description.{Run, fault, ◌>>=◌, run_map, read_items}
use wattwatcher.Description.Document.{Part, Component}
use wattwatcher.Description.Post.{Post, Post-bind, Post-map, Post-weaken}
use wattwatcher.Description.Components.{
  max_num_cores, put, read_both, read_parts, read_core, read_l1_directory, read_l2_directory,
  read_l2, read_l3, read_xbar, read_xbars, read_noc,
}
use wattwatcher.Description.Core.{SystemCore}
use wattwatcher.Description.CoreParams.{core_params}
use wattwatcher.Description.CoreStats.{core_stats}
use wattwatcher.Description.L1Directory.{l1_directory_params, l1_directory_stats}
use wattwatcher.Description.L2Directory.{l2_directory_params, l2_directory_stats}
use wattwatcher.Description.L2.{l2_params, l2_stats}
use wattwatcher.Description.L3.{l3_params, l3_stats}
use wattwatcher.Description.Predictor.{PredictorSystemcore, predictor_stats}
use wattwatcher.Description.Noc.{Xbar0SystemNoc, SystemNoc, xbar0_params, noc_params, noc_stats}
use wattwatcher.Description.Root.{RootSystem}

-- For each kind whether its components are equal, and their number.
pub record Counts : Type 0 where
  pub cores : ℤ × ℤ
  pub l1_directories : ℤ × ℤ
  pub l2_directories : ℤ × ℤ
  pub l2s : ℤ × ℤ
  pub l3s : ℤ × ℤ
  pub nocs : ℤ × ℤ

module _ {F : Type 0} where
  abbrev pub counts : RootSystem F → Counts
  counts s = record {
    cores = (s.homogeneous_cores, s.number_of_cores);
    l1_directories = (s.homogeneous_l1_directories, s.number_of_l1_directories);
    l2_directories = (s.homogeneous_l2_directories, s.number_of_l2_directories);
    l2s = (s.homogeneous_l2s, s.number_of_l2s);
    l3s = (s.homogeneous_l3s, s.number_of_l3s);
    nocs = (s.homogeneous_nocs, s.number_of_nocs);
  }

  abbrev pub Keeps : RootSystem F → RootSystem F → Type 0
  Keeps s s' = counts s' ≡ counts s

-- A run with a result of any kind.
abbrev pub Sound : {A : Type 0} → Type 0 → Run A → Type 0
Sound Q m = Post Q (λ _. Unit {0}) m

module _ (Q : Type 0) where
  guard-Post :
      {A : Type 0} (P : A → Type 0) (b : Bool) (m : Run A)
      → (b ≡ false → Q)
      → Post Q P m
      → Post Q P (if b then m else fault)
  guard-Post P true m o h = h
  guard-Post P false m o h = o refl

  put-Post :
      {A S : Type 0} (P : S → Type 0) (i : ℕ) (m : Run A) (set : A → S)
      → (ltb i max_num_cores ≡ false → Q)
      → ((a : A) → P (set a))
      → Sound Q m
      → Post Q P (put i m set)
  put-Post P i m set outside p sound =
      guard-Post P (ltb i max_num_cores) (run_map set m) outside
        (Post-map Q P set m (Post-weaken Q (λ _. Unit {0}) _ m sound (λ a _. p a)))

  module _ {F : Type 0} ⦃d : Double F⦄ (i : ℕ) (outside : ltb i max_num_cores ≡ false → Q)
      (c : Component) (s : RootSystem F) where
    pub read_core-Keeps :
        ((r : SystemCore F)
          → Sound Q
              (read_both core_params core_stats c.params c.stats r >>= read_parts c.components))
        → Post Q (Keeps s) (read_core i c s)
    unfolding read_core
    read_core-Keeps sound = put-Post (Keeps s) i _ _ outside (λ r. refl) (sound (s.core i))

    pub read_l1_directory-Keeps :
        Sound Q
          (read_both l1_directory_params l1_directory_stats c.params c.stats (s.l1_directory i))
        → Post Q (Keeps s) (read_l1_directory i c s)
    unfolding read_l1_directory
    read_l1_directory-Keeps sound = put-Post (Keeps s) i _ _ outside (λ r. refl) sound

    pub read_l2_directory-Keeps :
        Sound Q
          (read_both l2_directory_params l2_directory_stats c.params c.stats (s.l2_directory i))
        → Post Q (Keeps s) (read_l2_directory i c s)
    unfolding read_l2_directory
    read_l2_directory-Keeps sound = put-Post (Keeps s) i _ _ outside (λ r. refl) sound

    pub read_l2-Keeps :
        Sound Q (read_both l2_params l2_stats c.params c.stats (s.l2 i))
        → Post Q (Keeps s) (read_l2 i c s)
    unfolding read_l2
    read_l2-Keeps sound = put-Post (Keeps s) i _ _ outside (λ r. refl) sound

    pub read_l3-Keeps :
        Sound Q (read_both l3_params l3_stats c.params c.stats (s.l3 i))
        → Post Q (Keeps s) (read_l3 i c s)
    unfolding read_l3
    read_l3-Keeps sound = put-Post (Keeps s) i _ _ outside (λ r. refl) sound

    pub read_noc-Keeps :
        ((r : SystemNoc F) → Sound Q (read_items noc_params c.params r))
        → ((r : RootSystem F) → Post Q (Keeps r) (read_xbars i c.components r))
        → ((r : SystemNoc F) → Sound Q (read_items noc_stats c.stats r))
        → Post Q (Keeps s) (read_noc i c s)
    unfolding read_noc
    read_noc-Keeps params parts stats =
        Post-bind Q (Keeps s) (Keeps s) (put i _ _) _
          (put-Post (Keeps s) i _ _ outside (λ r. refl) (params (s.noc i)))
          (λ s1 e.
            Post-bind Q (Keeps s1) (Keeps s) (read_xbars i c.components s1) _ (parts s1) (λ s2 e'.
              Post-bind Q (λ _. Unit {0}) (Keeps s) (read_items noc_stats c.stats (s2.noc i)) _
                (stats (s2.noc i)) (λ r _. e' ∙ e)))

  module _ {F : Type 0} ⦃d : Double F⦄ (i : ℕ) (p : Part) (s : RootSystem F) where
    pub read_xbar-Keeps :
        ((x : Xbar0SystemNoc F) → Sound Q (read_items xbar0_params p.params x))
        → ((x : PredictorSystemcore F) → Sound Q (read_items predictor_stats p.stats x))
        → Post Q (Keeps s) (read_xbar i p s)
    unfolding read_xbar
    read_xbar-Keeps params stats =
        Post-bind Q (λ _. Unit {0}) (Keeps s) (read_items xbar0_params p.params (s.noc i).xbar0) _
          (params (s.noc i).xbar0)
          (λ x _.
            Post-bind Q (λ _. Unit {0}) (Keeps s)
              (read_items predictor_stats p.stats (s.core i).predictor) _
              (stats (s.core i).predictor) (λ a _. refl))
