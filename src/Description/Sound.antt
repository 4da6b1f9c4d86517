-- ===== src/Description/Sound.antt =====
-- No component of a document that fits is read with anything undefined (fast_mcpat/XML_Parse.cc).
use wattwatcher.Prelude.{
  ℕ, Bool, true, false, Option, none, some, List, [], ◌∷◌, String, str_eq, ltb, is_some,
  if◌then◌else◌, ◌≡◌, refl, ◌∙◌,
}
use wattwatcher.Double.{Double}
use wattwatcher.Description.{Run, done, run_map}
use wattwatcher.Description.Document.{Part, Component}
use wattwatcher.Description.Post.{Post, Post-bind, Post-map, Post-weaken, Post-if}
use wattwatcher.Description.Counts.{
  Sound, Keeps, read_core-Keeps, read_l1_directory-Keeps, read_l2_directory-Keeps, read_l2-Keeps,
  read_l3-Keeps, read_noc-Keeps, read_xbar-Keeps,
}
use wattwatcher.Description.IntNames.{is_int_name}
use wattwatcher.Description.Fit.{
  items_fit, both_fit, part_fits, parts_fit, component_fits, &&-true, component_parts,
  read_items-Sound, read_both-Sound,
}
use wattwatcher.Description.Components.{
  max_num_cores, read_both, read_part, read_parts, read_core, read_l1_directory, read_l2_directory,
  read_l2, read_l3, read_inner, read_xbars, read_noc, read_mc, read_niu, read_pcie, read_flashc,
}
use wattwatcher.Description.Predictor.{predictor_params, predictor_stats}
use wattwatcher.Description.Itlb.{itlb_params, itlb_stats}
use wattwatcher.Description.Icache.{icache_params, icache_stats}
use wattwatcher.Description.Dtlb.{dtlb_params, dtlb_stats}
use wattwatcher.Description.Dcache.{dcache_params, dcache_stats}
use wattwatcher.Description.Btb.{btb_params, btb_stats}
use wattwatcher.Description.Core.{SystemCore}
use wattwatcher.Description.CoreParams.{core_params}
use wattwatcher.Description.CoreStats.{core_stats}
use wattwatcher.Description.L1Directory.{l1_directory_params, l1_directory_stats}
use wattwatcher.Description.L2Directory.{l2_directory_params, l2_directory_stats}
use wattwatcher.Description.L2.{l2_params, l2_stats}
use wattwatcher.Description.L3.{l3_params, l3_stats}
use wattwatcher.Description.Noc.{xbar0_params, noc_params, noc_stats}
use wattwatcher.Description.ControllerEntries.{
  mc_params, mc_stats, niu_params, niu_stats, pcie_params, pcie_stats, flashc_params, flashc_stats,
}
use wattwatcher.Description.Root.{RootSystem}

part-Sound :
    {T S : Type 0} (b : Bool) (set : T → S) (m : Run T) (rest : Run S)
    → Sound ⊥ m
    → Sound ⊥ rest
    → Sound ⊥ (if b then run_map set m else rest)
part-Sound true set m rest h k = Post-map ⊥ (λ _. Unit {0}) set m h
part-Sound false set m rest h k = k

module _ {F : Type 0} ⦃d : Double F⦄ where
  read_part-Sound :
      (name : Option String) (p : Part) (r : SystemCore F)
      → is_some name ≡ true
      → both_fit p.params p.stats ≡ true
      → Sound ⊥ (read_part name p r)
  unfolding is_int_name read_part predictor_params predictor_stats itlb_params itlb_stats
      icache_params icache_stats dtlb_params dtlb_stats dcache_params dcache_stats btb_params
      btb_stats
  read_part-Sound none p r h k = cc
  read_part-Sound (some n) p r h k =
      part-Sound (str_eq n "PBT") _ _ _
        (read_both-Sound predictor_params predictor_stats p.params p.stats _ refl refl k)
        (part-Sound (str_eq n "itlb") _ _ _
          (read_both-Sound itlb_params itlb_stats p.params p.stats _ refl refl k)
          (part-Sound (str_eq n "icache") _ _ _
            (read_both-Sound icache_params icache_stats p.params p.stats _ refl refl k)
            (part-Sound (str_eq n "dtlb") _ _ _
              (read_both-Sound dtlb_params dtlb_stats p.params p.stats _ refl refl k)
              (part-Sound (str_eq n "dcache") _ _ _
                (read_both-Sound dcache_params dcache_stats p.params p.stats _ refl refl k)
                (part-Sound (str_eq n "BTB") _ _ _
                  (read_both-Sound btb_params btb_stats p.params p.stats _ refl refl k) tt)))))

  read_parts-Sound :
      (ps : List Part) (r : SystemCore F) → parts_fit ps ≡ true → Sound ⊥ (read_parts ps r)
  unfolding is_int_name read_parts
  read_parts-Sound [] r h = tt
  read_parts-Sound (p ∷ ps) r h =
      let (h1, h2) = &&-true (part_fits p) _ h in
      let (h3, h4) = &&-true (is_some p.name) _ h1 in
      Post-bind ⊥ (λ _. Unit {0}) (λ _. Unit {0}) (read_part p.name p r) _
        (read_part-Sound p.name p r h3 h4) (λ r' _. read_parts-Sound ps r' h2)

  read_inner-Keeps :
      (i : ℕ) (name : Option String) (p : Part) (s : RootSystem F)
      → is_some name ≡ true
      → both_fit p.params p.stats ≡ true
      → Post ⊥ (Keeps s) (read_inner i name p s)
  unfolding is_int_name read_inner xbar0_params predictor_stats
  read_inner-Keeps i none p s h k = cc
  read_inner-Keeps i (some n) p s h k =
      let (k1, k2) = &&-true (items_fit p.params) _ k in
      Post-if ⊥ (Keeps s) (str_eq n "xbar0") _ (done s)
        (λ _.
          read_xbar-Keeps ⊥ i p s (λ x. read_items-Sound xbar0_params refl p.params x k1)
            (λ x. read_items-Sound predictor_stats refl p.stats x k2))
        (λ _. refl)

  read_xbars-Keeps :
      (i : ℕ) (ps : List Part) (s : RootSystem F)
      → parts_fit ps ≡ true
      → Post ⊥ (Keeps s) (read_xbars i ps s)
  unfolding is_int_name read_xbars
  read_xbars-Keeps i [] s h = refl
  read_xbars-Keeps i (p ∷ ps) s h =
      let (h1, h2) = &&-true (part_fits p) _ h in
      let (h3, h4) = &&-true (is_some p.name) _ h1 in
      Post-bind ⊥ (Keeps s) (Keeps s) (read_inner i p.name p s) _
        (read_inner-Keeps i p.name p s h3 h4)
        (λ s1 e.
          Post-weaken ⊥ (Keeps s1) (Keeps s) (read_xbars i ps s1) (read_xbars-Keeps i ps s1 h2)
            (λ s2 e'. e' ∙ e))

  -- An entry of an array, if the component fits.
  abbrev pub Reads : (ℕ → Component → RootSystem F → Run (RootSystem F)) → Type 0
  Reads read =
      (i : ℕ) (c : Component) (s : RootSystem F)
      → (ltb i max_num_cores ≡ false → ⊥)
      → component_fits c ≡ true
      → Post ⊥ (Keeps s) (read i c s)

  pub read_core-Reads : Reads read_core
  unfolding is_int_name core_params core_stats
  read_core-Reads i c s inside h =
      let (h1, h2) = component_parts c h in
      read_core-Keeps ⊥ i inside c s (λ r.
        Post-bind ⊥ (λ _. Unit {0}) (λ _. Unit {0})
          (read_both core_params core_stats c.params c.stats r) _
          (read_both-Sound core_params core_stats c.params c.stats r refl refl h1)
          (λ r' _. read_parts-Sound c.components r' h2))

  pub read_l1_directory-Reads : Reads read_l1_directory
  unfolding is_int_name l1_directory_params l1_directory_stats
  read_l1_directory-Reads i c s inside h = read_l1_directory-Keeps ⊥ i inside c s (
      read_both-Sound l1_directory_params l1_directory_stats c.params c.stats _ refl refl
        (component_parts c h).0)

  pub read_l2_directory-Reads : Reads read_l2_directory
  unfolding is_int_name l2_directory_params l2_directory_stats
  read_l2_directory-Reads i c s inside h = read_l2_directory-Keeps ⊥ i inside c s (
      read_both-Sound l2_directory_params l2_directory_stats c.params c.stats _ refl refl
        (component_parts c h).0)

  pub read_l2-Reads : Reads read_l2
  unfolding is_int_name l2_params l2_stats
  read_l2-Reads i c s inside h =
      read_l2-Keeps ⊥ i inside c s
        (read_both-Sound l2_params l2_stats c.params c.stats _ refl refl (component_parts c h).0)

  pub read_l3-Reads : Reads read_l3
  unfolding is_int_name l3_params l3_stats
  read_l3-Reads i c s inside h =
      read_l3-Keeps ⊥ i inside c s
        (read_both-Sound l3_params l3_stats c.params c.stats _ refl refl (component_parts c h).0)

  pub read_noc-Reads : Reads read_noc
  unfolding is_int_name noc_params noc_stats
  read_noc-Reads i c s inside h =
      let (h1, h2) = component_parts c h in
      let (h3, h4) = &&-true (items_fit c.params) _ h1 in
      read_noc-Keeps ⊥ i inside c s (λ r. read_items-Sound noc_params refl c.params r h3)
        (λ r. read_xbars-Keeps i c.components r h2)
        (λ r. read_items-Sound noc_stats refl c.stats r h4)

  module _ (c : Component) (s : RootSystem F) (h : component_fits c ≡ true) where
    pub read_mc-Sound : Sound ⊥ (read_mc c s)
    unfolding is_int_name read_mc mc_params mc_stats
    read_mc-Sound =
        Post-map ⊥ (λ _. Unit {0}) _ _
          (read_both-Sound mc_params mc_stats c.params c.stats s.mc refl refl
            (component_parts c h).0)

    pub read_niu-Sound : Sound ⊥ (read_niu c s)
    unfolding is_int_name read_niu niu_params niu_stats
    read_niu-Sound =
        Post-map ⊥ (λ _. Unit {0}) _ _
          (read_both-Sound niu_params niu_stats c.params c.stats s.niu refl refl
            (component_parts c h).0)

    pub read_pcie-Sound : Sound ⊥ (read_pcie c s)
    unfolding is_int_name read_pcie pcie_params pcie_stats
    read_pcie-Sound =
        Post-map ⊥ (λ _. Unit {0}) _ _
          (read_both-Sound pcie_params pcie_stats c.params c.stats s.pcie refl refl
            (component_parts c h).0)

    pub read_flashc-Sound : Sound ⊥ (read_flashc c s)
    unfolding is_int_name read_flashc flashc_params flashc_stats
    read_flashc-Sound =
        Post-map ⊥ (λ _. Unit {0}) _ _
          (read_both-Sound flashc_params flashc_stats c.params c.stats s.flashc refl refl
            (component_parts c h).0)
