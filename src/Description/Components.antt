-- ===== src/Description/Components.antt =====
-- What ParseXML::parse (fast_mcpat/XML_Parse.cc) does with one component: a loop over its params, one
-- over its stats, and for cores and networks one over the components in it. An index behind an array of
-- 1024 entries is a fault.
use wattwatcher.Prelude.{
  ℕ, Option, none, some, List, [], ◌∷◌, String, str_eq, ltb, ◌==◌, if◌then◌else◌,
}
use wattwatcher.Double.{Double}
use wattwatcher.Description.{Run, done, fault, ◌>>=◌, run_map, Item, Entry, read_items}
use wattwatcher.Description.Document.{Part, Component}
use wattwatcher.Description.Predictor.{predictor_params, predictor_stats}
use wattwatcher.Description.Itlb.{itlb_params, itlb_stats}
use wattwatcher.Description.Icache.{icache_params, icache_stats}
use wattwatcher.Description.Dtlb.{dtlb_params, dtlb_stats}
use wattwatcher.Description.Dcache.{dcache_params, dcache_stats}
use wattwatcher.Description.Btb.{btb_params, btb_stats}
use wattwatcher.Description.Core.{SystemCore}
use wattwatcher.Description.CoreParams.{core_params}
use wattwatcher.Description.CoreStats.{core_stats}
use wattwatcher.Description.L1Directory.{l1_directory_params, l1_directory_stats}
use wattwatcher.Description.L2Directory.{l2_directory_params, l2_directory_stats}
use wattwatcher.Description.L2.{l2_params, l2_stats}
use wattwatcher.Description.L3.{l3_params, l3_stats}
use wattwatcher.Description.Noc.{xbar0_params, noc_params, noc_stats}
use wattwatcher.Description.ControllerEntries.{
  mc_params, mc_stats, niu_params, niu_stats, pcie_params, pcie_stats, flashc_params, flashc_stats,
}
use wattwatcher.Description.Root.{RootSystem}

abbrev pub max_num_cores : ℕ
max_num_cores = 1024

abbrev pub update : {A : Type 0} → (ℕ → A) → ℕ → A → ℕ → A
update f i a j = if j == i then a else f j

abbrev pub put : {A S : Type 0} → ℕ → Run A → (A → S) → Run S
put i r set = if ltb i max_num_cores then run_map set r else fault

module _ {F : Type 0} ⦃d : Double F⦄ where
  unfoldable pub read_both :
      {T : Type 0} → (params stats : List (Entry F T)) → (its its' : List Item) → T → Run T
  read_both params stats its its' r = read_items params its r >>= read_items stats its'

  -- A component of a core.
  unfoldable pub read_part : Option String → Part → SystemCore F → Run (SystemCore F)
  read_part none p r = fault
  read_part (some n) p r =
      if str_eq n "PBT"
      then run_map (λ a. record r { predictor = a })
          (read_both predictor_params predictor_stats p.params p.stats r.predictor)
      else if str_eq n "itlb"
      then run_map (λ a. record r { itlb = a })
          (read_both itlb_params itlb_stats p.params p.stats r.itlb)
      else if str_eq n "icache"
      then run_map (λ a. record r { icache = a })
          (read_both icache_params icache_stats p.params p.stats r.icache)
      else if str_eq n "dtlb"
      then run_map (λ a. record r { dtlb = a })
          (read_both dtlb_params dtlb_stats p.params p.stats r.dtlb)
      else if str_eq n "dcache"
      then run_map (λ a. record r { dcache = a })
          (read_both dcache_params dcache_stats p.params p.stats r.dcache)
      else if str_eq n "BTB"
      then run_map (λ a. record r { btb = a })
          (read_both btb_params btb_stats p.params p.stats r.btb)
      else done r

  unfoldable pub read_parts : List Part → SystemCore F → Run (SystemCore F)
  read_parts [] r = done r
  read_parts (p ∷ ps) r = read_part p.name p r >>= read_parts ps

  unfoldable pub read_core : ℕ → Component → RootSystem F → Run (RootSystem F)
  read_core i c s =
      put i
        (read_both core_params core_stats c.params c.stats (s.core i) >>= read_parts c.components)
        (λ r. record s { core = update s.core i r })

  unfoldable pub read_l1_directory : ℕ → Component → RootSystem F → Run (RootSystem F)
  read_l1_directory i c s =
      put i (read_both l1_directory_params l1_directory_stats c.params c.stats (s.l1_directory i))
        (λ r. record s { l1_directory = update s.l1_directory i r })

  unfoldable pub read_l2_directory : ℕ → Component → RootSystem F → Run (RootSystem F)
  read_l2_directory i c s =
      put i (read_both l2_directory_params l2_directory_stats c.params c.stats (s.l2_directory i))
        (λ r. record s { l2_directory = update s.l2_directory i r })

  unfoldable pub read_l2 : ℕ → Component → RootSystem F → Run (RootSystem F)
  read_l2 i c s =
      put i (read_both l2_params l2_stats c.params c.stats (s.l2 i))
        (λ r. record s { l2 = update s.l2 i r })

  unfoldable pub read_l3 : ℕ → Component → RootSystem F → Run (RootSystem F)
  read_l3 i c s =
      put i (read_both l3_params l3_stats c.params c.stats (s.l3 i))
        (λ r. record s { l3 = update s.l3 i r })

  -- The stats of a crossbar are those of the predictor of the core of that number.
  unfoldable pub read_xbar : ℕ → Part → RootSystem F → Run (RootSystem F)
  read_xbar i p s = do
    x ← read_items xbar0_params p.params (s.noc i).xbar0
    a ← read_items predictor_stats p.stats (s.core i).predictor
    done (record s {
      noc = update s.noc i (record (s.noc i) { xbar0 = x });
      core = update s.core i (record (s.core i) { predictor = a });
    })

  -- A component of a network.
  unfoldable pub read_inner : ℕ → Option String → Part → RootSystem F → Run (RootSystem F)
  unfolding read_xbar
  read_inner i none p s = fault
  read_inner i (some n) p s = if str_eq n "xbar0" then read_xbar i p s else done s

  unfoldable pub read_xbars : ℕ → List Part → RootSystem F → Run (RootSystem F)
  unfolding read_inner
  read_xbars i [] s = done s
  read_xbars i (p ∷ ps) s = read_inner i p.name p s >>= read_xbars i ps

  unfoldable pub read_noc : ℕ → Component → RootSystem F → Run (RootSystem F)
  unfolding read_xbars
  read_noc i c s = do
    s1 ← put i (read_items noc_params c.params (s.noc i)) (λ r. record s { noc = update s.noc i r })
    s2 ← read_xbars i c.components s1
    r ← read_items noc_stats c.stats (s2.noc i)
    done (record s2 { noc = update s2.noc i r })

  unfoldable pub read_mc : Component → RootSystem F → Run (RootSystem F)
  read_mc c s =
      run_map (λ r. record s { mc = r }) (read_both mc_params mc_stats c.params c.stats s.mc)

  unfoldable pub read_niu : Component → RootSystem F → Run (RootSystem F)
  read_niu c s =
      run_map (λ r. record s { niu = r }) (read_both niu_params niu_stats c.params c.stats s.niu)

  unfoldable pub read_pcie : Component → RootSystem F → Run (RootSystem F)
  read_pcie c s =
      run_map (λ r. record s { pcie = r })
        (read_both pcie_params pcie_stats c.params c.stats s.pcie)

  unfoldable pub read_flashc : Component → RootSystem F → Run (RootSystem F)
  read_flashc c s =
      run_map (λ r. record s { flashc = r })
        (read_both flashc_params flashc_stats c.params c.stats s.flashc)
