-- ===== src/Description/Fields.antt =====
-- What the fields of a system and of a core hold after the loops of ParseXML::parse
-- (fast_mcpat/XML_Parse.cc) over their params and stats.
use wattwatcher.Prelude.{List, String, none, ◌≡◌, refl, arith}
use wattwatcher.Double.{Double}
use wattwatcher.Text.{ℤ, codes, atoi, atof_codes}
use wattwatcher.Description.{done, Item, read_items}
use wattwatcher.Description.Items.{held, last_value, double-value, int-value}
use wattwatcher.Description.Core.{SystemCore}
use wattwatcher.Description.CoreStats.{core_stats}
use wattwatcher.Description.Root.{RootSystem, system_params}

-- A field holds the last value of a name, as a double or as an int.
abbrev pub HasDouble : {F T : Type 0} ⦃d : Double F⦄ → List Item → T → T → String → (T → F) → Type 0
HasDouble its r r' k get = get r' ≡ held (λ v. atof_codes (codes v)) (get r) (last_value k its none)

abbrev pub HasInt : {T : Type 0} → List Item → T → T → String → (T → ℤ) → Type 0
HasInt its r r' k get = get r' ≡ held atoi (get r) (last_value k its none)

module _ (F : Type 0) ⦃d : Double F⦄ (its : List Item) where
  -- After the stats of a core have been read, the writes of the architecture's register files are those
  -- that the document gives for the physical ones, and the other way round: each field holds the last
  -- value of the stat named after the other, or what it held before if there is none.
  pub core_stats-swap :
      (r r' : SystemCore F)
      → read_items core_stats its r ≡ done r'
      → HasDouble its r r' "phy_int_regfile_writes" (λ c. c.archi_int_regfile_writes)
        × HasDouble its r r' "phy_float_regfile_writes" (λ c. c.archi_float_regfile_writes)
        × HasDouble its r r' "archi_int_regfile_writes" (λ c. c.phy_int_regfile_writes)
        × HasDouble its r r' "archi_float_regfile_writes" (λ c. c.phy_float_regfile_writes)
  unfolding core_stats
  core_stats-swap r r' h = (
    double-value "phy_int_regfile_writes" core_stats (λ c. c.archi_int_regfile_writes) _ refl
        (λ v c. refl) (ground arith) its r r' h,
    double-value "phy_float_regfile_writes" core_stats (λ c. c.archi_float_regfile_writes) _ refl
        (λ v c. refl) (ground arith) its r r' h,
    double-value "archi_int_regfile_writes" core_stats (λ c. c.phy_int_regfile_writes) _ refl
        (λ v c. refl) (ground arith) its r r' h,
    double-value "archi_float_regfile_writes" core_stats (λ c. c.phy_float_regfile_writes) _ refl
        (λ v c. refl) (ground arith) its r r' h,
  )

  -- After the params of the system have been read, each of the six counts and each of the six marks of
  -- equal components holds the last value of its own name, or what it held before if there is none.
  pub system_params-counts :
      (r r' : RootSystem F)
      → read_items system_params its r ≡ done r'
      → HasInt its r r' "number_of_cores" (λ s. s.number_of_cores)
        × HasInt its r r' "number_of_L1Directories" (λ s. s.number_of_l1_directories)
        × HasInt its r r' "number_of_L2Directories" (λ s. s.number_of_l2_directories)
        × HasInt its r r' "number_of_L2s" (λ s. s.number_of_l2s)
        × HasInt its r r' "number_of_L3s" (λ s. s.number_of_l3s)
        × HasInt its r r' "number_of_NoCs" (λ s. s.number_of_nocs)
        × HasInt its r r' "homogeneous_cores" (λ s. s.homogeneous_cores)
        × HasInt its r r' "homogeneous_L1Directories" (λ s. s.homogeneous_l1_directories)
        × HasInt its r r' "homogeneous_L2Directories" (λ s. s.homogeneous_l2_directories)
        × HasInt its r r' "homogeneous_L2s" (λ s. s.homogeneous_l2s)
        × HasInt its r r' "homogeneous_L3s" (λ s. s.homogeneous_l3s)
        × HasInt its r r' "homogeneous_NoCs" (λ s. s.homogeneous_nocs)
  unfolding system_params
  system_params-counts r r' h = (
    int-value "number_of_cores" system_params (λ s. s.number_of_cores) _ refl (λ v s. refl)
        (ground arith) its r r' h,
    int-value "number_of_L1Directories" system_params (λ s. s.number_of_l1_directories) _ refl
        (λ v s. refl) (ground arith) its r r' h,
    int-value "number_of_L2Directories" system_params (λ s. s.number_of_l2_directories) _ refl
        (λ v s. refl) (ground arith) its r r' h,
    int-value "number_of_L2s" system_params (λ s. s.number_of_l2s) _ refl (λ v s. refl)
        (ground arith) its r r' h,
    int-value "number_of_L3s" system_params (λ s. s.number_of_l3s) _ refl (λ v s. refl)
        (ground arith) its r r' h,
    int-value "number_of_NoCs" system_params (λ s. s.number_of_nocs) _ refl (λ v s. refl)
        (ground arith) its r r' h,
    int-value "homogeneous_cores" system_params (λ s. s.homogeneous_cores) _ refl (λ v s. refl)
        (ground arith) its r r' h,
    int-value "homogeneous_L1Directories" system_params (λ s. s.homogeneous_l1_directories) _ refl
        (λ v s. refl) (ground arith) its r r' h,
    int-value "homogeneous_L2Directories" system_params (λ s. s.homogeneous_l2_directories) _ refl
        (λ v s. refl) (ground arith) its r r' h,
    int-value "homogeneous_L2s" system_params (λ s. s.homogeneous_l2s) _ refl (λ v s. refl)
        (ground arith) its r r' h,
    int-value "homogeneous_L3s" system_params (λ s. s.homogeneous_l3s) _ refl (λ v s. refl)
        (ground arith) its r r' h,
    int-value "homogeneous_NoCs" system_params (λ s. s.homogeneous_nocs) _ refl (λ v s. refl)
        (ground arith) its r r' h,
  )
