-- ===== src/Description/Defaults.antt =====
-- What ParseXML::initialize (fast_mcpat/XML_Parse.cc) does not set.
use wattwatcher.Prelude.{ℕ, ◌<◌, leb, if◌then◌else◌, ◌≡◌, refl, ◌∙◌, true, false, Bool, arith}
use wattwatcher.Double.{Double}
use wattwatcher.Description.CoreDefaults.{initialize_core}
use wattwatcher.Description.L1Directory.{initialize_l1_directory}
use wattwatcher.Description.L2Directory.{initialize_l2_directory}
use wattwatcher.Description.Noc.{initialize_noc}
use wattwatcher.Description.L2.{initialize_l2}
use wattwatcher.Description.L3.{initialize_l3}
use wattwatcher.Description.Root.{RootSystem, initialize_system}
use wattwatcher.Description.Initialize.{first_64, reset_power_gating_vcc, initialize}

first_64-above : {A : Type 0} (f : A → A) (old : ℕ → A) (i : ℕ) → 63 < i → first_64 f old i ≡ old i
first_64-above f old i h = ground arith

if-ap :
    {A B : Type 0} (g : A → B) (f : A → A) (b : Bool) (a : A)
    → g (f a) ≡ g a
    → g (if b then f a else a) ≡ g a
if-ap g f true a h = h
if-ap g f false a h = refl

module _ {F : Type 0} ⦃d : Double F⦄ (write_low : F → F) (s : RootSystem F) where
  -- The entries behind the first 64 of each of the six arrays are left as they were, though the arrays
  -- have 1024. The power-gating voltage of every third-level cache is left as it was, too. A write behind
  -- an array inside an entry is taken to hit the field declared next, whatever it makes of a double.
  pub initialize-untouched :
      (i : ℕ)
      → (63 < i
          → ((initialize write_low s).core i ≡ s.core i)
            × ((initialize write_low s).l1_directory i ≡ s.l1_directory i)
            × ((initialize write_low s).l2_directory i ≡ s.l2_directory i)
            × ((initialize write_low s).l2 i ≡ s.l2 i)
            × ((initialize write_low s).l3 i ≡ s.l3 i)
            × ((initialize write_low s).noc i ≡ s.noc i))
        × (((initialize write_low s).l3 i).power_gating_vcc ≡ (s.l3 i).power_gating_vcc)
  unfolding initialize initialize_system initialize_l3
  initialize-untouched i = (
    λ h. (
      first_64-above initialize_core s.core i h,
      first_64-above initialize_l1_directory s.l1_directory i h,
      first_64-above initialize_l2_directory s.l2_directory i h,
      first_64-above reset_power_gating_vcc (first_64 initialize_l2 s.l2) i h
          ∙ first_64-above initialize_l2 s.l2 i h,
      first_64-above initialize_l3 s.l3 i h,
      first_64-above (initialize_noc write_low) s.noc i h,
    ),
    if-ap (λ r. r.power_gating_vcc) initialize_l3 (leb i 63) (s.l3 i) refl,
  )
