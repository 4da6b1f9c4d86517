-- ===== src/Description/Btb.antt =====
-- BTB_systemcore of fast_mcpat/XML_Parse.h, and what fast_mcpat/XML_Parse.cc reads of it.
use wattwatcher.Prelude.{ℕ, List, [], ◌∷◌}
use wattwatcher.Double.{Double}
use wattwatcher.Text.{ℤ}
use wattwatcher.Description.{Entry, double, ints}

pub record BtbSystemcore (F : Type 0) : Type 0 where
  pub btb_config : ℕ → ℤ
  pub total_accesses : F
  pub read_accesses : F
  pub write_accesses : F
  pub total_hits : F
  pub total_misses : F
  pub read_hits : F
  pub write_hits : F
  pub read_misses : F
  pub write_misses : F
  pub replacements : F

module _ {F : Type 0} ⦃d : Double F⦄ where
  unfoldable pub btb_params : List (Entry F (BtbSystemcore F))
  btb_params = ints "BTB_config" (λ r. r.btb_config) (λ v r. record r { btb_config = v }) ∷ []

  unfoldable pub btb_stats : List (Entry F (BtbSystemcore F))
  btb_stats =
      double "total_accesses" (λ v r. record r { total_accesses = v })
      ∷ double "read_accesses" (λ v r. record r { read_accesses = v })
      ∷ double "write_accesses" (λ v r. record r { write_accesses = v })
      ∷ double "total_hits" (λ v r. record r { total_hits = v })
      ∷ double "total_misses" (λ v r. record r { total_misses = v })
      ∷ double "read_hits" (λ v r. record r { read_hits = v })
      ∷ double "write_hits" (λ v r. record r { write_hits = v })
      ∷ double "read_misses" (λ v r. record r { read_misses = v })
      ∷ double "write_misses" (λ v r. record r { write_misses = v })
      ∷ double "replacements" (λ v r. record r { replacements = v })
      ∷ []

  unfoldable pub initialize_btb : BtbSystemcore F → BtbSystemcore F
  initialize_btb r = record r {
    btb_config = λ j. ℤ.pos 1;
    total_accesses = d.nat 1;
    read_accesses = d.nat 1;
    write_accesses = d.nat 1;
    total_hits = d.nat 1;
    total_misses = d.nat 1;
    read_hits = d.nat 1;
    write_hits = d.nat 1;
    read_misses = d.nat 1;
    write_misses = d.nat 1;
    replacements = d.nat 1;
  }
