-- ===== src/Description/Itlb.antt =====
-- itlb_systemcore of fast_mcpat/XML_Parse.h, and what fast_mcpat/XML_Parse.cc reads of it.
use wattwatcher.Prelude.{List, [], ◌∷◌}
use wattwatcher.Double.{Double}
use wattwatcher.Text.{ℤ}
use wattwatcher.Description.{Entry, int, double}

pub record ItlbSystemcore (F : Type 0) : Type 0 where
  pub number_entries : ℤ
  pub cache_policy : ℤ
  pub total_hits : F
  pub total_accesses : F
  pub total_misses : F
  pub conflicts : F

module _ {F : Type 0} ⦃d : Double F⦄ where
  unfoldable pub itlb_params : List (Entry F (ItlbSystemcore F))
  itlb_params = int "number_entries" (λ v r. record r { number_entries = v }) ∷ []

  unfoldable pub itlb_stats : List (Entry F (ItlbSystemcore F))
  itlb_stats =
      double "total_hits" (λ v r. record r { total_hits = v })
      ∷ double "total_accesses" (λ v r. record r { total_accesses = v })
      ∷ double "total_misses" (λ v r. record r { total_misses = v })
      ∷ double "conflicts" (λ v r. record r { conflicts = v })
      ∷ []

  unfoldable pub initialize_itlb : ItlbSystemcore F → ItlbSystemcore F
  initialize_itlb r = record r {
    number_entries = ℤ.pos 1;
    total_hits = d.nat 1;
    total_accesses = d.nat 1;
    total_misses = d.nat 1;
  }
