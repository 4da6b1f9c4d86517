-- ===== src/Description/Dtlb.antt =====
-- dtlb_systemcore of fast_mcpat/XML_Parse.h, and what fast_mcpat/XML_Parse.cc reads of it.
use wattwatcher.Prelude.{List, [], ◌∷◌}
use wattwatcher.Double.{Double}
use wattwatcher.Text.{ℤ}
use wattwatcher.Description.{Entry, int, double}

pub record DtlbSystemcore (F : Type 0) : Type 0 where
  pub number_entries : ℤ
  pub cache_policy : ℤ
  pub total_accesses : F
  pub read_accesses : F
  pub write_accesses : F
  pub write_hits : F
  pub read_hits : F
  pub read_misses : F
  pub write_misses : F
  pub total_hits : F
  pub total_misses : F
  pub conflicts : F

module _ {F : Type 0} ⦃d : Double F⦄ where
  unfoldable pub dtlb_params : List (Entry F (DtlbSystemcore F))
  dtlb_params = int "number_entries" (λ v r. record r { number_entries = v }) ∷ []

  unfoldable pub dtlb_stats : List (Entry F (DtlbSystemcore F))
  dtlb_stats =
      double "total_accesses" (λ v r. record r { total_accesses = v })
      ∷ double "read_accesses" (λ v r. record r { read_accesses = v })
      ∷ double "write_accesses" (λ v r. record r { write_accesses = v })
      ∷ double "read_hits" (λ v r. record r { read_hits = v })
      ∷ double "write_hits" (λ v r. record r { write_hits = v })
      ∷ double "read_misses" (λ v r. record r { read_misses = v })
      ∷ double "write_misses" (λ v r. record r { write_misses = v })
      ∷ double "total_hits" (λ v r. record r { total_hits = v })
      ∷ double "total_misses" (λ v r. record r { total_misses = v })
      ∷ double "conflicts" (λ v r. record r { conflicts = v })
      ∷ []

  unfoldable pub initialize_dtlb : DtlbSystemcore F → DtlbSystemcore F
  initialize_dtlb r = record r {
    number_entries = ℤ.pos 1;
    total_accesses = d.nat 1;
    read_accesses = d.nat 1;
    write_accesses = d.nat 1;
    write_hits = d.nat 1;
    read_hits = d.nat 1;
    read_misses = d.nat 1;
    write_misses = d.nat 1;
    total_hits = d.nat 1;
    total_misses = d.nat 1;
  }
