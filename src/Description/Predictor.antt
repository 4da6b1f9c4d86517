-- ===== src/Description/Predictor.antt =====
-- predictor_systemcore of fast_mcpat/XML_Parse.h, and what fast_mcpat/XML_Parse.cc reads of a PBT.
use wattwatcher.Prelude.{ℕ, List, [], ◌∷◌, String}
use wattwatcher.Double.{Double}
use wattwatcher.Text.{ℤ}
use wattwatcher.Description.{Entry, int, double, text, ints}

pub record PredictorSystemcore (F : Type 0) : Type 0 where
  pub prediction_width : ℤ
  pub prediction_scheme : String
  pub predictor_size : ℤ
  pub predictor_entries : ℤ
  pub local_predictor_size : ℕ → ℤ
  pub local_predictor_entries : ℤ
  pub global_predictor_entries : ℤ
  pub global_predictor_bits : ℤ
  pub chooser_predictor_entries : ℤ
  pub chooser_predictor_bits : ℤ
  pub predictor_accesses : F

module _ {F : Type 0} ⦃d : Double F⦄ where
  unfoldable pub predictor_params : List (Entry F (PredictorSystemcore F))
  predictor_params =
      int "prediction_width" (λ v r. record r { prediction_width = v })
      ∷ text "prediction_scheme" (λ v r. record r { prediction_scheme = v })
      ∷ int "predictor_size" (λ v r. record r { predictor_size = v })
      ∷ int "predictor_entries" (λ v r. record r { predictor_entries = v })
      ∷ ints "local_predictor_size" (λ r. r.local_predictor_size)
          (λ v r. record r { local_predictor_size = v })
      ∷ int "local_predictor_entries" (λ v r. record r { local_predictor_entries = v })
      ∷ int "global_predictor_entries" (λ v r. record r { global_predictor_entries = v })
      ∷ int "global_predictor_bits" (λ v r. record r { global_predictor_bits = v })
      ∷ int "chooser_predictor_entries" (λ v r. record r { chooser_predictor_entries = v })
      ∷ int "chooser_predictor_bits" (λ v r. record r { chooser_predictor_bits = v })
      ∷ []

  unfoldable pub predictor_stats : List (Entry F (PredictorSystemcore F))
  predictor_stats = double "predictor_accesses" (λ v r. record r { predictor_accesses = v }) ∷ []

  unfoldable pub initialize_predictor : PredictorSystemcore F → PredictorSystemcore F
  initialize_predictor r = record r {
    prediction_width = ℤ.pos 1;
    prediction_scheme = "default";
    predictor_size = ℤ.pos 1;
    predictor_entries = ℤ.pos 1;
    local_predictor_entries = ℤ.pos 1;
    local_predictor_size = λ j. ℤ.pos 1;
    global_predictor_entries = ℤ.pos 1;
    global_predictor_bits = ℤ.pos 1;
    chooser_predictor_entries = ℤ.pos 1;
    chooser_predictor_bits = ℤ.pos 1;
    predictor_accesses = d.nat 1;
  }
