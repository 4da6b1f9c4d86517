-- ===== src/Description/Complete.antt =====
-- The documents whose components are those that ParseXML::parse (fast_mcpat/XML_Parse.cc) looks for.
use wattwatcher.Prelude.{
  ℕ, zero, suc, Bool, true, false, ◌&&◌, Option, none, some, List, [], ◌∷◌, String,
}
use wattwatcher.Text.{ℤ, strstr}
use wattwatcher.Description.Document.{Component}
use wattwatcher.Description.Counts.{Counts}
use wattwatcher.Description.Order.{drop}
use wattwatcher.Description.Taking.{taken}

-- So many components, whose id or name has a word in it.
pub record Demand : Type 0 where
  pub number : ℕ
  pub attribute : Component → Option String
  pub word : String

abbrev pub has : Option String → String → Bool
has none word = false
has (some a) word = strstr a word

abbrev pub named : (Component → Option String) → String → ℕ → List Component → Bool
named attribute word zero cs = true
named attribute word (suc n) [] = false
named attribute word (suc n) (c ∷ cs) = has (attribute c) word && named attribute word n cs

abbrev pub complete : List Demand → List Component → Bool
complete [] cs = true
complete (e ∷ es) cs = named e.attribute e.word e.number cs && complete es (drop e.number cs)

abbrev pub kind : ℤ × ℤ → (Component → Option String) → String → Demand
kind c attribute word = record { number = taken (c.0) (c.1); attribute = attribute; word = word }

abbrev pub controller : String → Demand
controller word = record { number = 1; attribute = λ c. c.id; word = word }

abbrev pub controllers : List Demand
controllers =
    controller "system.mc"
    ∷ controller "system.niu"
    ∷ controller "system.pcie"
    ∷ controller "system.flashc"
    ∷ []

abbrev pub demands : Counts → List Demand
demands c =
    kind c.cores (λ c. c.name) "core"
    ∷ kind c.l1_directories (λ c. c.id) "L1Directory"
    ∷ kind c.l2_directories (λ c. c.id) "L2Directory"
    ∷ kind c.l2s (λ c. c.name) "L2"
    ∷ kind c.l3s (λ c. c.name) "L3"
    ∷ kind c.nocs (λ c. c.name) "noc"
    ∷ controllers
