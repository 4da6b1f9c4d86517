-- ===== src/Description.antt =====
-- How ParseXML::parse (fast_mcpat/XML_Parse.cc) reads the params and the stats of a component: one
-- loop over the items, whose body compares the name of an item with one name after the other. A loop
-- is a table of entries here. The XML itself is read by a library.
pub mod Predictor
pub mod Itlb
pub mod Icache
pub mod Dtlb
pub mod Dcache
pub mod Btb
pub mod Core
pub mod CoreDefaults
pub mod CoreParams
pub mod CoreStats
pub mod L1Directory
pub mod L2Directory
pub mod L2
pub mod L3
pub mod Noc
pub mod Controllers
pub mod ControllerEntries
pub mod Root
pub mod Document
pub mod Initialize
pub mod Components
pub mod Parse
pub mod IntNames
pub mod Items
pub mod Safety
pub mod Ranges
pub mod Loops
pub mod Taking
pub mod Unchanged
pub mod OrderRange
pub mod Follow
pub mod KindsFollow
pub mod Refinement
pub mod SingleCore
pub mod Defaults
pub mod Lists
pub mod Goes
pub mod Complete
pub mod Served
pub mod ServedKinds
pub mod Finish
pub mod ZeroParts
pub mod ZeroCore
pub mod ZeroCaches
pub mod Zero
pub mod Samples
mod Tests
pub mod Sound
pub mod Fit
pub mod Counts
pub mod Post
pub mod Order
pub mod Networks
pub mod Fields
use wattwatcher.Prelude.{
  ℕ, ◌+◌, Bool, true, false, not, ◌&&◌, Option, none, some, List, [], ◌∷◌, ◌++◌, String, str_eq,
  ltb, leb, ◌==◌, if◌then◌else◌, length,
}
use wattwatcher.Double.{Double}
use wattwatcher.Text.{ℤ, is_int, codes, atoi_codes, atof_codes, nonzero}

-- The result of a run: a value; an exit with a message; or what C++ does not define, a null pointer
-- for a text or a value that does not fit its array.
pub data Run (A : Type 0) : Type 0 where
  done : A → Run A
  stopped : Run A
  fault : Run A

infixl 5 ◌>>=◌
abbrev pub ◌>>=◌ : {A B : Type 0} → Run A → (A → Run B) → Run B
done a >>= f = f a
stopped >>= f = stopped
fault >>= f = fault

abbrev pub run_map : {A B : Type 0} → (A → B) → Run A → Run B
run_map f m = m >>= λ a. done (f a)

-- A param or stat with its attributes name and value, which may be missing.
pub record Item : Type 0 where
  pub name : Option String
  pub value : Option String

-- One comparison with a name, and the assignment that it guards: of atoi, (bool)atoi, atof, of the
-- text itself, or of the parts of a list, which are assigned one after the other to an array.
pub data Entry (F T : Type 0) : Type 0 where
  int : String → (ℤ → T → T) → Entry F T
  bool : String → (Bool → T → T) → Entry F T
  double : String → (F → T → T) → Entry F T
  text : String → (String → T → T) → Entry F T
  ints : String → (T → ℕ → ℤ) → ((ℕ → ℤ) → T → T) → Entry F T
  doubles : String → (T → ℕ → F) → ((ℕ → F) → T → T) → Entry F T

abbrev pub key : {F T : Type 0} → Entry F T → String
key (int k upd) = k
key (bool k upd) = k
key (double k upd) = k
key (text k upd) = k
key (ints k get upd) = k
key (doubles k get upd) = k

-- n == 0 ? 0 : 1
abbrev pub flag : ℤ → ℤ
flag n = if nonzero n then ℤ.pos 1 else ℤ.pos 0

-- The conversion of an int to a double.
abbrev pub of_int : {F : Type 0} ⦃d : Double F⦄ → ℤ → F
of_int ⦃d⦄ (ℤ.pos n) = d.nat n
of_int ⦃d⦄ (ℤ.negsuc n) = d.neg (d.nat (n + 1))

-- The loop that cuts a list at its commas; `part` is the char chtmp1[60].
pub cut : (part : List ℕ) → List ℕ → List (List ℕ)
cut part [] = part ∷ []
cut part (c ∷ cs) = elim (c == b',') [ true ↦ part ∷ cut [] cs | false ↦ cut (part ++ c ∷ []) cs ]

-- Every part fits chtmp1 with its end, and there are at most 20, the length of each array.
abbrev all_short : List (List ℕ) → Bool
all_short [] = true
all_short (p ∷ ps) = ltb (length p) 60 && all_short ps

pub fits : List (List ℕ) → Bool
fits ps = all_short ps && leb (length ps) 20

-- The array with the values from its start on.
pub overwrite : {A : Type 0} → ℕ → List A → (ℕ → A) → ℕ → A
overwrite m [] old = old
overwrite m (v ∷ vs) old = overwrite (m + 1) vs (λ j. if j == m then v else old j)

abbrev pub map : {A B : Type 0} → (A → B) → List A → List B
map f [] = []
map f (x ∷ xs) = f x ∷ map f xs

-- A single number that atoi reads.
abbrev pub int_fits : String → Bool
int_fits v = is_int (atoi_codes (codes v))

abbrev pub all_int : List (List ℕ) → Bool
all_int [] = true
all_int (p ∷ ps) = is_int (atoi_codes p) && all_int ps

-- strcpy into an array of 20 chars.
abbrev pub text_fits : String → Bool
text_fits v = ltb (length (codes v)) 20

abbrev pub find : {F T : Type 0} → String → List (Entry F T) → Option (Entry F T)
find n [] = none
find n (e ∷ es) = let rest = find n es in if str_eq n (key e) then some e else rest

module _ {F T : Type 0} ⦃d : Double F⦄ where
  unfoldable pub assign : Entry F T → String → T → Run T
  unfolding cut fits overwrite
  assign (int k upd) v r = if int_fits v then done (upd (atoi_codes (codes v)) r) else fault
  assign (bool k upd) v r =
      if int_fits v then done (upd (nonzero (atoi_codes (codes v))) r) else fault
  assign (double k upd) v r = done (upd (atof_codes (codes v)) r)
  assign (text k upd) v r = if text_fits v then done (upd v r) else fault
  assign (ints k get upd) v r =
      let parts = cut [] (codes v) in
      if fits parts && all_int parts
      then done (upd (overwrite 0 (map atoi_codes parts) (get r)) r)
      else fault
  assign (doubles k get upd) v r =
      let parts = cut [] (codes v) in
      if fits parts then done (upd (overwrite 0 (map atof_codes parts) (get r)) r) else fault

  abbrev pub assign_value : Entry F T → Option String → T → Run T
  assign_value e none r = fault
  assign_value e (some v) r = assign e v r

  abbrev pub assign_found : Option (Entry F T) → Option String → T → Run T
  assign_found none value r = done r
  assign_found (some e) value r = assign_value e value r

  abbrev pub read_named : List (Entry F T) → (name value : Option String) → T → Run T
  read_named table none value r = fault
  read_named table (some n) value r = assign_found (find n table) value r

  -- The body of a loop.
  abbrev pub read_item : List (Entry F T) → Item → T → Run T
  read_item table it r = read_named table it.name it.value r

  unfoldable pub read_items : List (Entry F T) → List Item → T → Run T
  unfolding assign
  read_items table [] r = done r
  read_items table (it ∷ its) r = read_item table it r >>= read_items table its
