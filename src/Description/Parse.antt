-- ===== src/Description/Parse.antt =====
-- ParseXML::parse (fast_mcpat/XML_Parse.cc): the order in which it takes the components of a document.
-- A document has fewer than 2 ^ 32 components.
use wattwatcher.Prelude.{
  ℕ, zero, suc, ◌+◌, ◌-◌, ◌%◌, Bool, true, false, ◌||◌, Option, none, some, List, [], ◌∷◌, String,
  ltb, ◌==◌, if◌then◌else◌,
}
use Prim.Native.Nat.{◌^◌}
use wattwatcher.Double.{Double}
use wattwatcher.Text.{ℤ, strstr}
use wattwatcher.Description.{Run, done, stopped, fault, ◌>>=◌, run_map, read_items}
use wattwatcher.Description.Document.{Component, Document}
use wattwatcher.Description.Root.{RootSystem, system_params, system_stats}
use wattwatcher.Description.Initialize.{initialize}
use wattwatcher.Description.Components.{
  max_num_cores, read_core, read_l1_directory, read_l2_directory, read_l2, read_l3, read_noc,
  read_mc, read_niu, read_pcie, read_flashc,
}

-- An int as an unsigned int.
abbrev pub to_unsigned : ℤ → ℕ
to_unsigned (ℤ.pos n) = n % 2 ^ 32
to_unsigned (ℤ.negsuc n) = 2 ^ 32 - 1 - n % 2 ^ 32

abbrev pub is_one : ℤ → Bool
is_one (ℤ.pos n) = n == 1
is_one (ℤ.negsuc n) = false

abbrev pub is_too_many : ℤ → Bool
is_too_many (ℤ.pos n) = ltb max_num_cores n
is_too_many (ℤ.negsuc n) = false

abbrev pub get_elem? : {A : Type 0} → List A → ℕ → Option A
get_elem? [] i = none
get_elem? (x ∷ xs) zero = some x
get_elem? (x ∷ xs) (suc i) = get_elem? xs i

-- strstr(attribute, word) != NULL
abbrev pub has_word : Option String → String → Run Bool
has_word none word = fault
has_word (some a) word = done (strstr a word)

-- A component that is not there ends the run.
abbrev pub with_component : {A : Type 0} → Option Component → (Component → Run A) → Run A
with_component none f = stopped
with_component (some c) f = f c

module _ {S : Type 0} where
  -- The loop over the components of one kind, from component w on for entry i. One that is not there
  -- and one without the word end the run.
  unfoldable pub read_group :
      (Component → Option String)
      → String
      → (ℕ → Component → S → Run S)
      → (rounds i w : ℕ) → List Component
      → S
      → Run S
  read_group attribute word read zero i w cs s = done s
  read_group attribute word read (suc n) i w cs s = with_component (get_elem? cs w) λ c.
      has_word (attribute c) word >>= λ ok.
      if ok then read i c s >>= read_group attribute word read n (i + 1) (w + 1) cs else stopped

  -- The loop over the networks: one without the word is passed over, and w stays.
  unfoldable pub read_nocs :
      (ℕ → Component → S → Run S) → (rounds i w : ℕ) → List Component → S → Run S
  read_nocs read zero i w cs s = done s
  read_nocs read (suc n) i w cs s = with_component (get_elem? cs w) λ c.
      has_word c.name "noc" >>= λ ok. elim ok [
        | true ↦ read i c s >>= read_nocs read n (i + 1) (w + 1) cs
        | false ↦ read_nocs read n (i + 1) w cs s
      ]

  -- The controllers. OrderofComponents_3layer moves on unless it is 0.
  unfoldable pub read_controller :
      String → (Component → S → Run S) → List Component → ℕ × S → Run (ℕ × S)
  read_controller word read cs (order, s) =
      let order' = if ltb 0 order then (order + 1) % 2 ^ 32 else order in
      with_component (get_elem? cs order') λ c.
        has_word c.id word >>= λ ok. if ok then run_map (λ s'. (order', s')) (read c s) else stopped

-- OrderofComponents_3layer after a kind of components.
abbrev pub next_order : (homogeneous number : ℤ) → ℕ → ℕ
next_order homogeneous number order =
    if is_one homogeneous then (order + 1) % 2 ^ 32 else (order + to_unsigned number) % 2 ^ 32

-- The rounds of a loop, an unsigned difference.
abbrev pub rounds_between : ℕ → ℕ → ℕ
rounds_between order order' = (order' + 2 ^ 32 - order) % 2 ^ 32

abbrev pub first_order : (homogeneous number : ℤ) → ℕ
first_order homogeneous number =
    if is_one homogeneous then 0 else (to_unsigned number + 2 ^ 32 - 1) % 2 ^ 32

abbrev pub exceeds : {F : Type 0} → RootSystem F → Bool
exceeds s =
    is_too_many s.number_of_cores
    || is_too_many s.number_of_l1_directories
    || is_too_many s.number_of_l2_directories
    || is_too_many s.number_of_l2s
    || is_too_many s.number_of_l3s
    || is_too_many s.number_of_nocs

module _ {F : Type 0} ⦃d : Double F⦄ where
  -- The loop over the cores, with the order after it.
  unfoldable pub read_cores : List Component → RootSystem F → Run (ℕ × RootSystem F)
  read_cores cs s =
      let order = first_order s.homogeneous_cores s.number_of_cores in
      run_map (λ s'. (order, s')) (read_group (λ c. c.name) "core" read_core (order + 1) 0 0 cs s)

  -- The loop over the components of another kind, from the order before it to the order after it.
  unfoldable pub read_kind :
      (Component → Option String)
      → String
      → (ℕ → Component → RootSystem F → Run (RootSystem F))
      → (homogeneous number : RootSystem F → ℤ) → List Component
      → ℕ × RootSystem F
      → Run (ℕ × RootSystem F)
  read_kind attribute word read homogeneous number cs (order, s) =
      let order' = next_order (homogeneous s) (number s) order in
      run_map (λ s'. (order', s'))
        (read_group attribute word read (rounds_between order order') 0 (order + 1) cs s)

  unfoldable pub read_networks : List Component → ℕ × RootSystem F → Run (ℕ × RootSystem F)
  read_networks cs (order, s) =
      let order' = next_order s.homogeneous_nocs s.number_of_nocs order in
      run_map (λ s'. (order', s'))
        (read_nocs read_noc (rounds_between order order') 0 (order + 1) cs s)

  abbrev pub kind_l1_directory : List Component → ℕ × RootSystem F → Run (ℕ × RootSystem F)
  kind_l1_directory =
      read_kind (λ c. c.id) "L1Directory" read_l1_directory (λ s. s.homogeneous_l1_directories)
        (λ s. s.number_of_l1_directories)

  abbrev pub kind_l2_directory : List Component → ℕ × RootSystem F → Run (ℕ × RootSystem F)
  kind_l2_directory =
      read_kind (λ c. c.id) "L2Directory" read_l2_directory (λ s. s.homogeneous_l2_directories)
        (λ s. s.number_of_l2_directories)

  abbrev pub kind_l2 : List Component → ℕ × RootSystem F → Run (ℕ × RootSystem F)
  kind_l2 = read_kind (λ c. c.name) "L2" read_l2 (λ s. s.homogeneous_l2s) (λ s. s.number_of_l2s)

  abbrev pub kind_l3 : List Component → ℕ × RootSystem F → Run (ℕ × RootSystem F)
  kind_l3 = read_kind (λ c. c.name) "L3" read_l3 (λ s. s.homogeneous_l3s) (λ s. s.number_of_l3s)

  -- The six loops.
  unfoldable pub read_kinds : List Component → RootSystem F → Run (ℕ × RootSystem F)
  unfolding read_cores read_kind read_networks
  read_kinds cs s =
      read_cores cs s
      >>= kind_l1_directory cs
      >>= kind_l2_directory cs
      >>= kind_l2 cs
      >>= kind_l3 cs
      >>= read_networks cs

  unfoldable pub read_controllers : List Component → ℕ × RootSystem F → Run (RootSystem F)
  read_controllers cs r =
      run_map (λ r'. r'.1)
        (read_controller "system.mc" read_mc cs r
          >>= read_controller "system.niu" read_niu cs
          >>= read_controller "system.pcie" read_pcie cs
          >>= read_controller "system.flashc" read_flashc cs)

  abbrev pub read_components : List Component → RootSystem F → Run (RootSystem F)
  read_components [] s = done s
  read_components (c ∷ cs) s = read_kinds (c ∷ cs) s >>= read_controllers (c ∷ cs)

  -- What parse does after initialize.
  unfoldable pub read_document : Document → RootSystem F → Run (RootSystem F)
  unfolding read_kinds read_controllers
  read_document doc s = read_items system_params doc.params s >>= λ s1.
      if exceeds s1
      then stopped
      else read_items system_stats doc.stats s1 >>= read_components doc.components

  unfoldable pub parse : (write_low : F → F) → Document → RootSystem F → Run (RootSystem F)
  unfolding read_document
  parse write_low doc s = read_document doc (initialize write_low s)
