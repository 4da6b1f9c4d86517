-- ===== src/Description/Order.antt =====
-- The order in which ParseXML::parse (fast_mcpat/XML_Parse.cc) takes the components, against a reader
-- that takes them from the front of the list.
use wattwatcher.Prelude.{
  ℕ, zero, suc, ◌+◌, ◌<◌, Bool, true, false, Option, none, some, List, [], ◌∷◌, String,
  if◌then◌else◌, ◌≡◌, refl, ◌∙◌, sym, subst, arith, length,
}
use wattwatcher.Description.{Run, done, stopped, fault, ◌>>=◌, run_map}
use wattwatcher.Description.Document.{Component}
use wattwatcher.Description.Post.{zero-add, suc-add}
use wattwatcher.Description.Parse.{get_elem?, has_word, with_component, read_group}

abbrev pub drop : {A : Type 0} → ℕ → List A → List A
drop n [] = []
drop zero (x ∷ xs) = x ∷ xs
drop (suc n) (x ∷ xs) = drop n xs

add-one : (k : ℕ) → suc k ≡ k + 1
add-one k = omega arith

-- What stands at the front of a list.
abbrev pub Front : {A : Type 0} → Option A → List A → List A → Type 0
Front none l rest = l ≡ []
Front (some x) l rest = l ≡ x ∷ rest

drop-suc : {A : Type 0} (xs : List A) (k : ℕ) → Front (get_elem? xs k) (drop k xs) (drop (suc k) xs)
drop-suc [] k = refl
drop-suc (x ∷ []) zero = refl
drop-suc (x ∷ y ∷ ys) zero = refl
drop-suc (x ∷ xs) (suc k) = drop-suc xs k

pub drop-Front :
    {A : Type 0} (xs : List A) (k : ℕ) → Front (get_elem? xs k) (drop k xs) (drop (k + 1) xs)
drop-Front {A} xs k =
    subst (λ m. Front (get_elem? xs k) (drop k xs) (drop m xs)) (add-one k) (drop-suc xs k)

pub get_elem?-lt :
    {A : Type 0} (xs : List A) (k : ℕ) {x : A} → get_elem? xs k ≡ some x → k < length xs
get_elem?-lt [] k h = cc
get_elem?-lt (x ∷ xs) zero h = omega arith
get_elem?-lt (x ∷ xs) (suc k) h = omega (arith, get_elem?-lt xs k h)

pub bind-cong :
    {A B : Type 0} (m : Run A) (f g : A → Run B)
    → ((a : A) → m ≡ done a → f a ≡ g a)
    → (m >>= f) ≡ (m >>= g)
bind-cong (done a) f g h = h a refl
bind-cong stopped f g h = refl
bind-cong fault f g h = refl

pub bind-run_map :
    {A B C : Type 0} (m : Run A) (f : A → B) (g : B → Run C)
    → (run_map f m >>= g) ≡ (m >>= λ a. g (f a))
bind-run_map (done a) f g = refl
bind-run_map stopped f g = refl
bind-run_map fault f g = refl

pub run_map-bind :
    {A B C : Type 0} (m : Run A) (g : A → Run B) (f : B → C)
    → run_map f (m >>= g) ≡ (m >>= λ a. run_map f (g a))
run_map-bind (done a) g f = refl
run_map-bind stopped g f = refl
run_map-bind fault g f = refl

-- The components of a kind, from the front of the list, with the rest of it.
module _ {S : Type 0} where
  unfoldable pub take_group :
      (Component → Option String)
      → String
      → (ℕ → Component → S → Run S)
      → (rounds i : ℕ) → List Component
      → S
      → Run (List Component × S)
  take_group attribute word read zero i cs s = done (cs, s)
  take_group attribute word read (suc n) i [] s = stopped
  take_group attribute word read (suc n) i (c ∷ cs) s = has_word (attribute c) word >>= λ ok.
      if ok then read i c s >>= take_group attribute word read n (i + 1) cs else stopped

  -- A network without the word ends the kind, and the list goes on behind all of it.
  unfoldable pub take_nocs :
      (ℕ → Component → S → Run S) → (rounds i : ℕ) → List Component → S → Run (List Component × S)
  take_nocs read zero i cs s = done (cs, s)
  take_nocs read (suc n) i [] s = stopped
  take_nocs read (suc n) i (c ∷ cs) s = has_word c.name "noc" >>= λ ok. elim ok [
    | true ↦ read i c s >>= take_nocs read n (i + 1) cs
    | false ↦ done (drop n cs, s)
  ]

  unfoldable pub take_controller :
      String → (Component → S → Run S) → List Component × S → Run (List Component × S)
  take_controller word read ([], s) = stopped
  take_controller word read (c ∷ cs, s) =
      has_word c.id word >>= λ ok. if ok then run_map (λ s'. (cs, s')) (read c s) else stopped

module _ {S : Type 0} (attribute : Component → Option String) (word : String)
    (read : ℕ → Component → S → Run S) where
  take-Front :
      (n i k : ℕ) (o : Option Component) (l cs rest : List Component) (s : S)
      → Front o l (drop (k + 1) cs)
      → ((s : S)
          → take_group attribute word read n (i + 1) (drop (k + 1) cs) s
            ≡ run_map (λ s'. (rest, s')) (read_group attribute word read n (i + 1) (k + 1) cs s))
      → take_group attribute word read (suc n) i l s
        ≡ run_map
            (λ s'. (rest, s'))
            (with_component o λ c. has_word (attribute c) word >>= λ ok.
              if ok
              then read i c s >>= read_group attribute word read n (i + 1) (k + 1) cs
              else stopped)
  unfolding take_group
  take-Front n i k none l cs rest s e ih = rw e refl
  take-Front n i k (some c) l cs rest s e ih = rw e (
      bind-cong (has_word (attribute c) word) _ _ (λ ok _. word_found ok)
      ∙ sym (run_map-bind (has_word (attribute c) word) _ _))
    where
      word_found :
          (ok : Bool)
          → (if ok
              then read i c s >>= take_group attribute word read n (i + 1) (drop (k + 1) cs)
              else stopped)
            ≡ run_map
                (λ s'. (rest, s'))
                (if ok
                  then read i c s >>= read_group attribute word read n (i + 1) (k + 1) cs
                  else stopped)
      word_found true =
          bind-cong (read i c s) _ _ (λ s' _. ih s') ∙ sym (run_map-bind (read i c s) _ _)
      word_found false = refl

  pub take_group_lem :
      (n i k : ℕ) (cs : List Component) (s : S)
      → take_group attribute word read n i (drop k cs) s
        ≡ run_map (λ s'. (drop (n + k) cs, s')) (read_group attribute word read n i k cs s)
  unfolding take_group read_group
  take_group_lem zero i k cs s = rw (zero-add k) refl
  take_group_lem (suc n) i k cs s = rw (suc-add n k) (
      take-Front n i k (get_elem? cs k) (drop k cs) cs (drop (n + (k + 1)) cs) s (drop-Front cs k)
        (λ s'. take_group_lem n (i + 1) (k + 1) cs s'))
