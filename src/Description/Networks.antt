-- ===== src/Description/Networks.antt =====
-- The loop of ParseXML::parse (fast_mcpat/XML_Parse.cc) over the networks, which passes over one that
-- has another name.
use wattwatcher.Prelude.{
  ℕ, zero, suc, ◌+◌, Bool, true, false, Option, none, some, List, [], ◌∷◌, ◌≡◌, refl, ◌∙◌, sym,
  arith,
}
use wattwatcher.Description.{Run, done, ◌>>=◌, run_map}
use wattwatcher.Description.Document.{Component}
use wattwatcher.Description.Parse.{get_elem?, has_word, with_component, read_nocs}
use wattwatcher.Description.Post.{zero-add, suc-add}
use wattwatcher.Description.Order.{drop, Front, drop-Front, run_map-bind, bind-cong, take_nocs}

add-zero : (n : ℕ) → n + 0 ≡ n
add-zero n = omega arith

add-suc : (n k : ℕ) → n + suc k ≡ suc (n + k)
add-suc n k = omega arith

drop-drop : {A : Type 0} (n k : ℕ) (xs : List A) → drop n (drop k xs) ≡ drop (n + k) xs
drop-drop n k [] = refl
drop-drop n zero (x ∷ xs) = rw (add-zero n) refl
drop-drop n (suc k) (x ∷ xs) = rw (add-suc n k) (drop-drop n k xs)

module _ {S : Type 0} (read : ℕ → Component → S → Run S) where
  -- A network without the word stands still.
  pub read_nocs-misnamed :
      (n i k : ℕ) (cs : List Component) (s : S) {c : Component}
      → get_elem? cs k ≡ some c
      → has_word c.name "noc" ≡ done false
      → read_nocs read n i k cs s ≡ done s
  unfolding read_nocs
  read_nocs-misnamed zero i k cs s e h = refl
  read_nocs-misnamed (suc n) i k cs s e h = rw (e, h) (read_nocs-misnamed n (i + 1) k cs s e h)

  take_noc-Front :
      (n i k : ℕ) (o : Option Component) (l cs : List Component) (s : S)
      → get_elem? cs k ≡ o
      → Front o l (drop (k + 1) cs)
      → ((s : S)
          → take_nocs read n (i + 1) (drop (k + 1) cs) s
            ≡ run_map (λ s'. (drop (n + (k + 1)) cs, s')) (read_nocs read n (i + 1) (k + 1) cs s))
      → take_nocs read (suc n) i l s
        ≡ run_map
            (λ s'. (drop (n + (k + 1)) cs, s'))
            (with_component o λ c. has_word c.name "noc" >>= λ ok. elim ok [
              | true ↦ read i c s >>= read_nocs read n (i + 1) (k + 1) cs
              | false ↦ read_nocs read n (i + 1) k cs s
            ])
  unfolding take_nocs
  take_noc-Front n i k none l cs s e f ih = rw f refl
  take_noc-Front n i k (some c) l cs s e f ih = rw f (
      bind-cong (has_word c.name "noc") _ _ (λ ok h. word_found ok h)
      ∙ sym (run_map-bind (has_word c.name "noc") _ _))
    where
      word_found :
          (ok : Bool)
          → has_word c.name "noc" ≡ done ok
          → elim ok [
            | true ↦ read i c s >>= take_nocs read n (i + 1) (drop (k + 1) cs)
            | false ↦ done (drop n (drop (k + 1) cs), s)
          ]
            ≡ run_map {B = List Component × S}
                (λ s'. (drop (n + (k + 1)) cs, s'))
                (elim ok [
                  | true ↦ read i c s >>= read_nocs read n (i + 1) (k + 1) cs
                  | false ↦ read_nocs read n (i + 1) k cs s
                ])
      word_found true h =
          bind-cong (read i c s) _ _ (λ s' _. ih s') ∙ sym (run_map-bind (read i c s) _ _)
      word_found false h = rw (read_nocs-misnamed n (i + 1) k cs s e h, drop-drop n (k + 1) cs) refl

  pub take_nocs_lem :
      (n i k : ℕ) (cs : List Component) (s : S)
      → take_nocs read n i (drop k cs) s
        ≡ run_map (λ s'. (drop (n + k) cs, s')) (read_nocs read n i k cs s)
  unfolding take_nocs read_nocs
  take_nocs_lem zero i k cs s = rw (zero-add k) refl
  take_nocs_lem (suc n) i k cs s = rw (suc-add n k) (
      take_noc-Front n i k (get_elem? cs k) (drop k cs) cs s refl (drop-Front cs k)
        (λ s'. take_nocs_lem n (i + 1) (k + 1) cs s'))
