-- ===== src/Description/Lists.antt =====
-- The comma lists that ParseXML::parse (fast_mcpat/XML_Parse.cc) cuts into an array.
use wattwatcher.Prelude.{
  ℕ, Bool, true, false, not, ◌&&◌, List, [], ◌∷◌, ◌++◌, ◌==◌, ◌≡◌, refl, sym, ap, ◌∙◌, arith,
}
use wattwatcher.Description.{cut}

-- A list as a description writes it.
abbrev pub join : List ℕ → List (List ℕ) → List ℕ
join p [] = p
join p (q ∷ qs) = p ++ b',' ∷ join q qs

abbrev pub no_comma : List ℕ → Bool
no_comma [] = true
no_comma (c ∷ cs) = not (c == b',') && no_comma cs

abbrev pub no_commas : List (List ℕ) → Bool
no_commas [] = true
no_commas (p ∷ ps) = no_comma p && no_commas ps

append-nil : (xs : List ℕ) → xs ++ [] ≡ xs
append-nil [] = refl
append-nil (x ∷ xs) = ap (λ l. x ∷ l) (append-nil xs)

append_assoc : (xs ys zs : List ℕ) → (xs ++ ys) ++ zs ≡ xs ++ (ys ++ zs)
append_assoc [] ys zs = refl
append_assoc (x ∷ xs) ys zs = ap (λ l. x ∷ l) (append_assoc xs ys zs)

&&-both : (a b : Bool) → (a && b) ≡ true → (a ≡ true) × (b ≡ true)
&&-both a b h = ground arith

not-true : (a : Bool) → not a ≡ true → a ≡ false
not-true a h = ground arith

-- The codes before a comma are put behind the part.
cut-part :
    (part cs rest : List ℕ) → no_comma cs ≡ true → cut part (cs ++ rest) ≡ cut (part ++ cs) rest
unfolding cut
cut-part part [] rest h = rw (append-nil part) refl
cut-part part (c ∷ cs) rest h =
    let (h1, h2) = &&-both (not (c == b',')) _ h in
    rw (cut, not-true _ h1)
      (cut-part (part ++ c ∷ []) cs rest h2 ∙ ap (λ l. cut l rest) (append_assoc part (c ∷ []) cs))

cut-nil : (part : List ℕ) → cut part [] ≡ part ∷ []
unfolding cut
cut-nil part = refl

cut-comma : (part rest : List ℕ) → cut part (b',' ∷ rest) ≡ part ∷ cut [] rest
unfolding cut
cut-comma part rest = refl

-- The loop that cuts a list finds the parts again that stand between the commas of a text, whether they
-- are empty or not, as long as no part has a comma in it.
pub cut-join :
    (p : List ℕ) (ps : List (List ℕ)) → no_commas (p ∷ ps) ≡ true → cut [] (join p ps) ≡ p ∷ ps
cut-join p [] h =
    let (h1, h2) = &&-both (no_comma p) _ h in
    ap (λ l. cut [] l) (sym (append-nil p)) ∙ cut-part [] p [] h1 ∙ cut-nil p
cut-join p (q ∷ qs) h =
    let (h1, h2) = &&-both (no_comma p) _ h in
    cut-part [] p (b',' ∷ join q qs) h1
    ∙ cut-comma p (join q qs)
    ∙ ap (λ l. p ∷ l) (cut-join q qs h2)
