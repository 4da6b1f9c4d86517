-- ===== src/Description/Items.antt =====
-- The loops over the params and the stats of a component (fast_mcpat/XML_Parse.cc): what a field holds
-- after one of them.
use text.Mathlib.TextEquality.{eq_iff}
use wattwatcher.Prelude.{
  ℕ, Bool, true, false, Option, none, some, List, [], ◌∷◌, String, str_eq, if◌then◌else◌, ◌≡◌, ◌≢◌,
  refl, ◌∙◌, sym, ap, ◌⊎◌, inl, inr, Bool-cases, subst, All,
}
use wattwatcher.Double.{Double}
use wattwatcher.Text.{ℤ, codes, atoi, atoi_codes, atof_codes}
use wattwatcher.Description.{
  Run, done, stopped, fault, ◌>>=◌, Item, Entry, key, find, assign, assign_value, assign_found,
  read_named, read_item, read_items, text_fits, int_fits,
}

-- The value of the last item of a name, or else the one at hand.
abbrev pub step_value : String → (name value at_hand : Option String) → Option String
step_value k none value at_hand = at_hand
step_value k (some n) value at_hand = if str_eq n k then value else at_hand

abbrev pub last_value : String → List Item → Option String → Option String
last_value k [] at_hand = at_hand
last_value k (it ∷ its) at_hand = last_value k its (step_value k it.name it.value at_hand)

some-injective : {A : Type 0} (a b : A) → Option.some a ≡ some b → a ≡ b
some-injective a b h = cc

false-ne-true : false ≢ true
false-ne-true h = cc

none-ne-some : {A : Type 0} {a : A} → Option.none ≢ some a
none-ne-some h = cc

>>=-eq-done :
    {A B : Type 0} (m : Run A) (f : A → Run B) {b : B}
    → (m >>= f) ≡ done b
    → (a : A) × (m ≡ done a) × (f a ≡ done b)
>>=-eq-done (done a) f h = (a, refl, h)
>>=-eq-done stopped f h = cc
>>=-eq-done fault f h = cc

pub done-injective : {A : Type 0} {a b : A} → Run.done a ≡ done b → a ≡ b
done-injective h = cc

guarded-done : {A : Type 0} (b : Bool) {x y : A} → (if b then done x else fault) ≡ done y → x ≡ y
guarded-done true h = done-injective h
guarded-done false h = cc

pub find-All :
    {F T : Type 0} (P : Entry F T → Type 0) (n : String) (table : List (Entry F T)) (e' : Entry F T)
    → All P table
    → find n table ≡ some e'
    → P e' × (str_eq n (key e') ≡ true)
find-All P n [] e' ps h = cc
find-All P n (e ∷ es) e' (p, ps) h = elim (Bool-cases (str_eq n (key e))) [
  | inl same ↦
      subst (λ x. P x × (str_eq n (key x) ≡ true)) (some-injective e e' (rw same at h)) (p, same)
  | inr other ↦ find-All P n es e' ps (rw other at h)
]

-- What a field holds for the value at hand.
abbrev pub held : {V : Type 0} → (String → V) → V → Option String → V
held conv old none = old
held conv old (some v) = conv v

module _ {F T : Type 0} ⦃d : Double F⦄ {V : Type 0} (get : T → V) where
  -- The assignment of an entry does not touch the field.
  abbrev pub Leaves : Entry F T → Type 0
  Leaves (Entry.int k upd) = (v : ℤ) (r : T) → get (upd v r) ≡ get r
  Leaves (Entry.bool k upd) = (v : Bool) (r : T) → get (upd v r) ≡ get r
  Leaves (Entry.double k upd) = (v : F) (r : T) → get (upd v r) ≡ get r
  Leaves (Entry.text k upd) = (v : String) (r : T) → get (upd v r) ≡ get r
  Leaves (Entry.ints k g upd) = (v : ℕ → ℤ) (r : T) → get (upd v r) ≡ get r
  Leaves (Entry.doubles k g upd) = (v : ℕ → F) (r : T) → get (upd v r) ≡ get r

  Leaves-assign :
      (e : Entry F T) → Leaves e → (v : String) (r r' : T) → assign e v r ≡ done r' → get r' ≡ get r
  unfolding assign
  Leaves-assign (Entry.int k upd) l v r r' h = sym (ap get (guarded-done (int_fits v) h)) ∙ l _ r
  Leaves-assign (Entry.bool k upd) l v r r' h = sym (ap get (guarded-done (int_fits v) h)) ∙ l _ r
  Leaves-assign (Entry.double k upd) l v r r' h = sym (ap get (done-injective h)) ∙ l _ r
  Leaves-assign (Entry.text k upd) l v r r' h = sym (ap get (guarded-done (text_fits v) h)) ∙ l _ r
  Leaves-assign (Entry.ints k g upd) l v r r' h = sym (ap get (guarded-done _ h)) ∙ l _ r
  Leaves-assign (Entry.doubles k g upd) l v r r' h = sym (ap get (guarded-done _ h)) ∙ l _ r

  module _ (k : String) (conv : String → V) (e : Entry F T) (table : List (Entry F T))
      (found : find k table ≡ some e)
      (sets : (v : String) (r r' : T) → assign e v r ≡ done r' → get r' ≡ conv v)
      (leaves : All (λ e'. (str_eq (key e') k ≡ true) ⊎ Leaves e') table) where
    matched :
        (o : Option String) (r r' : T) (old : V)
        → assign_value e o r ≡ done r'
        → get r' ≡ held conv old o
    matched none r r' old h = cc
    matched (some v) r r' old h = sets v r r' h

    unmatched :
        (e' : Entry F T) (o : Option String) (r r' : T)
        → Leaves e'
        → assign_value e' o r ≡ done r'
        → get r' ≡ get r
    unmatched e' none r r' l h = cc
    unmatched e' (some v) r r' l h = Leaves-assign e' l v r r' h

    other-key :
        (n : String) (e' : Entry F T) → find n table ≡ some e' → str_eq n k ≡ false → Leaves e'
    other-key n e' f other =
        let (p, q) = find-All (λ e'. (str_eq (key e') k ≡ true) ⊎ Leaves e') n table e' leaves f in
        elim p [
          | inl same ↦ absurd (
              false-ne-true
                (sym other ∙ (eq_iff n k).1 ((eq_iff n (key e')).0 q ∙ (eq_iff (key e') k).0 same)))
          | inr l ↦ l
        ]

    value-found :
        (o : Option String) (n : String) (e' : Entry F T) (r r' : T) (old : V)
        (at_hand : Option String)
        → find n table ≡ some e'
        → assign_value e' o r ≡ done r'
        → get r ≡ held conv old at_hand
        → get r' ≡ held conv old (if str_eq n k then o else at_hand)
    value-found o n e' r r' old at_hand f h g = elim (Bool-cases (str_eq n k)) [
      | inl same ↦ rw same (
          matched o r r' old (
            subst (λ x. assign_value x o r ≡ done r')
              (some-injective e' e (sym f ∙ ap (λ x. find x table) ((eq_iff n k).0 same) ∙ found))
              h))
      | inr other ↦ rw other (unmatched e' o r r' (other-key n e' f other) h ∙ g)
    ]

    value-lost :
        (o : Option String) (n : String) (r : T) (old : V) (at_hand : Option String)
        → find n table ≡ none
        → get r ≡ held conv old at_hand
        → get r ≡ held conv old (if str_eq n k then o else at_hand)
    value-lost o n r old at_hand f g = elim (Bool-cases (str_eq n k)) [
      | inl same ↦
          absurd (none-ne-some (sym f ∙ ap (λ x. find x table) ((eq_iff n k).0 same) ∙ found))
      | inr other ↦ rw other g
    ]

    found-value :
        (m : Option (Entry F T)) (n : String) (o : Option String) (r r' : T) (old : V)
        (at_hand : Option String)
        → find n table ≡ m
        → assign_found m o r ≡ done r'
        → get r ≡ held conv old at_hand
        → get r' ≡ held conv old (if str_eq n k then o else at_hand)
    found-value none n o r r' old at_hand f h g =
        sym (ap get (done-injective h)) ∙ value-lost o n r old at_hand f g
    found-value (some e') n o r r' old at_hand f h g = value-found o n e' r r' old at_hand f h g

    named-value :
        (name o : Option String) (r r' : T) (old : V) (at_hand : Option String)
        → read_named table name o r ≡ done r'
        → get r ≡ held conv old at_hand
        → get r' ≡ held conv old (step_value k name o at_hand)
    named-value none o r r' old at_hand h g = cc
    named-value (some n) o r r' old at_hand h g =
        found-value (find n table) n o r r' old at_hand refl h g

    items-value :
        (its : List Item) (r r' : T) (old : V) (at_hand : Option String)
        → read_items table its r ≡ done r'
        → get r ≡ held conv old at_hand
        → get r' ≡ held conv old (last_value k its at_hand)
    unfolding read_items
    items-value [] r r' old at_hand h g = sym (ap get (done-injective h)) ∙ g
    items-value (it ∷ its) r r' old at_hand h g =
        let (r1, h1, h2) = >>=-eq-done (read_item table it r) (read_items table its) h in
        items-value its r1 r' old (step_value k it.name it.value at_hand) h2
          (named-value it.name it.value r r1 old at_hand h1 g)

    -- After the loop, if it ends, the field holds what the last item of its name says, or what it held
    -- before if there is no such item.
    pub read_items-value :
        (its : List Item) (r r' : T)
        → read_items table its r ≡ done r'
        → get r' ≡ held conv (get r) (last_value k its none)
    read_items-value its r r' h = items-value its r r' (get r) none h refl

module _ {F T : Type 0} ⦃d : Double F⦄ (k : String) (table : List (Entry F T)) where
  pub double-value :
      (get : T → F) (upd : F → T → T)
      → find k table ≡ some (Entry.double k upd)
      → ((v : F) (r : T) → get (upd v r) ≡ v)
      → All (λ e. (str_eq (key e) k ≡ true) ⊎ Leaves get e) table
      → (its : List Item) (r r' : T) → read_items table its r ≡ done r'
      → get r' ≡ held (λ v. atof_codes (codes v)) (get r) (last_value k its none)
  unfolding assign
  double-value get upd found same leaves =
      read_items-value get k (λ v. atof_codes (codes v)) (Entry.double k upd) table found
        (λ v r r' h. sym (ap get (done-injective h)) ∙ same (atof_codes (codes v)) r) leaves

  pub int-value :
      (get : T → ℤ) (upd : ℤ → T → T)
      → find k table ≡ some (Entry.int k upd)
      → ((v : ℤ) (r : T) → get (upd v r) ≡ v)
      → All (λ e. (str_eq (key e) k ≡ true) ⊎ Leaves get e) table
      → (its : List Item) (r r' : T) → read_items table its r ≡ done r'
      → get r' ≡ held atoi (get r) (last_value k its none)
  unfolding assign atoi
  int-value get upd found same leaves =
      read_items-value get k atoi (Entry.int k upd) table found
        (λ v r r' h. sym (ap get (guarded-done (int_fits v) h)) ∙ same (atoi_codes (codes v)) r)
        leaves

module _ {F T : Type 0} ⦃d : Double F⦄ {V : Type 0} (get : T → V) (table : List (Entry F T))
    (leaves : All (Leaves get) table) where
  found-Leaves :
      (m : Option (Entry F T)) (n : String) (o : Option String) (r r' : T)
      → find n table ≡ m
      → assign_found m o r ≡ done r'
      → get r' ≡ get r
  found-Leaves none n o r r' f h = sym (ap get (done-injective h))
  found-Leaves (some e) n none r r' f h = cc
  found-Leaves (some e) n (some v) r r' f h =
      Leaves-assign get e (find-All (Leaves get) n table e leaves f).0 v r r' h

  named-Leaves :
      (name o : Option String) (r r' : T) → read_named table name o r ≡ done r' → get r' ≡ get r
  named-Leaves none o r r' h = cc
  named-Leaves (some n) o r r' h = found-Leaves (find n table) n o r r' refl h

  -- A loop whose entries all leave the field leaves it.
  pub read_items-Leaves :
      (its : List Item) (r r' : T) → read_items table its r ≡ done r' → get r' ≡ get r
  unfolding read_items
  read_items-Leaves [] r r' h = sym (ap get (done-injective h))
  read_items-Leaves (it ∷ its) r r' h =
      let (r1, h1, h2) = >>=-eq-done (read_item table it r) (read_items table its) h in
      read_items-Leaves its r1 r' h2 ∙ named-Leaves it.name it.value r r1 h1
