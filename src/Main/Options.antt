-- ===== src/Main/Options.antt =====
-- The loop over the command line reads back what a caller writes.
use wattwatcher.Prelude.{
  ℕ, Bool, true, Option, if◌then◌else◌, zero, suc, ◌+◌, ◌≡◌, refl, sym, ap, ◌∙◌, false, none, some,
  List, [], ◌∷◌, ◌++◌, String, str_eq, arith, length, length-append, ◌>>=◌, All,
}
use mathlib.Core.List.{append-nil}
use wattwatcher.Text.{is_int, atoi, nonzero}
use wattwatcher.Main.{Cursor, Settings, defaults, body, scan, Outcome, conclude, main}

-- An option with its value, as a caller means it.
pub data Setting : Type 0 where
  infile print_level opt_for_clk : String → Setting

abbrev pub keyword : Setting → String
keyword (Setting.infile v) = "-infile"
keyword (Setting.print_level v) = "-print_level"
keyword (Setting.opt_for_clk v) = "-opt_for_clk"

abbrev pub argument : Setting → String
argument (Setting.infile v) = v
argument (Setting.print_level v) = v
argument (Setting.opt_for_clk v) = v

-- A number that an int does not hold is a fault.
abbrev pub apply : Setting → Settings → Option Settings
apply (Setting.infile v) o = some (record o { infile = some v })
apply (Setting.print_level v) o =
    if is_int (atoi v) then some (record o { plevel = atoi v }) else none
apply (Setting.opt_for_clk v) o =
    if is_int (atoi v) then some (record o { opt_for_clk = nonzero (atoi v) }) else none

abbrev pub words : List Setting → List String
words [] = []
words (s ∷ ss) = keyword s ∷ argument s ∷ words ss

-- From left to right.
abbrev pub apply_all : List Setting → Settings → Option Settings
apply_all [] o = some o
apply_all (s ∷ ss) o = apply s o >>= apply_all ss

-- A word that is no option.
abbrev pub IsPlain : String → Type 0
IsPlain a =
    (str_eq a "-infile" ≡ false)
    × (str_eq a "-print_level" ≡ false)
    × (str_eq a "-opt_for_clk" ≡ false)

abbrev pub ArePlain : List Setting → Type 0
ArePlain = All (λ s. IsPlain (argument s))

body-plain :
    (a : String) (rest : List String) (o : Settings)
    → IsPlain a
    → body (a, rest, o) ≡ some (a, rest, o)
unfolding body
body-plain a rest o (p, q, r) = rw (p, q, r) refl

guarded_then :
    {A B C : Type 0} (b : Bool) (x : A) (y : B) (f : A → Option C) (g : B → Option C)
    → f x ≡ g y
    → ((if b then some x else none) >>= f) ≡ ((if b then some y else none) >>= g)
guarded_then true x y f g h = h
guarded_then false x y f g h = refl

guarded_last :
    {A C : Type 0} (b : Bool) (x : C) (y : A) (g : A → Option C)
    → some x ≡ g y
    → (if b then some x else none) ≡ ((if b then some y else none) >>= g)
guarded_last true x y g h = h
guarded_last false x y g h = refl

body-keyword :
    (s : Setting) (rest : List String) (o : Settings)
    → IsPlain (argument s)
    → body (keyword s, argument s ∷ rest, o) ≡ (apply s o >>= λ o'. some (argument s, rest, o'))
unfolding body
body-keyword (Setting.infile v) rest o (p, q, r) = rw (q, r) refl
body-keyword (Setting.print_level v) rest o (p, q, r) =
    guarded_then (is_int (atoi v)) _ _ _ _ (rw r refl)
body-keyword (Setting.opt_for_clk v) rest o (p, q, r) = guarded_last (is_int (atoi v)) _ _ _ refl

body-last : (s : Setting) (o : Settings) → body (keyword s, [], o) ≡ none
unfolding body
body-last (Setting.infile v) o = refl
body-last (Setting.print_level v) o = refl
body-last (Setting.opt_for_clk v) o = refl

scan-nil : (n : ℕ) (o : Settings) → scan n [] o ≡ some o
unfolding scan
scan-nil zero o = refl
scan-nil (suc n) o = refl

scan-step :
    (n : ℕ) (a : String) (rest : List String) (o : Settings)
    → scan (suc n) (a ∷ rest) o ≡ (body (a, rest, o) >>= λ c. scan n c.1 c.2)
unfolding scan
scan-step n a rest o = refl

step_words :
    (m : Option Settings) (a : String) (rest : List String)
    (f : String → List String → Settings → Option Settings) (g : Settings → Option Settings)
    (h : Settings → Option Settings)
    → ((o : Settings) → f a rest o ≡ (g o >>= h))
    → ((m >>= λ o. some (a, rest, o)) >>= λ (c : Cursor). f (c.0) (c.1) (c.2)) ≡ (m >>= g >>= h)
step_words none a rest f g h e = refl
step_words (some o) a rest f g h e = e o

scan-words :
    (n j : ℕ) (ss : List Setting) (tail : List String) (o : Settings)
    → ArePlain ss
    → n ≡ length ss + j
    → scan n (words ss ++ tail) o ≡ (apply_all ss o >>= scan j tail)
scan-words n j [] tail o plain e = let same : n ≡ j = omega arith in rw same
scan-words zero j (s ∷ ss) tail o plain e = absurd (omega arith)
scan-words (suc n) j (s ∷ ss) tail o (p, ps) e =
    scan-step n (keyword s) (argument s ∷ words ss ++ tail) o
    ∙ ap (λ m. m >>= λ c. scan n c.1 c.2) (body-keyword s (words ss ++ tail) o p)
    ∙ step_words (apply s o) (argument s) (words ss ++ tail) (λ _ rest o. scan n rest o)
        (apply_all ss) (scan j tail) (λ o'. scan-words n j ss tail o' ps (omega arith))

length-words : (ss : List Setting) → length (words ss) ≡ length ss + length ss
length-words [] = omega arith
length-words (s ∷ ss) = omega (arith, length-words ss)

-- The program's own name is passed over.
scan-name :
    (n j : ℕ) (prog : String) (ss : List Setting) (tail : List String)
    → IsPlain prog
    → ArePlain ss
    → n ≡ length ss + j
    → scan (suc n) (prog ∷ words ss ++ tail) defaults ≡ (apply_all ss defaults >>= scan j tail)
scan-name n j prog ss tail plain all e =
    scan-step n prog (words ss ++ tail) defaults
    ∙ ap (λ m. m >>= λ c. scan n c.1 c.2) (body-plain prog (words ss ++ tail) defaults plain)
    ∙ scan-words n j ss tail defaults all e

main_lem :
    (prog : String) (s : Setting) (rest : List String)
    → main (prog ∷ keyword s ∷ rest)
      ≡ conclude (scan (suc (suc (length rest))) (prog ∷ keyword s ∷ rest) defaults)
unfolding main
main_lem prog (Setting.infile v) rest = refl
main_lem prog (Setting.print_level v) rest = refl
main_lem prog (Setting.opt_for_clk v) rest = refl

some_bind :
    {A : Type 0} (m : Option A) (f : A → Option A) → ((a : A) → f a ≡ some a) → (m >>= f) ≡ m
some_bind none f h = refl
some_bind (some a) f h = h a

none_bind :
    {A : Type 0} (m : Option A) (f : A → Option A) → ((a : A) → f a ≡ none) → (m >>= f) ≡ none
none_bind none f h = refl
none_bind (some a) f h = h a

-- A program name that is no option, then any options, each with a value that is no option's name:
-- the settings are the defaults as the options change them from left to right, and the run starts
-- with them, or the usage is printed if no option named a file; a number that an int does not hold is a
-- fault.
pub main-words :
    (prog : String) (s : Setting) (ss : List Setting)
    → IsPlain prog
    → ArePlain (s ∷ ss)
    → main (prog ∷ words (s ∷ ss)) ≡ conclude (apply_all (s ∷ ss) defaults)
main-words prog s ss plain all =
    main_lem prog s (argument s ∷ words ss)
    ∙ ap conclude (
        ap (λ l. scan (suc (length (words (s ∷ ss)))) (prog ∷ l) defaults)
          (sym (append-nil (words (s ∷ ss))))
        ∙ scan-name (length (words (s ∷ ss))) (suc (length ss)) prog (s ∷ ss) [] plain all
            (omega (arith, length-words ss))
        ∙ some_bind (apply_all (s ∷ ss) defaults) (scan (suc (length ss)) [])
            (scan-nil (suc (length ss))))

scan-last : (n : ℕ) (last : Setting) (o : Settings) → scan (suc n) (keyword last ∷ []) o ≡ none
scan-last n last o =
    scan-step n (keyword last) [] o ∙ ap (λ m. m >>= λ c. scan n c.1 c.2) (body-last last o)

main-start :
    (prog : String) (ss : List Setting) (last : Setting)
    → main (prog ∷ words ss ++ keyword last ∷ [])
      ≡ conclude (
          scan
            (suc (length (words ss ++ keyword last ∷ [])))
            (prog ∷ words ss ++ keyword last ∷ [])
            defaults)
main-start prog [] last = main_lem prog last []
main-start prog (s ∷ ss) last = main_lem prog s (argument s ∷ words ss ++ keyword last ∷ [])

-- A program name that is no option, then any number of options, none included, each with a value that is
-- no option's name, and at the end an option that lacks its value: that is a fault.
pub main-dangling :
    (prog : String) (last : Setting) (ss : List Setting)
    → IsPlain prog
    → ArePlain ss
    → main (prog ∷ words ss ++ keyword last ∷ []) ≡ Outcome.fault
main-dangling prog last ss plain all =
    let ws = words ss ++ keyword last ∷ [] in
    let count : length ws ≡ length ss + suc (length ss) =
      omega (arith, length-append (words ss) (keyword last ∷ []), length-words ss) in
    main-start prog ss last
    ∙ ap conclude (
        scan-name (length ws) (suc (length ss)) prog ss (keyword last ∷ []) plain all count
        ∙ none_bind (apply_all ss defaults) (scan (suc (length ss)) (keyword last ∷ []))
            (scan-last (length ss) last))
