-- ===== src/Description/Post.antt =====
-- What holds after a run of ParseXML::parse (fast_mcpat/XML_Parse.cc), with a rule for each of its
-- loops.
use wattwatcher.Prelude.{
  ℕ, zero, suc, ◌+◌, ◌≤◌, ◌<◌, Bool, true, false, Option, none, some, List, String, if◌then◌else◌,
  ◌≡◌, refl, arith,
}
use wattwatcher.Description.{Run, done, stopped, fault, ◌>>=◌, run_map}
use wattwatcher.Description.Document.{Component}
use wattwatcher.Description.Parse.{get_elem?, has_word, with_component, read_group, read_nocs}

pub zero-add : (k : ℕ) → 0 + k ≡ k
zero-add k = omega arith

pub suc-add : (n k : ℕ) → suc n + k ≡ n + (k + 1)
suc-add n k = omega arith

-- P holds of the result if there is one, and Q if there is a fault.
abbrev pub Post : {A : Type 0} → Type 0 → (A → Type 0) → Run A → Type 0
Post Q P (done a) = P a
Post Q P stopped = Unit {0}
Post Q P fault = Q

module _ (Q : Type 0) where
  pub Post-bind :
      {A B : Type 0} (P : A → Type 0) (R : B → Type 0) (m : Run A) (f : A → Run B)
      → Post Q P m
      → ((a : A) → P a → Post Q R (f a))
      → Post Q R (m >>= f)
  Post-bind P R (done a) f h k = k a h
  Post-bind P R stopped f h k = tt
  Post-bind P R fault f h k = h

  pub Post-map :
      {A B : Type 0} (R : B → Type 0) (f : A → B) (m : Run A)
      → Post Q (λ a. R (f a)) m
      → Post Q R (run_map f m)
  Post-map R f (done a) h = h
  Post-map R f stopped h = tt
  Post-map R f fault h = h

  pub Post-weaken :
      {A : Type 0} (P R : A → Type 0) (m : Run A) → Post Q P m → ((a : A) → P a → R a) → Post Q R m
  Post-weaken P R (done a) h k = k a h
  Post-weaken P R stopped h k = tt
  Post-weaken P R fault h k = h

  pub Post-if :
      {A : Type 0} (P : A → Type 0) (b : Bool) (m n : Run A)
      → (b ≡ true → Post Q P m)
      → (b ≡ false → Post Q P n)
      → Post Q P (if b then m else n)
  Post-if P true m n h k = h refl
  Post-if P false m n h k = k refl

  module _ {S : Type 0} (attribute : Component → Option String) (word : String)
      (read : ℕ → Component → S → Run S) (cs : List Component) (Inv : ℕ → ℕ → S → Type 0) (last : ℕ)
      (named : (k : ℕ) (c : Component)
        → get_elem? cs k ≡ some c
        → Post Q (λ _. Unit {0}) (has_word (attribute c) word))
      (step : (i k : ℕ) (c : Component) (s : S)
        → i < last
        → get_elem? cs k ≡ some c
        → Inv i k s
        → Post Q (Inv (i + 1) (k + 1)) (read i c s)) where
    front-Post :
        (i k : ℕ) (o : Option Component) (s : S) (R : S → Type 0) (more : S → Run S)
        → get_elem? cs k ≡ o
        → i < last
        → Inv i k s
        → ((s : S) → Inv (i + 1) (k + 1) s → Post Q R (more s))
        → Post Q R (
            with_component o λ c.
              has_word (attribute c) word >>= λ ok. if ok then read i c s >>= more else stopped)
    front-Post i k none s R more e lt inv next = tt
    front-Post i k (some c) s R more e lt inv next =
        Post-bind (λ _. Unit {0}) R (has_word (attribute c) word) _ (named k c e)
          (λ ok _.
            Post-if R ok (read i c s >>= more) stopped
              (λ _.
                Post-bind (Inv (i + 1) (k + 1)) R (read i c s) more (step i k c s lt e inv) next)
              (λ _. tt))

    pub read_group-Post :
        (n i k : ℕ) (s : S)
        → n + i ≤ last
        → Inv i k s
        → Post Q (Inv (n + i) (n + k)) (read_group attribute word read n i k cs s)
    unfolding read_group
    read_group-Post zero i k s le inv = rw (zero-add i, zero-add k) inv
    read_group-Post (suc n) i k s le inv =
        front-Post i k (get_elem? cs k) s (Inv (suc n + i) (suc n + k))
          (read_group attribute word read n (i + 1) (k + 1) cs) refl (omega arith) inv
          (λ s' inv'.
            rw (suc-add n i, suc-add n k) (read_group-Post n (i + 1) (k + 1) s' (omega arith) inv'))

  module _ {S : Type 0} (read : ℕ → Component → S → Run S) (cs : List Component) (Inv : S → Type 0)
      (last : ℕ)
      (named : (k : ℕ) (c : Component)
        → get_elem? cs k ≡ some c
        → Post Q (λ _. Unit {0}) (has_word c.name "noc"))
      (step : (i k : ℕ) (c : Component) (s : S)
        → i < last
        → get_elem? cs k ≡ some c
        → Inv s
        → Post Q Inv (read i c s)) where
    noc-Post :
        (i k : ℕ) (o : Option Component) (s : S) (more : S → Run S) (skip : Run S)
        → get_elem? cs k ≡ o
        → i < last
        → Inv s
        → ((s : S) → Inv s → Post Q Inv (more s))
        → Post Q Inv skip
        → Post Q Inv (
            with_component o λ c.
              has_word c.name "noc" >>= λ ok. elim ok [ true ↦ read i c s >>= more | false ↦ skip ])
    noc-Post i k none s more skip e lt inv next rest = tt
    noc-Post i k (some c) s more skip e lt inv next rest =
        Post-bind (λ _. Unit {0}) Inv (has_word c.name "noc") _ (named k c e) (λ ok _. found ok)
      where
        found : (ok : Bool) → Post Q Inv (elim ok [ true ↦ read i c s >>= more | false ↦ skip ])
        found true = Post-bind Inv Inv (read i c s) more (step i k c s lt e inv) next
        found false = rest

    pub read_nocs-Post :
        (n i k : ℕ) (s : S) → n + i ≤ last → Inv s → Post Q Inv (read_nocs read n i k cs s)
    unfolding read_nocs
    read_nocs-Post zero i k s le inv = inv
    read_nocs-Post (suc n) i k s le inv =
        noc-Post i k (get_elem? cs k) s (read_nocs read n (i + 1) (k + 1) cs)
          (read_nocs read n (i + 1) k cs s) refl (omega arith) inv
          (λ s' inv'. read_nocs-Post n (i + 1) (k + 1) s' (omega arith) inv')
          (read_nocs-Post n (i + 1) k s (omega arith) inv)
