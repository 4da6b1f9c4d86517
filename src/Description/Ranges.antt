-- ===== src/Description/Ranges.antt =====
-- The counts of a description (fast_mcpat/XML_Parse.cc) that its loops run over: when they are in
-- range, no loop runs more often than its array is long.
use Prim.Native.Nat.{◌^◌}
use wattwatcher.Prelude.{ℕ, ◌+◌, ◌≤◌, ◌<◌, Bool, true, false, not, ◌&&◌, ◌||◌, ltb, ◌≡◌, arith}
use wattwatcher.Text.{ℤ}
use wattwatcher.Description.Counts.{Counts, counts}
use wattwatcher.Description.Root.{RootSystem}
use wattwatcher.Description.Parse.{
  is_one, is_too_many, next_order, rounds_between, first_order, exceeds,
}

abbrev is_negative : ℤ → Bool
is_negative (ℤ.pos n) = false
is_negative (ℤ.negsuc n) = true

abbrev pub is_positive : ℤ → Bool
is_positive (ℤ.pos n) = ltb 0 n
is_positive (ℤ.negsuc n) = false

-- A kind is marked as equal components, or its number is not negative, and positive for cores.
abbrev kind_counts : ℤ × ℤ → Bool
kind_counts k = is_one (k.0) || not (is_negative (k.1))

abbrev pub is_count : Counts → Bool
is_count c =
    (is_one (c.cores.0) || is_positive (c.cores.1))
    && (kind_counts c.l1_directories
        && (kind_counts c.l2_directories
            && (kind_counts c.l2s && (kind_counts c.l3s && kind_counts c.nocs))))

pub next_order-lt : (h n : ℤ) (o : ℕ) → next_order h n o < 2 ^ 32
next_order-lt h n o = ground arith

pub first_order-le :
    (h n : ℤ)
    → (is_one h || is_positive n) ≡ true
    → is_too_many n ≡ false
    → first_order h n + 1 ≤ 1024
first_order-le h (ℤ.pos n) k m = ground arith
first_order-le h (ℤ.negsuc n) k m = ground arith

pub rounds-le :
    (h n : ℤ) (o : ℕ)
    → o < 2 ^ 32
    → kind_counts (h, n) ≡ true
    → is_too_many n ≡ false
    → rounds_between o (next_order h n o) ≤ 1024
rounds-le h (ℤ.pos n) o lt k m = ground arith
rounds-le h (ℤ.negsuc n) o lt k m = ground arith

abbrev pub KindInRange : ℤ × ℤ → Type 0
KindInRange k = (kind_counts k ≡ true) × (is_too_many (k.1) ≡ false)

pub record InRange (c : Counts) : Type 0 where
  pub cores :
      ((is_one (c.cores.0) || is_positive (c.cores.1)) ≡ true) × (is_too_many (c.cores.1) ≡ false)
  pub l1_directories : KindInRange c.l1_directories
  pub l2_directories : KindInRange c.l2_directories
  pub l2s : KindInRange c.l2s
  pub l3s : KindInRange c.l3s
  pub nocs : KindInRange c.nocs

six-true :
    (a b c d e f : Bool)
    → (a && (b && (c && (d && (e && f))))) ≡ true
    → (a ≡ true) × (b ≡ true) × (c ≡ true) × (d ≡ true) × (e ≡ true) × (f ≡ true)
six-true a b c d e f h = ground arith

six-false :
    (a b c d e f : Bool)
    → (a || b || c || d || e || f) ≡ false
    → (a ≡ false) × (b ≡ false) × (c ≡ false) × (d ≡ false) × (e ≡ false) × (f ≡ false)
six-false a b c d e f h = ground arith

pub in_range :
    {F : Type 0} (s : RootSystem F)
    → is_count (counts s) ≡ true
    → exceeds s ≡ false
    → InRange (counts s)
in_range s h e =
    let (h1, h2, h3, h4, h5, h6) = six-true _ _ _ _ _ _ h in
    let (e1, e2, e3, e4, e5, e6) = six-false _ _ _ _ _ _ e in
    record {
      cores = (h1, e1);
      l1_directories = (h2, e2);
      l2_directories = (h3, e3);
      l2s = (h4, e4);
      l3s = (h5, e5);
      nocs = (h6, e6);
    }
