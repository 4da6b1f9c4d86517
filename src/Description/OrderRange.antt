-- ===== src/Description/OrderRange.antt =====
-- OrderofComponents_3layer of ParseXML::parse (fast_mcpat/XML_Parse.cc) and the rounds of its loops,
-- when the counts are in range: none of the unsigned sums and differences wraps.
use Prim.Native.Nat.{◌^◌}
use wattwatcher.Prelude.{ℕ, ◌+◌, ◌≤◌, ◌<◌, true, false, ◌||◌, ◌≡◌, arith}
use wattwatcher.Text.{ℤ}
use wattwatcher.Description.Ranges.{KindInRange, is_positive}
use wattwatcher.Description.Taking.{taken}
use wattwatcher.Description.Parse.{is_one, is_too_many, next_order, rounds_between, first_order}

pub next_order-taken :
    (h n : ℤ) (o : ℕ) → o + 1024 < 2 ^ 32 → KindInRange (h, n) → next_order h n o ≡ o + taken h n
next_order-taken h (ℤ.pos n) o lt (k, m) = ground arith
next_order-taken h (ℤ.negsuc n) o lt (k, m) = ground arith

pub taken-le : (c : ℤ × ℤ) → KindInRange c → taken (c.0) (c.1) ≤ 1024
taken-le (h, ℤ.pos n) (k, m) = ground arith
taken-le (h, ℤ.negsuc n) (k, m) = ground arith

pub rounds-taken :
    (h n : ℤ) (o : ℕ)
    → o + 1024 < 2 ^ 32
    → KindInRange (h, n)
    → rounds_between o (next_order h n o) ≡ taken h n
rounds-taken h (ℤ.pos n) o lt (k, m) = ground arith
rounds-taken h (ℤ.negsuc n) o lt (k, m) = ground arith

pub first_order-taken :
    (h n : ℤ)
    → (is_one h || is_positive n) ≡ true
    → is_too_many n ≡ false
    → first_order h n + 1 ≡ taken h n
first_order-taken h (ℤ.pos n) k m = ground arith
first_order-taken h (ℤ.negsuc n) k m = ground arith

pub first_taken-le :
    (h n : ℤ) → (is_one h || is_positive n) ≡ true → is_too_many n ≡ false → taken h n ≤ 1024
first_taken-le h (ℤ.pos n) k m = ground arith
first_taken-le h (ℤ.negsuc n) k m = ground arith
