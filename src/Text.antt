-- ===== src/Text.antt =====
-- The functions of C's library on texts that fast_mcpat/main.cc and fast_mcpat/XML_Parse.cc call:
-- atoi, atof and strstr. What atoi makes of a number that an int does not hold
-- is undefined: its callers check is_int. Hexadecimal numbers, infinities and NaN are left out of atof.
use wattwatcher.Prelude.{
  ℕ, zero, suc, ◌+◌, ◌-◌, ◌*◌, Bool, true, false, not, ◌&&◌, ◌||◌, List, [], ◌∷◌, String, leb, ◌==◌,
  if◌then◌else◌, ltb,
}
use Prim.Native.Nat.{◌^◌}
use Prim.Native.Char.{code}
use wattwatcher.Double.{Double}

-- An int.
pub data ℤ : Type 0 where
  pos : ℕ → ℤ
  -- -(n + 1)
  negsuc : ℕ → ℤ

abbrev negate : ℕ → ℤ
negate zero = ℤ.pos 0
negate (suc n) = ℤ.negsuc n

-- Whether an int holds the number.
abbrev pub is_int : ℤ → Bool
is_int (ℤ.pos n) = ltb n (2 ^ 31)
is_int (ℤ.negsuc n) = ltb n (2 ^ 31)

abbrev pub codes : String → List ℕ
codes String.[] = []
codes (String.◌∷◌ c s) = code c ∷ codes s

abbrev digits : ℕ → List ℕ → ℕ
digits acc [] = acc
digits acc (c ∷ cs) =
    let rest = digits (acc * 10 + (c - b'0')) cs in if leb b'0' c && leb c b'9' then rest else acc

abbrev signed : List ℕ → ℤ
signed [] = ℤ.pos 0
signed (c ∷ cs) =
    if c == b'-'
    then negate (digits 0 cs)
    else if c == b'+'
    then ℤ.pos (digits 0 cs)
    else ℤ.pos (digits 0 (c ∷ cs))

abbrev is_space : ℕ → Bool
is_space c = c == b' ' || (leb 9 c && leb c 13)

abbrev pub atoi_codes : List ℕ → ℤ
atoi_codes [] = ℤ.pos 0
atoi_codes (c ∷ cs) = let rest = atoi_codes cs in if is_space c then rest else signed (c ∷ cs)

unfoldable pub atoi : String → ℤ
atoi s = atoi_codes (codes s)

-- (bool)n
abbrev pub nonzero : ℤ → Bool
nonzero (ℤ.pos n) = not (n == 0)
nonzero (ℤ.negsuc n) = true

-- Whether the second text stands in the first, strstr(s, w) != NULL.
abbrev starts : List ℕ → List ℕ → Bool
starts cs [] = true
starts [] (w ∷ ws) = false
starts (c ∷ cs) (w ∷ ws) = c == w && starts cs ws

abbrev contains : List ℕ → List ℕ → Bool
contains [] ws = starts [] ws
contains (c ∷ cs) ws = starts (c ∷ cs) ws || contains cs ws

unfoldable pub strstr : String → String → Bool
strstr s w = contains (codes s) (codes w)

-- A decimal number as atof reads it: digits, a point, digits, and an exponent.
record Decimal : Type 0 where
  mantissa : ℕ
  -- digits behind the point
  places : ℕ
  rest : List ℕ

abbrev is_digit : ℕ → Bool
is_digit c = leb b'0' c && leb c b'9'

abbrev whole : ℕ → List ℕ → Decimal
whole n [] = record { mantissa = n; places = 0; rest = [] }
whole n (c ∷ cs) =
    let more = whole (n * 10 + (c - b'0')) cs in
    if is_digit c then more else record { mantissa = n; places = 0; rest = c ∷ cs }

abbrev fraction : ℕ → ℕ → List ℕ → Decimal
fraction n k [] = record { mantissa = n; places = k; rest = [] }
fraction n k (c ∷ cs) =
    let more = fraction (n * 10 + (c - b'0')) (suc k) cs in
    if is_digit c then more else record { mantissa = n; places = k; rest = c ∷ cs }

abbrev after_point : Decimal → List ℕ → Decimal
after_point m [] = m
after_point m (c ∷ cs) = if c == b'.' then fraction m.mantissa 0 cs else m

abbrev exponent : List ℕ → ℤ
exponent [] = ℤ.pos 0
exponent (c ∷ cs) = if c == b'e' || c == b'E' then signed cs else ℤ.pos 0

module _ {F : Type 0} ⦃d : Double F⦄ where
  abbrev scaled : ℕ → ℕ → ℤ → F
  scaled n k (ℤ.pos e) = if leb e k then d.lit n (k - e) else d.nat (n * 10 ^ (e - k))
  scaled n k (ℤ.negsuc e) = d.lit n (k + suc e)

  abbrev unsigned_double : List ℕ → F
  unsigned_double cs =
      let m = whole 0 cs in
      let v = after_point m m.rest in scaled v.mantissa v.places (exponent v.rest)

  abbrev signed_double : List ℕ → F
  signed_double [] = d.nat 0
  signed_double (c ∷ cs) =
      if c == b'-'
      then d.neg (unsigned_double cs)
      else if c == b'+'
      then unsigned_double cs
      else unsigned_double (c ∷ cs)

  unfoldable pub atof_codes : List ℕ → F
  atof_codes [] = d.nat 0
  atof_codes (c ∷ cs) =
      let rest = atof_codes cs in if is_space c then rest else signed_double (c ∷ cs)
