-- ===== src/Main.antt =====
-- The command line (fast_mcpat/main.cc). argv[argc] is a null pointer, and a comparison with it or
-- atoi of it is a fault, as is atoi of a number that an int does not hold.
pub mod Options
mod Tests
use wattwatcher.Prelude.{
  ℕ, zero, suc, ◌+◌, ◌-◌, ◌*◌, Bool, true, false, not, ◌&&◌, ◌||◌, Option, none, some, List, [],
  ◌∷◌, String, str_eq, leb, ◌==◌, if◌then◌else◌, ◌>>=◌, length,
}
use wattwatcher.Text.{ℤ, is_int, atoi, nonzero}

pub record Settings : Type 0 where
  pub infile : Option String
  pub plevel : ℤ
  pub opt_for_clk : Bool

abbrev pub defaults : Settings
defaults = record { infile = none; plevel = ℤ.pos 2; opt_for_clk = true }

-- The words from argv[i] on, of which the first is there, and the settings so far.
abbrev pub Cursor : Type 0
Cursor = String × List String × Settings

-- An option moves on to its value. If there is none, the next use of argv[i] is a fault.
abbrev pub value : List String → (String → Settings) → Option Cursor
value [] set = none
value (v ∷ rest) set = some (v, rest, set v)

-- A value that atoi reads.
abbrev pub int_value : List String → (ℤ → Settings) → Option Cursor
int_value [] set = none
int_value (v ∷ rest) set = if is_int (atoi v) then some (v, rest, set (atoi v)) else none

abbrev pub infile_option : Cursor → Option Cursor
infile_option (a, rest, o) =
    if str_eq a "-infile" then value rest (λ v. record o { infile = some v }) else some (a, rest, o)

abbrev pub print_level_option : Cursor → Option Cursor
print_level_option (a, rest, o) =
    if str_eq a "-print_level"
    then int_value rest (λ n. record o { plevel = n })
    else some (a, rest, o)

abbrev pub opt_for_clk_option : Cursor → Option Cursor
opt_for_clk_option (a, rest, o) =
    if str_eq a "-opt_for_clk"
    then int_value rest (λ n. record o { opt_for_clk = nonzero n })
    else some (a, rest, o)

-- The body of the loop. The word that an option has moved on to is looked at by the next option.
unfoldable pub body : Cursor → Option Cursor
body c = do c1 ← infile_option c; c2 ← print_level_option c1; opt_for_clk_option c2

-- The for loop, with fuel.
pub scan : ℕ → List String → Settings → Option Settings
scan fuel [] o = some o
scan zero (a ∷ rest) o = some o
scan (suc fuel) (a ∷ rest) o = do c ← body (a, rest, o); scan fuel (c.1) (c.2)

pub data Outcome : Type 0 where
  -- print_usage, which exits
  usage : Outcome
  fault : Outcome
  run : String → ℤ → Bool → Outcome

abbrev asks_help : List String → Bool
asks_help [] = true
asks_help (_ ∷ []) = true
asks_help (_ ∷ a ∷ _) = str_eq a "-h" || str_eq a "--help"

abbrev pub conclude : Option Settings → Outcome
conclude none = Outcome.fault
conclude (some o) = elim o.infile [
  | none ↦ Outcome.usage
  | some f ↦ Outcome.run f o.plevel o.opt_for_clk
]

-- argv with argc words; one round of the loop for each is enough.
pub main : List String → Outcome
unfolding scan body
main argv = if asks_help argv then Outcome.usage else conclude (scan (length argv) argv defaults)
