-- ===== src/Double.antt =====
-- The C++ type double, which antt does not have: a type F with the operations that the source
-- applies to it, an instance argument of every definition. Rounding is not modelled: a theorem that
-- needs more of the numbers than their operations takes the laws below as a hypothesis, and these are
-- the laws of exact arithmetic. The natural numbers meet them all.
use wattwatcher.Prelude.{ℕ, suc, ◌+◌, ◌-◌, ◌*◌, ◌/◌, ◌≡◌, Bool, true, false, arith, ltb, leb}
use Prim.Native.Nat.{◌^◌}

pub record Double (F : Type 0) : Type 0 where
  pub add : F → F → F
  pub sub : F → F → F
  pub mul : F → F → F
  pub div : F → F → F
  pub lt : F → F → Bool
  pub le : F → F → Bool
  -- the conversion of an int
  pub nat : ℕ → F
  -- the literal n * 10 ^ -k
  pub lit : ℕ → ℕ → F
  pub neg : F → F
  pub sqrt : F → F
  pub log : F → F
  pub log2 : F → F
  -- (int)ceil(x)
  pub ceil : F → ℕ
  -- (unsigned int)round(x)
  pub round : F → ℕ

infixl 65 ◌⊕◌ ◌⊖◌
infixl 70 ◌⊗◌ ◌⊘◌
abbrev pub ◌⊕◌ : {F : Type 0} ⦃d : Double F⦄ → F → F → F
◌⊕◌ ⦃d⦄ = d.add

abbrev pub ◌⊖◌ : {F : Type 0} ⦃d : Double F⦄ → F → F → F
◌⊖◌ ⦃d⦄ = d.sub

abbrev pub ◌⊗◌ : {F : Type 0} ⦃d : Double F⦄ → F → F → F
◌⊗◌ ⦃d⦄ = d.mul

abbrev pub ◌⊘◌ : {F : Type 0} ⦃d : Double F⦄ → F → F → F
◌⊘◌ ⦃d⦄ = d.div

-- Sums and products as exact arithmetic has them.
pub record IsExact (F : Type 0) ⦃d : Double F⦄ : Type 0 where
  pub add_assoc : (x y z : F) → (x ⊕ y) ⊕ z ≡ x ⊕ (y ⊕ z)
  pub add_comm : (x y : F) → x ⊕ y ≡ y ⊕ x
  pub add-zero : (x : F) → x ⊕ d.nat 0 ≡ x
  pub mul-zero : (x : F) → x ⊗ d.nat 0 ≡ d.nat 0
  pub mul-one : (x : F) → x ⊗ d.nat 1 ≡ x
  pub mul_assoc : (x y z : F) → (x ⊗ y) ⊗ z ≡ x ⊗ (y ⊗ z)
  pub mul_comm : (x y : F) → x ⊗ y ≡ y ⊗ x
  pub mul-add : (x y z : F) → x ⊗ (y ⊕ z) ≡ x ⊗ y ⊕ x ⊗ z
  pub zero-div : (x : F) → d.lt (d.nat 0) x ≡ true → d.nat 0 ⊘ x ≡ d.nat 0
  pub nat-pos : (n : ℕ) → d.lt (d.nat 0) (d.nat (suc n)) ≡ true
  pub nat-suc : (n : ℕ) → d.nat (suc n) ≡ d.nat n ⊕ d.nat 1

-- The order on numbers other than NaN.
pub record IsOrdered (F : Type 0) ⦃d : Double F⦄ : Type 0 where
  pub le_refl : (x : F) → d.le x x ≡ true
  pub le_trans : (x y z : F) → d.le x y ≡ true → d.le y z ≡ true → d.le x z ≡ true
  pub le_of_not_lt : (x y : F) → d.lt x y ≡ false → d.le y x ≡ true
  pub le_of_lt : (x y : F) → d.lt x y ≡ true → d.le x y ≡ true

-- Numbers that a reader can follow: whole ones, where 1 - 2 and 1 / 2 are 0.
instance abbrev pub nat_double : Double ℕ
nat_double = record {
  add = ◌+◌;
  sub = ◌-◌;
  mul = ◌*◌;
  div = ◌/◌;
  lt = ltb;
  le = leb;
  nat = λ n. n;
  lit = λ n k. n / 10 ^ k;
  neg = λ _. 0;
  sqrt = λ n. n;
  log = λ n. n;
  log2 = λ n. n;
  ceil = λ n. n;
  round = λ n. n;
}

pub nat-IsExact : IsExact ℕ
nat-IsExact = record {
  add_assoc = λ x y z. omega arith;
  add_comm = λ x y. omega arith;
  add-zero = λ x. omega arith;
  mul-zero = λ x. omega arith;
  mul-one = λ x. omega arith;
  mul_assoc = λ x y z. grind arith;
  mul_comm = λ x y. omega arith;
  mul-add = λ x y z. omega arith;
  zero-div = λ x h. omega arith;
  nat-pos = λ n. ground arith;
  nat-suc = λ n. omega arith;
}

pub nat-IsOrdered : IsOrdered ℕ
nat-IsOrdered = record {
  le_refl = λ x. ground arith;
  le_trans = λ x y z h k. ground arith;
  le_of_not_lt = λ x y h. ground arith;
  le_of_lt = λ x y h. ground arith;
}
