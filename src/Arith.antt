-- ===== src/Arith.antt =====
-- The element types `float` and `double`, as far as the program computes with them: an instance
-- argument, since the language has no floating-point numbers. No law is assumed where a theorem does
-- not say so. The laws below are those of exact arithmetic, which rounding breaks.
use Prim.Native.Nat.{max}
use babel_stream.Prelude.{ℕ, ◌+◌, ◌-◌, ◌*◌, ◌/◌, ◌≡◌, refl, Bool, false, arith, leb}

pub record Arith {ℓ} (T : Type ℓ) : Type ℓ where
  -- `T{}`
  pub nought : T
  pub add : T → T → T
  pub sub : T → T → T
  pub mul : T → T → T
  pub div : T → T → T
  pub pow : T → T → T
  pub abs : T → T
  pub greater : T → T → T
  pub le : T → T → Bool
  pub lt : T → T → Bool
  pub is_nan : T → Bool
  -- `T(n)` for an unsigned `n`
  pub of_nat : ℕ → T
  -- the literal with the digits `m`, of which the last `e` stand behind the point
  pub literal : ℕ → ℕ → T
  -- `std::numeric_limits<T>::epsilon()`
  pub epsilon : T

infixl 65 ◌⊕◌ ◌⊖◌
infixl 70 ◌⊗◌ ◌⊘◌
module _ {ℓ} {T : Type ℓ} ⦃r : Arith T⦄ where
  abbrev pub ◌⊕◌ : T → T → T
  ◌⊕◌ = r.add

  abbrev pub ◌⊖◌ : T → T → T
  ◌⊖◌ = r.sub

  abbrev pub ◌⊗◌ : T → T → T
  ◌⊗◌ = r.mul

  abbrev pub ◌⊘◌ : T → T → T
  ◌⊘◌ = r.div

-- Exact addition and multiplication.
pub record IsExact {ℓ} (T : Type ℓ) ⦃r : Arith T⦄ : Type ℓ where
  pub nought_add : (x : T) → r.nought ⊕ x ≡ x
  pub add_assoc : (x y z : T) → (x ⊕ y) ⊕ z ≡ x ⊕ (y ⊕ z)
  pub add_comm : (x y : T) → x ⊕ y ≡ y ⊕ x
  pub literal_zero : (e : ℕ) → r.literal 0 e ≡ r.nought
  pub mul_of_nat_zero : (x : T) → x ⊗ r.of_nat 0 ≡ r.nought
  pub mul_of_nat_suc : (x : T) (n : ℕ) → x ⊗ r.of_nat (n + 1) ≡ x ⊕ x ⊗ r.of_nat n

-- Exact arithmetic is possible: whole numbers, a literal read as its digits.
instance abbrev pub whole : Arith ℕ
whole = record {
  nought = 0;
  add = λ x y. x + y;
  sub = λ x y. x - y;
  mul = λ x y. x * y;
  div = λ x y. x / y;
  pow = λ x y. x;
  abs = λ x. x;
  greater = max;
  le = leb;
  lt = λ x y. leb (x + 1) y;
  is_nan = λ x. false;
  of_nat = λ n. n;
  literal = λ m e. m;
  epsilon = 0;
}

pub whole-IsExact : IsExact ℕ
whole-IsExact = record {
  nought_add = λ x. omega arith;
  add_assoc = λ x y z. omega arith;
  add_comm = λ x y. omega arith;
  literal_zero = λ e. refl;
  mul_of_nat_zero = λ x. omega arith;
  mul_of_nat_suc = λ x n. grind arith;
}
