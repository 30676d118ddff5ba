-- ===== src/Base/Double.antt =====
-- Floating point as an interface: the operations of `double` that the program uses. A development
-- is over any `D` with them; exact fractions are one.
use Prim.Native.Nat.{ℕ, ◌+◌, ◌*◌, ◌/◌}
use mathlib.Core.Bool.{Bool}
use chain_forge.Base.Tests.{ltb}

pub record Double (D : Type 0) : Type 0 where
  -- `static_cast<double>` of a 64-bit number, and back.
  pub of_u64 : ℕ → D
  pub to_u64 : D → ℕ
  -- A decimal literal, as a numerator and a denominator.
  pub literal : ℕ → ℕ → D
  pub add : D → D → D
  pub mul : D → D → D
  pub div : D → D → D
  pub less : D → D → Bool

-- Fractions with a numerator and a denominator, which is not 0.
abbrev pub Fraction : Type 0
Fraction = ℕ × ℕ

abbrev pub exact_fractions : Double Fraction
exact_fractions = record {
  of_u64 = λ n. (n, 1);
  to_u64 = λ x. x.0 / x.1;
  literal = λ n d. (n, d);
  add = λ x y. (x.0 * y.1 + y.0 * x.1, x.1 * y.1);
  mul = λ x y. (x.0 * y.0, x.1 * y.1);
  div = λ x y. (x.0 * y.1, x.1 * y.0);
  less = λ x y. ltb (x.0 * y.1) (y.0 * x.1);
}
