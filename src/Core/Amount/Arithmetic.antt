-- ===== src/Core/Amount/Arithmetic.antt =====
-- The arithmetic of amounts is exact or throws, and what the two parts of an amount keep.
use native.Mathlib.Nat.{le-div_iff_mul-le}
use chain_forge.Base.{
  zero, suc, suc, ℕ, ◌+◌, ◌*◌, ◌/◌, ◌%◌, ◌≤◌, ◌<◌, ◌≡◌, ◌↔◌, ltb, nat_eq, if◌then◌else◌, arith,
}
use chain_forge.Core.Exceptions.{Result, ok, throw, Exception}
use chain_forge.Core.Types.{u64_mod}
use chain_forge.Core.Amount.{
  Amount, IsAmount, add, sub, mul, of_parts, whole, fraction, decimal_mod, wei_per_ether, max_value,
}

-- What an operation should return: the exact value if it fits, and the exception otherwise.
abbrev pub exact : ℕ → Result Amount
exact v = if ltb v u64_mod then ok v else throw Exception.overflow_error

-- Addition is exact, or throws `overflow_error` when the sum does not fit in 64 bits.
pub add-exact : (a b : Amount) → IsAmount a → IsAmount b → add a b ≡ exact (a + b)
unfolding add
add-exact a b ha hb = ground arith

mul_bound : (a m : ℕ) → 0 < m → (a ≤ max_value / m) ↔ (a * m < u64_mod)
mul_bound a m h = (
  λ p. omega (arith, (le-div_iff_mul-le {k = m} {x = a} {y = max_value} h).0 p),
  λ p. (le-div_iff_mul-le {k = m} {x = a} {y = max_value} h).1 (omega arith),
)

mul_pos : (a m : ℕ) → 0 < m → mul a m ≡ exact (a * m)
unfolding mul
mul_pos a m h = ground (arith, mul_bound a m h)

-- Multiplication is exact, or throws `overflow_error` when the product does not fit in 64 bits.
pub mul-exact : (a m : ℕ) → mul a m ≡ exact (a * m)
unfolding mul
mul-exact a zero = ground arith
mul-exact a (suc m) = mul_pos a (suc m) (omega arith)

-- An amount that was reached by adding goes back by subtracting: what `add` returns less the second
-- summand is the first.
pub sub-add : (a b c : Amount) → IsAmount a → IsAmount b → add a b ≡ ok c → sub c b ≡ ok a
unfolding add sub
sub-add a b c ha hb h = ground arith

-- An amount is made again from its whole part and its fraction exactly when the wei beyond the
-- whole ethers fit in 32 bits.
pub of_parts-whole-fraction :
    (a : Amount)
    → IsAmount a
    → (of_parts (whole a) (fraction a) ≡ ok a) ↔ (a % wei_per_ether < decimal_mod)
unfolding of_parts whole fraction
of_parts-whole-fraction a h = ground arith
