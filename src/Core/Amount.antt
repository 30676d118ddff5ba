-- ===== src/Core/Amount.antt =====
-- modules/core/src/amount.cpp: amounts of wei in 64 bits. The class wraps one number, and is
-- modelled by it; conversions through `double` and text are left out.
pub mod Arithmetic
pub mod Text
use chain_forge.Base.{
  ℕ, ◌+◌, ◌-◌, ◌*◌, ◌/◌, ◌%◌, ◌^◌, Bool, true, false, ◌==◌, nat_eq, ltb, if◌then◌else◌, ◌<◌,
}
use chain_forge.Core.Exceptions.{Result, ok, throw, Exception}
use chain_forge.Core.Types.{u64_mod}

abbrev pub Amount : Type 0
Amount = ℕ

-- The value fits its 64 bits.
abbrev pub IsAmount : Amount → Type 0
IsAmount a = a < u64_mod

abbrev pub max_value : ℕ
max_value = u64_mod - 1

abbrev pub wei_per_ether : ℕ
wei_per_ether = 1_000_000_000_000_000_000

-- `decimal_type` has 32 bits.
abbrev pub decimal_mod : ℕ
decimal_mod = 2 ^ 32

-- `Amount(whole, fraction)`
unfoldable pub of_parts : ℕ → ℕ → Result Amount
of_parts whole fraction =
    if ltb (max_value / wei_per_ether) whole
    then throw Exception.overflow_error
    else ok ((whole * wei_per_ether + fraction) % u64_mod)

unfoldable pub whole : Amount → ℕ
whole a = a / wei_per_ether

unfoldable pub fraction : Amount → ℕ
fraction a = a % wei_per_ether % decimal_mod

unfoldable pub add : Amount → Amount → Result Amount
add a b =
    let result : ℕ = (a + b) % u64_mod in
    if ltb result a then throw Exception.overflow_error else ok result

unfoldable pub sub : Amount → Amount → Result Amount
sub a b = if ltb a b then throw Exception.underflow_error else ok (a - b)

unfoldable pub mul : Amount → ℕ → Result Amount
mul a multiplier =
    if multiplier == 0
    then ok 0
    else if ltb (max_value / multiplier) a
    then throw Exception.overflow_error
    else ok (a * multiplier % u64_mod)

unfoldable pub div : Amount → ℕ → Result Amount
div a divisor = if divisor == 0 then throw Exception.domain_error else ok (a / divisor)

unfoldable pub min_amount : Amount → Amount → Amount
min_amount a b = if ltb a b then a else b

unfoldable pub max_amount : Amount → Amount → Amount
max_amount a b = if ltb b a then a else b

-- `Amount::is_valid`: every amount is.
unfoldable pub is_valid : ℕ → Bool
is_valid amount = true
