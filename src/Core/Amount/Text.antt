-- ===== src/Core/Amount/Text.antt =====
-- `Amount::from_string` of modules/core/src/amount.cpp.
use chain_forge.Base.{
  ◌&&◌, ℕ, ◌-◌, ◌*◌, ◌%◌, Bool, false, ◌||◌, Option, none, some, [], ◌∷◌, ◌++◌, ◌==◌, nat_eq,
  if◌then◌else◌, length, take, replicate,
}
use chain_forge.Base.Text.{Text, cut, drop_spaces, stoul, is_digit}
use chain_forge.Core.Exceptions.{Result, ok, throw, ◌>>=◌, Exception}
use chain_forge.Core.Types.{u64_mod}
use chain_forge.Core.Amount.{Amount, of_parts, wei_per_ether, decimal_mod}

abbrev is_digit_first : Text → Bool
is_digit_first [] = false
is_digit_first (c ∷ cs) = is_digit c

-- A sign may stand before the digits.
abbrev has_number : Text → Bool
has_number [] = false
has_number (c ∷ cs) = is_digit c || (((c == b'-') || (c == b'+')) && is_digit_first cs)

abbrev pub or_throw : Text → Option ℕ → Result ℕ
or_throw t (some v) = ok v
or_throw t none =
    throw
      (if has_number (drop_spaces t) then Exception.out_of_range else Exception.invalid_argument)

-- `std::stoull`: without digits it throws `invalid_argument`, beyond 64 bits `out_of_range`.
unfoldable pub stoull : Text → Result ℕ
stoull t = or_throw t (stoul t)

-- 18 digits: further ones are cut off, and missing ones are zeros.
unfoldable pub pad_fraction : Text → Text
pad_fraction t = take 18 t ++ replicate (18 - length t) b'0'

-- The two sides of the dot, if there is one
unfoldable pub of_sides : Text → Option (Text × Text) → Result Amount
unfolding stoull pad_fraction of_parts
of_sides t none = do v ← stoull t; ok (v * wei_per_ether % u64_mod)
of_sides t (some (whole, frac)) = do
  w ← stoull whole
  f ← stoull (pad_fraction frac)
  of_parts w (f % decimal_mod)

unfoldable pub from_string : Text → Result Amount
unfolding of_sides
from_string t = of_sides t (cut b'.' t)
