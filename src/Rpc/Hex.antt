-- ===== src/Rpc/Hex.antt =====
-- The numbers of modules/rpc/src/blockchain_rpc_methods.cpp as hexadecimal text.
pub mod Laws
use mathlib.Core.Option
use chain_forge.Base.{
  ℕ, zero, suc, ◌+◌, ◌-◌, ◌*◌, ◌/◌, ◌%◌, ◌^◌, Bool, true, false, not, ◌&&◌, ◌||◌, Option, none,
  some, List, [], ◌∷◌, ◌==◌, nat_eq, ltb, leb, if◌then◌else◌, length, all, drop,
}
use chain_forge.Base.Text.{Text, codes, drop_spaces}

abbrev pub hex_digit : ℕ → ℕ
hex_digit d = if ltb d 10 then b'0' + d else b'a' + (d - 10)

-- `stream << std::hex << number`, in front of `rest`. 16 digits hold every 64-bit number.
unfoldable pub hex_digits : ℕ → ℕ → Text → Text
hex_digits zero n rest = rest
hex_digits (suc f) n rest =
    if ltb n 16 then hex_digit n ∷ rest else hex_digits f (n / 16) (hex_digit (n % 16) ∷ rest)

unfoldable pub number_to_hex : ℕ → Text
number_to_hex number = b'0' ∷ b'x' ∷ hex_digits 16 number []

unfoldable pub is_hex_digit : ℕ → Bool
is_hex_digit c = leb b'0' c && leb c b'9' || leb b'a' c && leb c b'f' || leb b'A' c && leb c b'F'

unfoldable pub hex_value : ℕ → ℕ
hex_value c = if leb c b'9' then c - b'0' else if leb b'a' c then c - b'a' + 10 else c - b'A' + 10

unfoldable pub read_hex : ℕ → Text → ℕ
read_hex v [] = v
read_hex v (c ∷ cs) = if is_hex_digit c then read_hex (v * 16 + hex_value c) cs else v

abbrev pub in_range : ℕ → Option ℕ
in_range v = if ltb v (2 ^ 64) then some v else none

-- The digits behind the prefix `0x` or `0X`, where one of them follows; a digit is asked for.
abbrev hex_prefixed : Text → Option ℕ
hex_prefixed (z ∷ x ∷ d ∷ cs) =
    if (z == b'0') && ((x == b'x') || (x == b'X')) && is_hex_digit d
    then in_range (read_hex 0 (d ∷ cs))
    else if is_hex_digit z
    then in_range (read_hex 0 (z ∷ x ∷ d ∷ cs))
    else none
hex_prefixed (c ∷ cs) = if is_hex_digit c then in_range (read_hex 0 (c ∷ cs)) else none
hex_prefixed [] = none

abbrev hex_signed : Text → Option ℕ
hex_signed [] = none
hex_signed (c ∷ cs) =
    if c == b'-'
    then Option.map (λ v. (2 ^ 64 - v) % 2 ^ 64) (hex_prefixed cs)
    else if c == b'+'
    then hex_prefixed cs
    else hex_prefixed (c ∷ cs)

-- `std::stoull(text, nullptr, 16)`, `none` where it throws
unfoldable pub stoull_16 : Text → Option ℕ
unfolding drop_spaces
stoull_16 t = hex_signed (drop_spaces t)

abbrev or_zero : Option ℕ → ℕ
or_zero none = 0
or_zero (some v) = v

-- `hex.size() < 3 || hex.substr(0, 2) != "0x"` is false.
abbrev has_prefix : Text → Bool
has_prefix (z ∷ x ∷ d ∷ cs) = (z == b'0') && (x == b'x')
has_prefix _ = false

unfoldable pub hex_to_number : Text → ℕ
hex_to_number hex = if has_prefix hex then or_zero (stoull_16 (drop 2 hex)) else 0

unfoldable pub is_valid_hex : Text → ℕ → Bool
is_valid_hex hex expected_length =
    if ltb 0 expected_length && not (length hex == expected_length + 2)
    then false
    else has_prefix hex && all is_hex_digit (drop 2 hex)
