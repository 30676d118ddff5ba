-- ===== src/Core/Address.antt =====
-- modules/core/src/address.cpp. The class wraps its array, and is modelled by it.
use chain_forge.Base.{ℕ, ◌++◌, Bool, false, List, [], ◌∷◌, not, leb, replicate}
use chain_forge.Core.Bytes.{Bytes, IsArray, fit, be_bytes, from_hex, all_zero}
use chain_forge.Core.Exceptions.{ok, throw}
use chain_forge.Core.Types.{address_size}

abbrev pub Address : Type 0
Address = Bytes

abbrev pub IsAddress : Address → Type 0
IsAddress = IsArray address_size

unfoldable pub zero_address : Address
zero_address = replicate address_size 0

unfoldable pub is_zero : Address → Bool
unfolding all_zero
is_zero a = all_zero a

unfoldable pub is_valid : Address → Bool
unfolding is_zero
is_valid a = not (is_zero a)

last_byte : Address → ℕ
last_byte [] = 0
last_byte (b ∷ []) = b
last_byte (b ∷ c ∷ bs) = last_byte (c ∷ bs)

unfoldable pub is_contract : Address → Bool
unfolding last_byte
is_contract a = leb 0x80 (last_byte a)

unfoldable pub from_public_key : Bytes → Address
from_public_key public_key = fit address_size public_key

unfoldable pub derive_contract_address : Address → ℕ → Address
derive_contract_address sender nonce = fit address_size (sender ++ be_bytes 8 nonce)

-- The constructor's exception is caught.
unfoldable pub is_valid_address : List ℕ → Bool
unfolding is_valid
is_valid_address hex_string = elim (from_hex address_size hex_string) [
  | ok a ↦ is_valid a
  | throw e ↦ false
]
