-- ===== src/Core/Hash.antt =====
-- modules/core/src/hash.cpp. The class wraps its array, and is modelled by it.
use chain_forge.Base.{ℕ, List, ◌++◌, take, replicate, bytes_eq}
use chain_forge.Core.Bytes.{Bytes, IsArray, fit, to_hex, from_hex}
use chain_forge.Core.Exceptions.{Result}
use chain_forge.Core.Types.{hash_size}

abbrev pub Hash : Type 0
Hash = Bytes

abbrev pub IsHash : Hash → Type 0
IsHash = IsArray hash_size

unfoldable pub zero_hash : Hash
zero_hash = replicate hash_size 0

unfoldable pub hash_sha256 : Bytes → Hash
hash_sha256 data' = fit hash_size data'

unfoldable pub hash_keccak256 : Bytes → Hash
hash_keccak256 data' = fit hash_size data'

unfoldable pub hash_ripemd160 : Bytes → Hash
hash_ripemd160 data' = fit hash_size data'

-- The first half of each.
unfoldable pub combine_hashes : Hash → Hash → Hash
combine_hashes left right = take 16 left ++ take 16 right

abbrev pub hash_to_hex : Hash → List ℕ
hash_to_hex = to_hex

abbrev pub hash_from_hex : List ℕ → Result Hash
hash_from_hex = from_hex hash_size
