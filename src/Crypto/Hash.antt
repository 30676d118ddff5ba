-- ===== src/Crypto/Hash.antt =====
-- modules/crypto/src/hash.cpp
pub mod Laws
use chain_forge.Base.{
  ℕ, zero, suc, ◌+◌, ◌*◌, ◌/◌, Bool, true, false, not, ◌&&◌, ◌||◌, Option, none, some, List, [],
  ◌∷◌, ◌++◌, ◌==◌, nat_eq, leb, if◌then◌else◌, length, all,
}
use chain_forge.Base.Text.{Text}
use chain_forge.Core.Bytes.{Bytes}
use chain_forge.Core.Bytes as Core
use chain_forge.Core.Bytes.Laws.{is_xdigit}
use chain_forge.Core.Exceptions.{Result, ok, throw}
use chain_forge.Crypto.Types.{
  succeeded, CryptoError, CryptoResult, succeed, fail_with, and_then, zeros, hash256_size,
  ripemd160_size,
}

-- The digests of OpenSSL, `none` where one of the three calls does not return 1.
pub record Digests : Type 0 where
  pub sha256 : Bytes → Option Bytes
  pub ripemd160 : Bytes → Option Bytes

abbrev pub hashed : ℕ → Option Bytes → CryptoResult Bytes
hashed n (some h) = succeed h
hashed n none = fail_with n CryptoError.hash_failed

unfoldable pub to_hex : Bytes → Text
to_hex hash = Core.to_hex hash

unfoldable pub is_valid_hex_hash : Text → ℕ → Bool
is_valid_hex_hash hex_string expected_size =
    if not (length hex_string == expected_size * 2) then false else all is_xdigit hex_string

abbrev pub of_parsed : Result Bytes → Result (CryptoResult Bytes)
of_parsed (ok bytes) = ok (succeed bytes)
of_parsed (throw e) = throw e

-- A text that passes has the right length, and `stoi` reads it two characters at a time.
unfoldable pub from_hex : Text → Result (CryptoResult Bytes)
unfolding is_valid_hex_hash
from_hex hex_string =
    if not (is_valid_hex_hash hex_string hash256_size)
    then ok (fail_with hash256_size CryptoError.invalid_length)
    else of_parsed (Core.from_hex hash256_size hex_string)

module _ (digests : Digests) where
  unfoldable pub internal_sha256 : Bytes → CryptoResult Bytes
  internal_sha256 bytes = hashed hash256_size (digests.sha256 bytes)

  -- SHA-256 stands in for Keccak.
  unfoldable pub internal_keccak256 : Bytes → CryptoResult Bytes
  internal_keccak256 bytes = internal_sha256 bytes

  unfoldable pub internal_ripemd160 : Bytes → CryptoResult Bytes
  internal_ripemd160 bytes = hashed ripemd160_size (digests.ripemd160 bytes)

  unfoldable pub sha256 : Bytes → CryptoResult Bytes
  sha256 bytes = internal_sha256 bytes

  unfoldable pub keccak256 : Bytes → CryptoResult Bytes
  keccak256 bytes = internal_keccak256 bytes

  unfoldable pub ripemd160 : Bytes → CryptoResult Bytes
  ripemd160 bytes = internal_ripemd160 bytes

  unfoldable pub double_sha256 : Bytes → CryptoResult Bytes
  double_sha256 bytes = and_then (zeros hash256_size) (internal_sha256 bytes) internal_sha256

  unfoldable pub keccak256_ripemd160 : Bytes → CryptoResult Bytes
  keccak256_ripemd160 bytes =
      and_then (zeros ripemd160_size) (internal_keccak256 bytes) internal_ripemd160

  unfoldable pub hash_pair : Bytes → Bytes → CryptoResult Bytes
  unfolding sha256
  hash_pair left right = sha256 (left ++ right)

  -- One level of the tree; an odd last hash is paired with itself.
  unfoldable pub hash_level : List Bytes → CryptoResult (List Bytes)
  hash_level [] = succeed []
  hash_level (h ∷ []) = and_then [] (hash_pair h h) (λ p. succeed (p ∷ []))
  hash_level (h ∷ k ∷ hs) =
      let rest = hash_level hs in
      and_then [] (hash_pair h k) (λ p. and_then [] rest (λ ps. succeed (p ∷ ps)))

  abbrev pub after_level :
      (List Bytes → Option (CryptoResult Bytes))
      → CryptoResult (List Bytes)
      → Option (CryptoResult Bytes)
  after_level continue r =
      if succeeded r then continue r.value else some (fail_with hash256_size r.error)

  -- `while (current_level.size() > 1)`, on fuel; `none` if the fuel runs out.
  unfoldable pub hash_loop : ℕ → List Bytes → Option (CryptoResult Bytes)
  hash_loop fuel [] = none
  hash_loop fuel (h ∷ []) = some (succeed h)
  hash_loop zero (h ∷ k ∷ hs) = none
  hash_loop (suc fuel) (h ∷ k ∷ hs) = after_level (hash_loop fuel) (hash_level (h ∷ k ∷ hs))

  unfoldable pub hash_many : List Bytes → Option (CryptoResult Bytes)
  hash_many [] = some (succeed (zeros hash256_size))
  hash_many (h ∷ hs) = hash_loop (length (h ∷ hs)) (h ∷ hs)
