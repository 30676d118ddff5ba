-- ===== src/Crypto/Keccak.antt =====
-- modules/crypto/src/keccak.cpp, in which SHA-256 stands in for Keccak.
pub mod Laws
use chain_forge.Base.{
  ℕ, ◌+◌, ◌/◌, ◌%◌, Bool, true, false, Option, none, some, List, [], ◌∷◌, ◌++◌, ◌==◌, nat_eq, ltb,
  leb, if◌then◌else◌, length, take, drop,
}
use chain_forge.Base.Text.{Text, codes, to_string}
use chain_forge.Core.Bytes.{Bytes, fit}
use chain_forge.Core.Bytes as Core
use chain_forge.Crypto.Types.{
  CryptoError, CryptoResult, succeed, succeeded, and_then, zeros, hash256_size,
}
use chain_forge.Crypto.Hash.{Digests}
use chain_forge.Crypto.Hash as Hash

unfoldable pub to_hex : Bytes → Text
to_hex hash = Core.to_hex hash

-- `std::copy` of the first `n` bytes of an array; `none` where it reads beyond its end.
abbrev pub copy_first : ℕ → Bytes → Option Bytes
copy_first n bytes = if leb n (length bytes) then some (take n bytes) else none

-- The copied bytes, with the error of the hash.
abbrev pub with_error : CryptoError → Option Bytes → Option (CryptoResult Bytes)
with_error e none = none
with_error e (some bytes) = some (record { value = bytes; error = e })

module _ (digests : Digests) where
  -- Fewer bits are the first bytes and zeros behind them; more bits are the whole hash.
  unfoldable pub internal_keccak : Bytes → ℕ → CryptoResult Bytes
  internal_keccak bytes output_bits =
      if output_bits == 256
      then Hash.sha256 digests bytes
      else and_then (Hash.sha256 digests bytes).value (Hash.sha256 digests bytes) (λ h.
        succeed
          (if ltb output_bits 256 then fit hash256_size (take ((output_bits + 7) / 8) h) else h))

  unfoldable pub keccak256 : Bytes → CryptoResult Bytes
  keccak256 bytes = internal_keccak bytes 256

  abbrev keccak_of : ℕ → ℕ → Bytes → Option (CryptoResult Bytes)
  keccak_of size bits bytes =
      let result = internal_keccak bytes bits in
      with_error result.error (copy_first size result.value)

  unfoldable pub keccak160 : Bytes → Option (CryptoResult Bytes)
  keccak160 bytes = keccak_of 20 160 bytes

  unfoldable pub keccak384 : Bytes → Option (CryptoResult Bytes)
  keccak384 bytes = keccak_of 48 384 bytes

  unfoldable pub keccak512 : Bytes → Option (CryptoResult Bytes)
  keccak512 bytes = keccak_of 64 512 bytes

  -- The last 20 bytes of the hash, in front of zeros.
  unfoldable pub ethereum_address_hash : Bytes → CryptoResult Bytes
  ethereum_address_hash bytes =
      and_then (keccak256 bytes).value (keccak256 bytes)
        (λ h. succeed (fit hash256_size (drop 12 h)))

  unfoldable pub ethereum_signature_hash : Bytes → CryptoResult Bytes
  ethereum_signature_hash bytes =
      keccak256 ((0x19 ∷ (codes "Ethereum Signed Message:\n" ++ to_string (length bytes))) ++ bytes)

-- `Keccak::StreamHasher`
pub record StreamHasher : Type 0 where
  pub buffer : Bytes

unfoldable pub new_hasher : StreamHasher
new_hasher = record { buffer = [] }

unfoldable pub update : Bytes → StreamHasher → StreamHasher
update bytes s = record { buffer = s.buffer ++ bytes }

unfoldable pub reset : StreamHasher → StreamHasher
reset s = record { buffer = [] }

module _ (digests : Digests) where
  unfoldable pub finalize_256 : StreamHasher → CryptoResult Bytes
  finalize_256 s = keccak256 digests s.buffer

  unfoldable pub finalize_160 : StreamHasher → Option (CryptoResult Bytes)
  finalize_160 s = keccak160 digests s.buffer

  unfoldable pub finalize_384 : StreamHasher → Option (CryptoResult Bytes)
  finalize_384 s = keccak384 digests s.buffer

  unfoldable pub finalize_512 : StreamHasher → Option (CryptoResult Bytes)
  finalize_512 s = keccak512 digests s.buffer
