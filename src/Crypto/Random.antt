-- ===== src/Crypto/Random.antt =====
-- modules/crypto/src/random.cpp. A device gives its readings in order, `none` where it throws; the
-- number of the first reading that a call takes is an argument.
pub mod Laws
use chain_forge.Base.{
  ℕ, zero, suc, ◌+◌, ◌-◌, ◌%◌, ◌^◌, Bool, Option, none, some, List, [], ◌∷◌, leb, if◌then◌else◌,
  ◌==◌, nat_eq, length,
}
use chain_forge.Core.Bytes.{Bytes}
use chain_forge.Crypto.Types.{
  CryptoError, CryptoResult, succeed, fail_with, and_then, hash256_size, secp256k1_private_key_size,
  ed25519_private_key_size, bls_private_key_size,
}

abbrev pub Device : Type 0
Device = ℕ → Option ℕ

-- `std::uniform_int_distribution` over the generator, `none` where it throws
abbrev pub Distribution : Type 0
Distribution = ℕ → ℕ → Option ℕ

abbrev pub put_reading : Option ℕ → Option Bytes → Option Bytes
put_reading none rest = none
put_reading (some r) none = none
put_reading (some r) (some bs) = some (r % 256 ∷ bs)

-- The low byte of each of `n` readings
unfoldable pub read_bytes : Device → ℕ → ℕ → Option Bytes
read_bytes device i zero = some []
read_bytes device i (suc n) = put_reading (device i) (read_bytes device (i + 1) n)

abbrev pub filled : ℕ → Option Bytes → CryptoResult Bytes
filled n (some bytes) = succeed bytes
filled n none = fail_with n CryptoError.random_generation_failed

-- `fill_bytes` of a buffer of `n` bytes; the result holds the buffer. What a
-- failed call wrote is not read by its callers, and is left out.
unfoldable pub fill_bytes : Device → ℕ → ℕ → CryptoResult Bytes
unfolding read_bytes
fill_bytes device i n =
    if n == 0 then fail_with n CryptoError.invalid_length else filled n (read_bytes device i n)

unfoldable pub generate_bytes : Device → ℕ → ℕ → CryptoResult Bytes
unfolding fill_bytes
generate_bytes device i n =
    if n == 0
    then fail_with 0 CryptoError.invalid_length
    else and_then [] (fill_bytes device i n) succeed

unfoldable pub generate_hash256 : Device → ℕ → CryptoResult Bytes
unfolding fill_bytes
generate_hash256 device i = fill_bytes device i hash256_size

unfoldable pub generate_secp256k1_private_key : Device → ℕ → CryptoResult Bytes
unfolding fill_bytes
generate_secp256k1_private_key device i = fill_bytes device i secp256k1_private_key_size

unfoldable pub generate_ed25519_private_key : Device → ℕ → CryptoResult Bytes
unfolding fill_bytes
generate_ed25519_private_key device i = fill_bytes device i ed25519_private_key_size

unfoldable pub generate_bls_private_key : Device → ℕ → CryptoResult Bytes
unfolding fill_bytes
generate_bls_private_key device i = fill_bytes device i bls_private_key_size

abbrev pub drawn : Option ℕ → CryptoResult ℕ
drawn (some n) = succeed n
drawn none = record { value = 0; error = CryptoError.random_generation_failed }

-- `generate_uint64` and `generate_uint32` between two bounds
unfoldable pub generate_between : Distribution → ℕ → ℕ → CryptoResult ℕ
generate_between dist min max =
    if leb max min
    then record { value = 0; error = CryptoError.invalid_length }
    else drawn (dist min max)

unfoldable pub generate_uint64 : Distribution → CryptoResult ℕ
unfolding generate_between
generate_uint64 dist = generate_between dist 0 (2 ^ 64 - 1)

unfoldable pub generate_uint32 : Distribution → CryptoResult ℕ
unfolding generate_between
generate_uint32 dist = generate_between dist 0 (2 ^ 32 - 1)
