-- ===== src/Crypto/Types.antt =====
-- modules/crypto/include/chainforge/crypto/types.hpp: sizes, errors and results.
use chain_forge.Base.{ℕ, if◌then◌else◌, Bool, true, false, replicate}
use chain_forge.Core.Bytes.{Bytes}

abbrev pub hash256_size : ℕ
hash256_size = 32

abbrev pub ripemd160_size : ℕ
ripemd160_size = 20

abbrev pub secp256k1_private_key_size : ℕ
secp256k1_private_key_size = 32

-- Without the prefix 04
abbrev pub secp256k1_public_key_size : ℕ
secp256k1_public_key_size = 64

abbrev pub secp256k1_compressed_public_key_size : ℕ
secp256k1_compressed_public_key_size = 33

abbrev pub secp256k1_signature_size : ℕ
secp256k1_signature_size = 64

abbrev pub ed25519_private_key_size : ℕ
ed25519_private_key_size = 32

abbrev pub ed25519_public_key_size : ℕ
ed25519_public_key_size = 32

abbrev pub ed25519_signature_size : ℕ
ed25519_signature_size = 64

abbrev pub bls_private_key_size : ℕ
bls_private_key_size = 32

abbrev pub bls_public_key_size : ℕ
bls_public_key_size = 48

abbrev pub bls_signature_size : ℕ
bls_signature_size = 96

pub data CryptoError : Type 0 where
  success invalid_key invalid_signature invalid_message random_generation_failed : CryptoError
  hash_failed signature_failed verification_failed unsupported_algorithm : CryptoError
  invalid_length : CryptoError

pub record CryptoResult (A : Type 0) : Type 0 where
  pub value : A
  pub error : CryptoError

abbrev pub is_success : CryptoError → Bool
is_success CryptoError.success = true
is_success _ = false

unfoldable pub succeeded : {A : Type 0} → CryptoResult A → Bool
succeeded r = is_success r.error

abbrev pub succeed : {A : Type 0} → A → CryptoResult A
succeed a = record { value = a; error = CryptoError.success }

-- A value-initialised array
abbrev pub zeros : ℕ → Bytes
zeros n = replicate n 0

abbrev pub fail_with : ℕ → CryptoError → CryptoResult Bytes
fail_with n e = record { value = zeros n; error = e }

-- `if (!r.success()) return {b, r.error};`
abbrev pub and_then : {A B : Type 0} → B → CryptoResult A → (A → CryptoResult B) → CryptoResult B
and_then b r f = if is_success r.error then f r.value else record { value = b; error = r.error }
