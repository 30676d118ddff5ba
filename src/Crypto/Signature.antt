-- ===== src/Crypto/Signature.antt =====
-- modules/crypto/src/signature.cpp
pub mod Laws
use chain_forge.Base.{
  ℕ, ◌-◌, ◌+◌, Bool, true, false, not, ◌||◌, Option, none, some, List, [], ◌∷◌, ◌++◌, ◌==◌, nat_eq,
  ltb, if◌then◌else◌, length,
}
use chain_forge.Base.Text.{Text}
use chain_forge.Core.Bytes.{Bytes, fit}
use chain_forge.Crypto.Types.{
  CryptoError, CryptoResult, succeed, fail_with, secp256k1_signature_size,
  secp256k1_public_key_size, ed25519_signature_size, bls_signature_size,
}

-- What the code calls of OpenSSL (`E` is an EC_KEY, `S` an ECDSA_SIG) and of libsodium.
pub record Signing (E S : Type 0) : Type 0 where
  pub sha256 : Bytes → Bytes
  pub ec_key_new : Option E
  pub set_private_key : Bytes → E → Option E
  -- `ECDSA_do_sign` with a random number
  pub do_sign : ℕ → Bytes → E → Option S
  -- `i2d_ECDSA_SIG`, the empty list where it fails
  pub to_der : S → Bytes
  -- `o2i_ECPublicKey`
  pub set_public_key : Bytes → E → Option E
  -- `d2i_ECDSA_SIG`, which leaves bytes behind the signature alone
  pub of_der : Bytes → Option S
  pub do_verify : Bytes → S → E → Bool
  pub sodium_init : Bool
  -- `crypto_sign_ed25519_detached`, `none` where it reads beyond the end of the secret key
  pub ed25519_detached : Bytes → Bytes → Option Bytes
  pub ed25519_verify_detached : Bytes → Bytes → Bytes → Bool

module _ {E S : Type 0} (lib : Signing E S) where
  abbrev pub or_error :
      {A : Type 0} → CryptoResult Bytes → Option A → (A → CryptoResult Bytes) → CryptoResult Bytes
  or_error e none f = e
  or_error e (some a) f = f a

  abbrev pub signing_failed : CryptoResult Bytes
  signing_failed = fail_with secp256k1_signature_size CryptoError.signature_failed

  abbrev pub has_no_bytes : Bytes → Bool
  has_no_bytes [] = true
  has_no_bytes (b ∷ bs) = false

  -- The DER form in an array that is not initialised: `stale` is what was there. Both calls of
  -- `i2d_ECDSA_SIG` are for one signature, and write as many bytes.
  unfoldable pub put_der : Bytes → Bytes → CryptoResult Bytes
  put_der stale der =
      if has_no_bytes der || ltb secp256k1_signature_size (length der)
      then signing_failed
      else succeed (fit secp256k1_signature_size (der ++ stale))

  unfoldable pub ecdsa_secp256k1_sign : ℕ → Bytes → Bytes → Bytes → CryptoResult Bytes
  unfolding put_der
  ecdsa_secp256k1_sign random stale message private_key =
      or_error signing_failed lib.ec_key_new (λ key.
        or_error signing_failed (lib.set_private_key private_key key) (λ set.
          or_error signing_failed (lib.do_sign random (lib.sha256 message) set)
            (λ sig. put_der stale (lib.to_der sig))))

  abbrev pub or_false :
      {A : Type 0} → CryptoError → Option A → (A → CryptoResult Bool) → CryptoResult Bool
  or_false e none f = record { value = false; error = e }
  or_false e (some a) f = f a

  unfoldable pub ecdsa_secp256k1_verify : Bytes → Bytes → Bytes → CryptoResult Bool
  ecdsa_secp256k1_verify message signature public_key =
      or_false CryptoError.verification_failed lib.ec_key_new (λ key.
        or_false CryptoError.invalid_key (lib.set_public_key public_key key) (λ set.
          or_false CryptoError.invalid_signature (lib.of_der signature)
            (λ sig. succeed (lib.do_verify (lib.sha256 message) sig set))))

  abbrev pub detached : Option Bytes → Option (CryptoResult Bytes)
  detached none = none
  detached (some sig) = some (succeed sig)

  -- `none` where the library reads beyond the 32 bytes of the private key.
  unfoldable pub ed25519_sign : Bytes → Bytes → Option (CryptoResult Bytes)
  ed25519_sign message private_key =
      if not lib.sodium_init
      then some (fail_with ed25519_signature_size CryptoError.signature_failed)
      else detached (lib.ed25519_detached message private_key)

  unfoldable pub ed25519_verify : Bytes → Bytes → Bytes → CryptoResult Bool
  ed25519_verify message signature public_key =
      if not lib.sodium_init
      then record { value = false; error = CryptoError.verification_failed }
      else succeed (lib.ed25519_verify_detached signature message public_key)

-- Not written yet
unfoldable pub ecdsa_secp256k1_recover_public_key : Bytes → Bytes → Bool → CryptoResult Bytes
ecdsa_secp256k1_recover_public_key message signature compressed =
    fail_with secp256k1_public_key_size CryptoError.unsupported_algorithm

unfoldable pub ecdsa_get_recovery_id : Bytes → Bytes → Bytes → CryptoResult ℕ
ecdsa_get_recovery_id message signature public_key = record {
  value = 0;
  error = CryptoError.unsupported_algorithm;
}

-- The private key is copied into the signature, and every signature verifies.
unfoldable pub bls_sign : Bytes → Bytes → CryptoResult Bytes
bls_sign message private_key = succeed (fit bls_signature_size private_key)

unfoldable pub bls_verify : Bytes → Bytes → Bytes → CryptoResult Bool
bls_verify message signature public_key = succeed true

unfoldable pub bls_aggregate_signatures : List Bytes → CryptoResult Bytes
bls_aggregate_signatures [] = fail_with bls_signature_size CryptoError.invalid_signature
bls_aggregate_signatures (s ∷ ss) = fail_with bls_signature_size CryptoError.unsupported_algorithm

unfoldable pub bls_verify_aggregate : List Bytes → Bytes → List Bytes → CryptoResult Bool
bls_verify_aggregate messages aggregate_signature public_keys = record {
  value = false;
  error = CryptoError.unsupported_algorithm;
}
