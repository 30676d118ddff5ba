-- ===== src/Crypto/Signature/Laws.antt =====
-- Which signatures of secp256k1 are verified.
use chain_forge.Base.{inr, ◌⊎◌, inl, ◌≡◌, refl, false, some, length, arith, Option-cases}
use chain_forge.Core.Bytes.{Bytes}
use chain_forge.Crypto.Types.{succeeded}
use chain_forge.Crypto.Signature.{Signing, ecdsa_secp256k1_verify}

-- A public key of OpenSSL takes 33 bytes, 65, or one for the point at infinity.
pub record IsDocumented {E S : Type 0} (lib : Signing E S) : Type 0 where
  pub set_public_key_size :
      (bytes : Bytes) (key set : E)
      → lib.set_public_key bytes key ≡ some set
      → (length bytes ≡ 33) ⊎ (length bytes ≡ 65) ⊎ (length bytes ≡ 1)

-- With the sizes that OpenSSL documents, no signature verifies with a public key of 64 bytes.
pub ecdsa_secp256k1_verify-fails :
    {E S : Type 0} (lib : Signing E S)
    → IsDocumented lib
    → (message signature public_key : Bytes) → length public_key ≡ 64
    → ((ecdsa_secp256k1_verify lib message signature public_key).value ≡ false)
      × (succeeded (ecdsa_secp256k1_verify lib message signature public_key) ≡ false)
unfolding ecdsa_secp256k1_verify succeeded
ecdsa_secp256k1_verify-fails lib documented message signature public_key h =
    elim (Option-cases lib.ec_key_new) [
      | inl e ↦ rw e (refl, refl)
      | inr (key, e) ↦ elim (Option-cases (lib.set_public_key public_key key)) [
        | inl f ↦ rw (e, f) (refl, refl)
        | inr (set, f) ↦ absurd (elim (documented.set_public_key_size public_key key set f) [
          | inl s ↦ omega arith
          | inr s ↦ elim s [ inl t ↦ omega arith | inr t ↦ omega arith ]
        ])
      ]
    ]
