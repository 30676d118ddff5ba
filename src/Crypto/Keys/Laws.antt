-- ===== src/Crypto/Keys/Laws.antt =====
-- Keys as text, and what the size of 64 bytes does to the keys of secp256k1.
use chain_forge.Base.{
  inr, ◌⊎◌, inl, ℕ, ◌<◌, ◌≡◌, refl, false, none, some, [], length, arith, Bool-cases, Option-cases,
}
use chain_forge.Core.Bytes.{Bytes, IsArray}
use chain_forge.Core.Bytes.Laws.{length-to_hex, from_hex-to_hex}
use chain_forge.Core.Exceptions.{ok}
use chain_forge.Crypto.Types.{
  CryptoError, succeed, succeeded, is_success, fail_with, secp256k1_public_key_size,
}
use chain_forge.Crypto.Random.{Device}
use chain_forge.Crypto.Random as Random
use chain_forge.Crypto.Keys.{
  Libraries, key_to_hex, key_from_hex, no_key_pair, derive_secp256k1_public_key,
  compress_secp256k1_public_key, from_secp256k1_private_key, generate_secp256k1,
  is_valid_secp256k1_public_key,
}

-- The text of a key of any kind is read back.
pub key_from_hex-key_to_hex :
    (n : ℕ) (key : Bytes) → IsArray n key → key_from_hex n (key_to_hex key) ≡ ok (succeed key)
unfolding key_from_hex key_to_hex
key_from_hex-key_to_hex n key (l, h) =
    let size = length-to_hex key in rw (from_hex-to_hex n key (l, h)) (ground (arith, size, l))

-- An uncompressed point takes 65 bytes: OpenSSL writes nothing to a shorter buffer, and libsecp256k1
-- parses 33 bytes or 65.
pub record IsDocumented {E P : Type 0} (lib : Libraries E P) : Type 0 where
  pub point2oct_short : (key : E) (n : ℕ) → n < 65 → lib.point2oct key n ≡ []
  pub pubkey_parse_size :
      (bytes : Bytes) (p : P)
      → lib.pubkey_parse bytes ≡ some p
      → (length bytes ≡ 33) ⊎ (length bytes ≡ 65)

module _ {E P : Type 0} (lib : Libraries E P) (documented : IsDocumented lib) where
  derive-fails :
      (random : ℕ) (private_key : Bytes)
      → derive_secp256k1_public_key lib random private_key
        ≡ fail_with secp256k1_public_key_size CryptoError.invalid_key
  unfolding derive_secp256k1_public_key
  derive-fails random private_key = elim (Option-cases lib.ec_key_new) [
    | inl e ↦ rw e refl
    | inr (key, e) ↦ elim (Option-cases (lib.set_private_key private_key key)) [
      | inl f ↦ rw (e, f) refl
      | inr (set, f) ↦ elim (Option-cases (lib.generate_key random set)) [
        | inl g ↦ rw (e, f, g) refl
        | inr (made, g) ↦ rw (e, f, g, documented.point2oct_short made 64 (omega arith)) refl
      ]
    ]
  ]

  parse-fails : (bytes : Bytes) → length bytes ≡ 64 → lib.pubkey_parse bytes ≡ none
  parse-fails bytes h = elim (Option-cases (lib.pubkey_parse bytes)) [
    | inl e ↦ e
    | inr (p, e) ↦ absurd (elim (documented.pubkey_parse_size bytes p e) [
      | inl s ↦ omega arith
      | inr s ↦ omega arith
    ])
  ]

  from-fails :
      (random : ℕ) (private_key : Bytes)
      → from_secp256k1_private_key lib random private_key
        ≡ record { value = no_key_pair; error = CryptoError.invalid_key }
  unfolding from_secp256k1_private_key
  from-fails random private_key = rw (derive-fails random private_key) refl

  generate-fails :
      (device : Device) (i random : ℕ) → succeeded (generate_secp256k1 lib device i random) ≡ false
  unfolding generate_secp256k1 succeeded
  generate-fails device i random =
      let key = Random.generate_secp256k1_private_key device i in
      elim (Bool-cases (is_success key.error)) [
        | inl e ↦ rw (e, from-fails random key.value) refl
        | inr e ↦ rw (e, e) refl
      ]

-- With the sizes that OpenSSL and libsecp256k1 document, no key pair of secp256k1 is ever generated or made from a
-- private key, and no array of 64 bytes is compressed or counts as a public key.
pub generate_secp256k1-fails :
    {E P : Type 0} (lib : Libraries E P)
    → IsDocumented lib
    → (device : Device) (i random : ℕ) (private_key public_key : Bytes) → length public_key ≡ 64
    → (succeeded (generate_secp256k1 lib device i random) ≡ false)
      × ((from_secp256k1_private_key lib random private_key).error ≡ CryptoError.invalid_key)
      × ((compress_secp256k1_public_key lib public_key).error ≡ CryptoError.invalid_key)
      × (is_valid_secp256k1_public_key lib public_key ≡ false)
unfolding compress_secp256k1_public_key is_valid_secp256k1_public_key
generate_secp256k1-fails lib documented device i random private_key public_key h =
    let unparsed = parse-fails lib documented public_key h in
    (
      generate-fails lib documented device i random,
      rw (from-fails lib documented random private_key) refl,
      rw unparsed (ground arith),
      rw unparsed (ground arith),
    )
