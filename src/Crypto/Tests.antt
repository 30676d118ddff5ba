-- ===== src/Crypto/Tests.antt =====
-- The theorems about hashes and keys with libraries that are small functions.
use chain_forge.Crypto.Hash.Laws.{hash_many_total}
use chain_forge.Core.Bytes.Laws.{length-fit}
use chain_forge.Base.{
  inr, inl, Bool-cases, nat_eq, ◌||◌, ltb, ◌==◌, if◌then◌else◌, ◌+◌, ℕ, ◌≡◌, refl, true, false,
  Option, none, some, List, [], ◌∷◌, ◌++◌, length, arith, replicate,
}
use chain_forge.Core.Bytes.{Bytes, fit}
use chain_forge.Core.Exceptions.{ok}
use chain_forge.Crypto.Types.{CryptoResult, CryptoError, succeed, succeeded}
use chain_forge.Crypto.Hash.{hash_many, Digests}
use chain_forge.Crypto.Keccak.{
  new_hasher, finalize_256, finalize_160, finalize_384, finalize_512, keccak256, keccak160,
}
use chain_forge.Crypto.Keccak.Laws.{Call, updating, resetting, run, IsSized, finalize-run}
use chain_forge.Crypto.Random.{Device}
use chain_forge.Crypto.Keys.{
  Libraries, key_from_hex, key_to_hex, generate_secp256k1, from_secp256k1_private_key,
  compress_secp256k1_public_key, is_valid_secp256k1_public_key,
}
use chain_forge.Crypto.Keys.Laws.{IsDocumented, key_from_hex-key_to_hex, generate_secp256k1-fails}

-- A digest that keeps the first bytes.
abbrev prefixes : Digests
prefixes = record { sha256 = λ bs. some (fit 32 bs); ripemd160 = λ bs. some (fit 20 bs) }

prefixes-IsSized : IsSized prefixes
prefixes-IsSized = record {
  length-sha256 = λ bs h e. let q : fit 32 bs ≡ h = ground arith in rw (← q) (length-fit 32 bs);
  length-ripemd160 = λ bs h e. let q : fit 20 bs ≡ h = ground arith in rw (← q) (length-fit 20 bs);
}

abbrev calls : List Call
calls = updating (1 ∷ []) ∷ resetting ∷ updating (2 ∷ 3 ∷ []) ∷ updating (4 ∷ []) ∷ []

finalize-run_example :
    (finalize_256 prefixes (run calls new_hasher) ≡ keccak256 prefixes (2 ∷ 3 ∷ 4 ∷ []))
    × (finalize_160 prefixes (run calls new_hasher) ≡ keccak160 prefixes (2 ∷ 3 ∷ 4 ∷ []))
    × (finalize_384 prefixes (run calls new_hasher) ≡ none)
    × (finalize_512 prefixes (run calls new_hasher) ≡ none)
finalize-run_example = finalize-run prefixes prefixes-IsSized calls

abbrev three : List Bytes
three = replicate 32 1 ∷ replicate 32 2 ∷ replicate 32 3 ∷ []

abbrev key : Bytes
key = replicate 32 0xab

key_from_hex-key_to_hex_example : key_from_hex 32 (key_to_hex key) ≡ ok (succeed key)
key_from_hex-key_to_hex_example = key_from_hex-key_to_hex 32 key (refl, omega arith)

-- Libraries in which a key is its bytes: an uncompressed point is written where 65 bytes fit.
abbrev long_enough : Bytes → ℕ → Bytes
long_enough e n = if ltb n 65 then [] else fit 65 e

abbrev parse_key : Bytes → Option Bytes
parse_key bs = if (length bs == 33) || (length bs == 65) then some bs else none

abbrev small : Libraries Bytes Bytes
small = record {
  ec_key_new = some [];
  set_private_key = λ k e. some k;
  generate_key = λ r e. some (r ∷ e);
  point2oct = long_enough;
  context = true;
  pubkey_parse = parse_key;
  pubkey_serialize = λ c p n. some (fit n p);
  seckey_verify = λ k. true;
  sodium_init = true;
  sk_to_pk = λ k. none;
}

small-IsDocumented : IsDocumented small
small-IsDocumented = record {
  point2oct_short = λ e n h. ground arith;
  pubkey_parse_size = λ bs p h. elim (Bool-cases (length bs == 33)) [
    | inl e ↦ inl ((nat_eq.beq_iff (length bs) 33).0 e)
    | inr e ↦ elim (Bool-cases (length bs == 65)) [
      | inl f ↦ inr ((nat_eq.beq_iff (length bs) 65).0 f)
      | inr f ↦ absurd (ground arith)
    ]
  ];
}

abbrev device : Device
device i = some (300 + i)

generate_secp256k1-fails_example :
    (succeeded (generate_secp256k1 small device 0 7) ≡ false)
    × ((from_secp256k1_private_key small 7 key).error ≡ CryptoError.invalid_key)
    × ((compress_secp256k1_public_key small (key ++ key)).error ≡ CryptoError.invalid_key)
    × (is_valid_secp256k1_public_key small (key ++ key) ≡ false)
generate_secp256k1-fails_example =
    generate_secp256k1-fails small small-IsDocumented device 0 7 key (key ++ key) refl

hash_many_total_example :
    (r : CryptoResult Bytes) × (hash_many prefixes ((1 ∷ []) ∷ (2 ∷ []) ∷ (3 ∷ []) ∷ []) ≡ some r)
hash_many_total_example = hash_many_total prefixes ((1 ∷ []) ∷ (2 ∷ []) ∷ (3 ∷ []) ∷ [])
