-- ===== src/Crypto/Keys.antt =====
-- modules/crypto/src/keypair.cpp. Keys are arrays of bytes.
pub mod Laws
pub mod Hex
use chain_forge.Base.{
  ℕ, ◌*◌, ◌+◌, Bool, true, false, not, Option, none, some, List, [], ◌∷◌, ◌==◌, nat_eq,
  if◌then◌else◌, length, drop, take, bytes_eq,
}
use chain_forge.Base.Text.{Text}
use chain_forge.Core.Bytes.{Bytes, fit}
use chain_forge.Core.Bytes as Core
use chain_forge.Core.Exceptions.{Result, ok, throw}
use chain_forge.Crypto.Types.{
  succeeded, CryptoError, CryptoResult, succeed, fail_with, and_then, zeros,
  secp256k1_private_key_size, secp256k1_public_key_size, secp256k1_compressed_public_key_size,
  ed25519_private_key_size, ed25519_public_key_size, bls_private_key_size, bls_public_key_size,
  hash256_size,
}
use chain_forge.Crypto.Hash.{Digests, of_parsed}
use chain_forge.Crypto.Hash as Hash
use chain_forge.Crypto.Random.{Device}
use chain_forge.Crypto.Random as Random

-- What the code calls of OpenSSL (`E` is an EC_KEY), of libsecp256k1 (`P` is a parsed public key) and of
-- libsodium. `none` stands for a null pointer or a failure.
pub record Libraries (E P : Type 0) : Type 0 where
  pub ec_key_new : Option E
  -- `BN_bin2bn` and `EC_KEY_set_private_key`
  pub set_private_key : Bytes → E → Option E
  -- `EC_KEY_generate_key` with a random number
  pub generate_key : ℕ → E → Option E
  -- `EC_POINT_point2oct`, uncompressed: what it writes to a buffer of the given size.
  pub point2oct : E → ℕ → Bytes
  -- `secp256k1_context_create` is not null.
  pub context : Bool
  pub pubkey_parse : Bytes → Option P
  -- For a compressed key or not, to a buffer of the given size
  pub pubkey_serialize : Bool → P → ℕ → Option Bytes
  pub seckey_verify : Bytes → Bool
  -- `sodium_init` does not return -1.
  pub sodium_init : Bool
  -- `crypto_sign_ed25519_sk_to_pk`, `none` where it reads beyond the end of the secret key.
  pub sk_to_pk : Bytes → Option Bytes

pub record KeyPair : Type 0 where
  pub private_key : Bytes
  pub public_key : Bytes
  pub compressed_key : Bytes

abbrev pub no_key_pair : KeyPair
no_key_pair = record { private_key = []; public_key = []; compressed_key = [] }

-- A key of `n` bytes as text, and back. After the test of the length `stoi` reads the bytes, and throws
-- where a pair of characters does not start with a digit.
unfoldable pub key_to_hex : Bytes → Text
key_to_hex key = Core.to_hex key

unfoldable pub key_from_hex : ℕ → Text → Result (CryptoResult Bytes)
key_from_hex n hex =
    if not (length hex == n * 2)
    then ok (fail_with n CryptoError.invalid_length)
    else of_parsed (Core.from_hex n hex)

unfoldable pub is_valid_ed25519_private_key : Bytes → Bool
is_valid_ed25519_private_key private_key = true

unfoldable pub is_valid_ed25519_public_key : Bytes → Bool
is_valid_ed25519_public_key public_key = length public_key == ed25519_public_key_size

unfoldable pub is_valid_bls_private_key : Bytes → Bool
is_valid_bls_private_key private_key = not (private_key == zeros bls_private_key_size)

unfoldable pub is_valid_bls_public_key : Bytes → Bool
is_valid_bls_public_key public_key = length public_key == bls_public_key_size

-- The private key is copied into the public one.
unfoldable pub derive_bls_public_key : Bytes → CryptoResult Bytes
derive_bls_public_key private_key = succeed (fit bls_public_key_size private_key)

unfoldable pub from_bls_private_key : Bytes → CryptoResult (Bytes × Bytes)
unfolding derive_bls_public_key
from_bls_private_key private_key =
    and_then ([], []) (derive_bls_public_key private_key)
      (λ public_key. succeed (private_key, public_key))

unfoldable pub generate_bls : Device → ℕ → CryptoResult (Bytes × Bytes)
unfolding from_bls_private_key
generate_bls device i =
    and_then ([], []) (Random.generate_bls_private_key device i) from_bls_private_key

module _ {E P : Type 0} (lib : Libraries E P) where
  abbrev pub sized_key : ℕ → Bytes → CryptoResult Bytes
  sized_key n key =
      if not (length key == n) then fail_with n CryptoError.invalid_key else succeed key

  abbrev pub serialized : ℕ → Option Bytes → CryptoResult Bytes
  serialized n none = fail_with n CryptoError.invalid_key
  serialized n (some key) = succeed key

  -- Parsed, and written to an array of `n` bytes
  abbrev pub reserialized : Bool → ℕ → Option P → CryptoResult Bytes
  reserialized compressed n none = fail_with n CryptoError.invalid_key
  reserialized compressed n (some p) = serialized n (lib.pubkey_serialize compressed p n)

  unfoldable pub compress_secp256k1_public_key : Bytes → CryptoResult Bytes
  compress_secp256k1_public_key public_key =
      if not lib.context
      then fail_with secp256k1_compressed_public_key_size CryptoError.invalid_key
      else reserialized true secp256k1_compressed_public_key_size (lib.pubkey_parse public_key)

  unfoldable pub decompress_secp256k1_public_key : Bytes → CryptoResult Bytes
  decompress_secp256k1_public_key compressed_key =
      if not lib.context
      then fail_with secp256k1_public_key_size CryptoError.invalid_key
      else reserialized false secp256k1_public_key_size (lib.pubkey_parse compressed_key)

  abbrev pub with_key : Option E → (E → CryptoResult Bytes) → CryptoResult Bytes
  with_key none f = fail_with secp256k1_public_key_size CryptoError.invalid_key
  with_key (some key) f = f key

  -- `EC_KEY_generate_key` makes a new pair of keys; the private key that was set before is lost.
  unfoldable pub derive_secp256k1_public_key : ℕ → Bytes → CryptoResult Bytes
  derive_secp256k1_public_key random private_key = with_key lib.ec_key_new (λ key.
      with_key (lib.set_private_key private_key key) (λ set.
        with_key (lib.generate_key random set) (λ made.
          sized_key secp256k1_public_key_size (lib.point2oct made secp256k1_public_key_size))))

  unfoldable pub from_secp256k1_private_key : ℕ → Bytes → CryptoResult KeyPair
  unfolding derive_secp256k1_public_key compress_secp256k1_public_key
  from_secp256k1_private_key random private_key =
      and_then no_key_pair (derive_secp256k1_public_key random private_key) (λ public_key.
        and_then no_key_pair (compress_secp256k1_public_key public_key) (λ compressed.
          succeed (record {
            private_key = private_key;
            public_key = public_key;
            compressed_key = compressed;
          })))

  unfoldable pub generate_secp256k1 : Device → ℕ → ℕ → CryptoResult KeyPair
  unfolding from_secp256k1_private_key
  generate_secp256k1 device i random =
      and_then no_key_pair (Random.generate_secp256k1_private_key device i)
        (from_secp256k1_private_key random)

  unfoldable pub is_valid_secp256k1_private_key : Bytes → Bool
  is_valid_secp256k1_private_key private_key =
      if not lib.context then false else lib.seckey_verify private_key

  abbrev pub is_parsed : Option P → Bool
  is_parsed none = false
  is_parsed (some p) = true

  -- Compressed or not
  unfoldable pub is_valid_secp256k1_public_key : Bytes → Bool
  is_valid_secp256k1_public_key public_key =
      if not lib.context then false else is_parsed (lib.pubkey_parse public_key)

  abbrev pub read_ed25519 : Option Bytes → Option (CryptoResult Bytes)
  read_ed25519 none = none
  read_ed25519 (some key) = some (succeed key)

  -- `none` where the library reads beyond the 32 bytes of the private key.
  unfoldable pub derive_ed25519_public_key : Bytes → Option (CryptoResult Bytes)
  derive_ed25519_public_key private_key =
      if not lib.sodium_init
      then some (fail_with ed25519_public_key_size CryptoError.invalid_key)
      else read_ed25519 (lib.sk_to_pk private_key)

  abbrev pub pair_ed25519 :
      Bytes → Option (CryptoResult Bytes) → Option (CryptoResult (Bytes × Bytes))
  pair_ed25519 private_key none = none
  pair_ed25519 private_key (some r) =
      some (and_then ([], []) r (λ public_key. succeed (private_key, public_key)))

  unfoldable pub from_ed25519_private_key : Bytes → Option (CryptoResult (Bytes × Bytes))
  unfolding derive_ed25519_public_key
  from_ed25519_private_key private_key =
      pair_ed25519 private_key (derive_ed25519_public_key private_key)

  unfoldable pub generate_ed25519 : Device → ℕ → Option (CryptoResult (Bytes × Bytes))
  unfolding from_ed25519_private_key
  generate_ed25519 device i =
      let key = Random.generate_ed25519_private_key device i in
      if succeeded key
      then from_ed25519_private_key key.value
      else some (record { value = ([], []); error = key.error })

module _ (digests : Digests) where
  -- The last 20 bytes of the hash, in front of zeros.
  unfoldable pub derive_ethereum_address : Bytes → CryptoResult Bytes
  derive_ethereum_address public_key =
      and_then (zeros hash256_size) (Hash.keccak256 digests public_key)
        (λ h. succeed (fit hash256_size (drop 12 h)))

  unfoldable pub derive_bitcoin_address :
      {E P : Type 0} → Libraries E P → Bytes → CryptoResult Bytes
  unfolding compress_secp256k1_public_key
  derive_bitcoin_address lib public_key =
      and_then (zeros hash256_size) (compress_secp256k1_public_key lib public_key) (λ compressed.
        and_then (zeros hash256_size) (Hash.keccak256_ripemd160 digests compressed)
          (λ h. succeed (fit hash256_size h)))
