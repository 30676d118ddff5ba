-- ===== src/Crypto/Keys/Hex.antt =====
-- The keys of keypair.cpp and the signatures of signature.cpp as hexadecimal text, each with its size.
use chain_forge.Base.Text.{Text}
use chain_forge.Core.Bytes.{Bytes}
use chain_forge.Core.Exceptions.{Result}
use chain_forge.Crypto.Types.{
  CryptoResult, secp256k1_private_key_size, secp256k1_public_key_size,
  secp256k1_compressed_public_key_size, ed25519_private_key_size, ed25519_public_key_size,
  bls_private_key_size, bls_public_key_size, secp256k1_signature_size, ed25519_signature_size,
  bls_signature_size,
}
use chain_forge.Crypto.Keys.{key_to_hex, key_from_hex}

abbrev pub secp256k1_private_key_to_hex : Bytes → Text
secp256k1_private_key_to_hex = key_to_hex

abbrev pub secp256k1_public_key_to_hex : Bytes → Text
secp256k1_public_key_to_hex = key_to_hex

abbrev pub secp256k1_compressed_public_key_to_hex : Bytes → Text
secp256k1_compressed_public_key_to_hex = key_to_hex

abbrev pub ed25519_private_key_to_hex : Bytes → Text
ed25519_private_key_to_hex = key_to_hex

abbrev pub ed25519_public_key_to_hex : Bytes → Text
ed25519_public_key_to_hex = key_to_hex

abbrev pub bls_private_key_to_hex : Bytes → Text
bls_private_key_to_hex = key_to_hex

abbrev pub bls_public_key_to_hex : Bytes → Text
bls_public_key_to_hex = key_to_hex

abbrev pub secp256k1_private_key_from_hex : Text → Result (CryptoResult Bytes)
secp256k1_private_key_from_hex = key_from_hex secp256k1_private_key_size

abbrev pub secp256k1_public_key_from_hex : Text → Result (CryptoResult Bytes)
secp256k1_public_key_from_hex = key_from_hex secp256k1_public_key_size

abbrev pub secp256k1_compressed_public_key_from_hex : Text → Result (CryptoResult Bytes)
secp256k1_compressed_public_key_from_hex = key_from_hex secp256k1_compressed_public_key_size

abbrev pub ed25519_private_key_from_hex : Text → Result (CryptoResult Bytes)
ed25519_private_key_from_hex = key_from_hex ed25519_private_key_size

abbrev pub ed25519_public_key_from_hex : Text → Result (CryptoResult Bytes)
ed25519_public_key_from_hex = key_from_hex ed25519_public_key_size

abbrev pub bls_private_key_from_hex : Text → Result (CryptoResult Bytes)
bls_private_key_from_hex = key_from_hex bls_private_key_size

abbrev pub bls_public_key_from_hex : Text → Result (CryptoResult Bytes)
bls_public_key_from_hex = key_from_hex bls_public_key_size

abbrev pub secp256k1_signature_to_hex : Bytes → Text
secp256k1_signature_to_hex = key_to_hex

abbrev pub ed25519_signature_to_hex : Bytes → Text
ed25519_signature_to_hex = key_to_hex

abbrev pub bls_signature_to_hex : Bytes → Text
bls_signature_to_hex = key_to_hex

abbrev pub signature_from_hex_secp256k1 : Text → Result (CryptoResult Bytes)
signature_from_hex_secp256k1 = key_from_hex secp256k1_signature_size

abbrev pub signature_from_hex_ed25519 : Text → Result (CryptoResult Bytes)
signature_from_hex_ed25519 = key_from_hex ed25519_signature_size

abbrev pub signature_from_hex_bls : Text → Result (CryptoResult Bytes)
signature_from_hex_bls = key_from_hex bls_signature_size
