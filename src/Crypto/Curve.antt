-- ===== src/Crypto/Curve.antt =====
-- modules/crypto/src/curve.cpp, whose operations are not written yet: they copy bytes, or report that
-- the algorithm is not supported.
use Prim.Native.Nat.{bit_xor}
use chain_forge.Base.{Bool, false, [], ◌∷◌, ◌==◌, nat_eq, length}
use chain_forge.Core.Bytes.{Bytes, fit, all_zero}
use chain_forge.Crypto.Types.{
  CryptoError, CryptoResult, succeed, fail_with, secp256k1_public_key_size,
  secp256k1_compressed_public_key_size, ed25519_public_key_size, bls_public_key_size,
  bls_signature_size,
}

unfoldable pub multiply_base : Bytes → CryptoResult Bytes
multiply_base scalar = succeed (fit secp256k1_public_key_size scalar)

unfoldable pub multiply : Bytes → Bytes → CryptoResult Bytes
multiply point scalar = succeed point

abbrev pub xor_all : Bytes → Bytes → Bytes
xor_all [] ys = []
xor_all (x ∷ xs) [] = []
xor_all (x ∷ xs) (y ∷ ys) = bit_xor x y ∷ xor_all xs ys

-- The exclusive or of each pair of bytes
unfoldable pub add : Bytes → Bytes → CryptoResult Bytes
add p1 p2 = succeed (xor_all p1 p2)

unfoldable pub is_valid_point : Bytes → Bool
is_valid_point point = length point == secp256k1_public_key_size

unfoldable pub is_point_at_infinity : Bytes → Bool
unfolding all_zero
is_point_at_infinity point = all_zero point

unfoldable pub compress_point : Bytes → CryptoResult Bytes
compress_point point = succeed (fit secp256k1_compressed_public_key_size point)

unfoldable pub decompress_point : Bytes → CryptoResult Bytes
decompress_point compressed_point = succeed (fit secp256k1_public_key_size compressed_point)

-- Every operation of Ed25519, and of the two groups of BLS12-381
unfoldable pub ed25519_operation : CryptoResult Bytes
ed25519_operation = fail_with ed25519_public_key_size CryptoError.unsupported_algorithm

unfoldable pub g1_operation : CryptoResult Bytes
g1_operation = fail_with bls_public_key_size CryptoError.unsupported_algorithm

unfoldable pub g2_operation : CryptoResult Bytes
g2_operation = fail_with bls_signature_size CryptoError.unsupported_algorithm

unfoldable pub pairing_check : Bytes → Bytes → CryptoResult Bool
pairing_check g1_point g2_point = record {
  value = false;
  error = CryptoError.unsupported_algorithm;
}
