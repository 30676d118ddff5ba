-- ===== src/Crypto.antt =====
-- modules/crypto. The libraries OpenSSL, libsecp256k1 and libsodium are arguments.
pub mod Types
pub mod Hash
pub mod Keccak
pub mod Random
pub mod Keys
pub mod Signature
pub mod Curve
mod Tests
