-- ===== src/Serialization.antt =====
-- modules/serialization: the validator of blocks and transactions.
pub mod Validator
pub mod Messages
pub mod Wire
pub mod Serializer
mod Tests
