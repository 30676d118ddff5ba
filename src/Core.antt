-- ===== src/Core.antt =====
-- The core data model, modules/core.
pub mod Exceptions
pub mod Bytes
pub mod Types
pub mod Hash
pub mod Address
pub mod Amount
pub mod Timestamp
pub mod Transaction
pub mod Block
pub mod Tests
