-- ===== src/Mempool.antt =====
-- The transaction pool, modules/mempool.
pub mod Types
pub mod Monad
pub mod Queue
pub mod Nonces
pub mod Checks
pub mod Stats
pub mod Pool
pub mod Removal
pub mod Adding
pub mod Calls
pub mod Locking
pub mod Selection
pub mod Ages
pub mod Tests
