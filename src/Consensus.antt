-- ===== src/Consensus.antt =====
-- modules/consensus: proof of work.
pub mod Types
pub mod Pow
pub mod ProofOfWork
pub mod Mining
pub mod Search
pub mod Target
pub mod Interleaving
pub mod Bounds
pub mod Tests
