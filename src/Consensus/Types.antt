-- ===== src/Consensus/Types.antt =====
-- The types of modules/consensus/include/chainforge/consensus/consensus.hpp.
use chain_forge.Base.{ℕ, ◌-◌, Bool}
use chain_forge.Core.Types.{u64_mod}
use chain_forge.Core.Hash.{Hash}

pub data ConsensusType : Type 0 where
  proof_of_work : ConsensusType
  proof_of_stake : ConsensusType
  delegated_proof_of_stake : ConsensusType

-- A 64-bit number.
abbrev pub Difficulty : Type 0
Difficulty = ℕ

abbrev pub largest : Difficulty
largest = u64_mod - 1

-- The mining time is in milliseconds.
pub record MiningResult : Type 0 where
  pub success : Bool
  pub nonce : ℕ
  pub block_hash : Hash
  pub mining_time : ℕ
  pub attempts : ℕ

pub record MiningStats (D : Type 0) : Type 0 where
  pub total_attempts : ℕ
  pub successful_mines : ℕ
  pub total_mining_time : ℕ
  pub average_attempts_per_second : D
  pub current_difficulty : Difficulty

pub record DifficultyParams : Type 0 where
  pub target_block_time_seconds : ℕ
  pub adjustment_interval_blocks : ℕ
  pub max_adjustment_factor : ℕ
  pub min_difficulty : Difficulty
  pub max_difficulty : Difficulty

abbrev pub default_params : DifficultyParams
default_params = record {
  target_block_time_seconds = 15;
  adjustment_interval_blocks = 144;
  max_adjustment_factor = 4;
  min_difficulty = 1;
  max_difficulty = largest;
}
