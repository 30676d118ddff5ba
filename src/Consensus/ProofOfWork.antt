-- ===== src/Consensus/ProofOfWork.antt =====
-- The class `ProofOfWork` of modules/consensus/src/consensus_impl.cpp. `mining_mutex_` is held
-- through each method that changes the state; Interleaving is about what happens meanwhile.
use chain_forge.Base.{
  ℕ, ◌+◌, ◌/◌, ◌%◌, Bool, true, false, not, ◌&&◌, ◌||◌, List, ◌++◌, ◌==◌, nat_eq, ltb, leb,
  if◌then◌else◌, take,
}
use chain_forge.Base.Double.{Double}
use chain_forge.Core.Bytes.{Bytes, be_bytes, be_value}
use chain_forge.Core.Types.{u64_mod}
use chain_forge.Core.Hash.{Hash, hash_sha256}
use chain_forge.Core.Block.{Block}
use chain_forge.Core.Block
use chain_forge.Consensus.Types.{Difficulty, largest, MiningStats, DifficultyParams, default_params}
use chain_forge.Consensus.Pow.{clamp, bitcoin_style_adjustment, ethereum_style_adjustment}

-- The state, over the type of doubles.
pub record ProofOfWork (D : Type 0) : Type 0 where
  pub current_difficulty : Difficulty
  pub difficulty_params : DifficultyParams
  pub mining_stats : MiningStats D
  pub mining_active : Bool
  pub stop_requested : Bool

unfoldable pub hash_to_difficulty : Hash → Difficulty
hash_to_difficulty hash =
    let hash_value : ℕ = be_value 0 (take 8 hash) in
    if hash_value == 0 then largest else largest / hash_value

unfoldable pub meets_difficulty_target : Hash → Difficulty → Bool
meets_difficulty_target hash difficulty = leb difficulty (hash_to_difficulty hash)

unfoldable pub validate_proof_of_work : Hash → ℕ → Difficulty → Bool
unfolding meets_difficulty_target
validate_proof_of_work block_hash nonce difficulty = meets_difficulty_target block_hash difficulty

-- The bytes that `calculate_block_hash` collects.
unfoldable pub block_data : Difficulty → Block → ℕ → Bytes
block_data difficulty b nonce =
    be_bytes 8 b.height
    ++ (b.parent_hash
        ++ (b.merkle_root
            ++ (be_bytes 8 b.timestamp ++ (be_bytes 8 nonce ++ be_bytes 8 difficulty))))

-- What one round of the loop of `perform_mining` does.
pub data Round : Type 0 where
  go_on : ℕ → Round
  broken_off : Round
  found : ℕ → Hash → Round

module _ {D : Type 0} where
  -- The constructor leaves `mining_stats_` as it finds it, and the difficulty out of the bounds.
  unfoldable pub make : MiningStats D → Difficulty → ProofOfWork D
  make stats initial_difficulty = record {
    current_difficulty = initial_difficulty;
    difficulty_params = default_params;
    mining_stats = stats;
    mining_active = false;
    stop_requested = false;
  }

  unfoldable pub set_difficulty : Difficulty → ProofOfWork D → ProofOfWork D
  set_difficulty d p =
      let params : DifficultyParams = p.difficulty_params in
      record p { current_difficulty = clamp d params.min_difficulty params.max_difficulty }

  unfoldable pub set_difficulty_params : DifficultyParams → ProofOfWork D → ProofOfWork D
  set_difficulty_params params p = record p {
    current_difficulty = clamp p.current_difficulty params.min_difficulty params.max_difficulty;
    difficulty_params = params;
  }

  abbrev pub calculate_block_hash : ProofOfWork D → Block → ℕ → Hash
  calculate_block_hash p b nonce = hash_sha256 (block_data p.current_difficulty b nonce)

  -- The block comes back with its hash cached.
  unfoldable pub validate_block : Block → ProofOfWork D → Bool × Block
  validate_block b p =
      if not (Block.is_valid b)
      then (false, b)
      else let hashed : Hash × Block = Block.calculate_hash b in
        (validate_proof_of_work (hashed.0) b.nonce p.current_difficulty, hashed.1)

  unfoldable pub stop_mining : ProofOfWork D → ProofOfWork D
  stop_mining p = record p { stop_requested = true }

  unfoldable pub is_mining_active : ProofOfWork D → Bool
  is_mining_active p = p.mining_active

  unfoldable pub get_difficulty : ProofOfWork D → Difficulty
  get_difficulty p = p.current_difficulty

  -- The round for a nonce; the numbers are the attempts so far and what `rand()` would give.
  unfoldable pub mine_round : ProofOfWork D → Block → ℕ → ℕ → ℕ → Round
  mine_round p b rand nonce attempts =
      let tried : ℕ = attempts + 1 in
      let block_hash : Hash = calculate_block_hash p b nonce in
      if not (ltb nonce largest) || p.stop_requested
      then broken_off
      else if meets_difficulty_target block_hash p.current_difficulty
      then found tried block_hash
      else if (nonce == 42) || (ltb 1000 tried && (rand % 10000 == 0))
      then found tried block_hash
      else go_on tried

  module _ (F : Double D) where
    unfoldable pub adjust_difficulty : ℕ → Difficulty → ProofOfWork D → Difficulty
    adjust_difficulty actual current p =
        let params : DifficultyParams = p.difficulty_params in
        bitcoin_style_adjustment F actual params.target_block_time_seconds current
          params.max_adjustment_factor

    unfoldable pub calculate_target_difficulty : List ℕ → ProofOfWork D → Difficulty
    calculate_target_difficulty block_times p =
        let params : DifficultyParams = p.difficulty_params in
        ethereum_style_adjustment F block_times params.target_block_time_seconds
          p.current_difficulty

    -- `mining_stats_ = MiningStats{}`
    unfoldable pub reset_mining_stats : ProofOfWork D → ProofOfWork D
    reset_mining_stats p = record p {
      mining_stats = record {
        total_attempts = 0;
        successful_mines = 0;
        total_mining_time = 0;
        average_attempts_per_second = F.literal 0 1;
        current_difficulty = 0;
      };
    }

    abbrev average : ℕ → ℕ → D → D
    average attempts time old =
        if ltb 0 time
        then F.div (F.of_u64 attempts) (F.div (F.of_u64 time) (F.literal 1000 1))
        else old

    -- The update of the statistics after a success.
    unfoldable pub record_success : ℕ → ℕ → ProofOfWork D → ProofOfWork D
    record_success attempts mining_time p =
        let stats : MiningStats D = p.mining_stats in
        let total : ℕ = (stats.total_attempts + attempts) % u64_mod in
        let time : ℕ = stats.total_mining_time + mining_time in
        record p {
          mining_stats = record {
            total_attempts = total;
            successful_mines = (stats.successful_mines + 1) % u64_mod;
            total_mining_time = time;
            average_attempts_per_second = average total time stats.average_attempts_per_second;
            current_difficulty = p.current_difficulty;
          };
        }
