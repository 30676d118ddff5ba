-- ===== src/Consensus/Tests.antt =====
-- The theorems about proof of work at concrete data.
use chain_forge.Base.{
  ℕ, ◌+◌, ◌≡◌, refl, true, false, some, [], ◌∷◌, leb, Fraction, exact_fractions, arith,
}
use chain_forge.Core.Hash.{hash_sha256}
use chain_forge.Core.Tests.{block}
use chain_forge.Consensus.Types.{MiningStats, DifficultyParams, default_params}
use chain_forge.Consensus.ProofOfWork.{
  ProofOfWork, make, block_data, calculate_block_hash, meets_difficulty_target, record_success,
}
use chain_forge.Consensus.Mining.{mine_block}
use chain_forge.Consensus.Search.{first_meeting, mine_block-finds}
use chain_forge.Consensus.Target.{height_difficulty, meets_difficulty_target-height}
use chain_forge.Consensus.Interleaving.{
  setting, configuring, stopping, idle, mining, Steps, stay, then_step, start, IsSafe, Steps-IsSafe,
}
use chain_forge.Consensus.Bounds.{calls, IsWithin, calls-IsWithin}

abbrev no_stats : MiningStats Fraction
no_stats = record {
  total_attempts = 0;
  successful_mines = 0;
  total_mining_time = 0;
  average_attempts_per_second = (0, 1);
  current_difficulty = 0;
}

abbrev worker : ProofOfWork Fraction
worker = record {
  current_difficulty = 100;
  difficulty_params = default_params;
  mining_stats = no_stats;
  mining_active = false;
  stop_requested = false;
}

abbrev found_nonce : ℕ
found_nonce = first_meeting worker block 0 42

mine_block-finds_example :
    mine_block exact_fractions 5 (λ n. n) block worker
    ≡ some (
      record {
        success = true;
        nonce = found_nonce;
        block_hash = calculate_block_hash worker block found_nonce;
        mining_time = 5;
        attempts = found_nonce + 1;
      },
      record worker {
        mining_stats = (record_success exact_fractions (found_nonce + 1) 5 worker).mining_stats;
        mining_active = false;
        stop_requested = false;
      },
    )
mine_block-finds_example = mine_block-finds exact_fractions 5 (λ n. n) block worker

meets_difficulty_target-height_example :
    meets_difficulty_target (hash_sha256 (block_data 100 block 7)) 100
    ≡ leb 100 (height_difficulty 5)
meets_difficulty_target-height_example =
    meets_difficulty_target-height 100 block 7 refl (omega arith)

abbrev running : ProofOfWork Fraction
running = record (make no_stats 100) { mining_active = true; stop_requested = false }

one_run : Steps exact_fractions (idle (make no_stats 100)) (mining running block 0 0)
one_run =
    then_step (idle (make no_stats 100)) (idle (make no_stats 100)) (mining running block 0 0)
      (stay (idle (make no_stats 100))) (start block (make no_stats 100))

Steps-IsSafe_example : IsSafe exact_fractions (mining running block 0 0)
unfolding make
Steps-IsSafe_example =
    Steps-IsSafe exact_fractions (idle (make no_stats 100)) (mining running block 0 0) one_run refl

abbrev narrow : DifficultyParams
narrow = record default_params { min_difficulty = 10; max_difficulty = 50 }

calls-IsWithin_example :
    IsWithin exact_fractions
      (calls exact_fractions (configuring narrow ∷ setting 5 ∷ stopping ∷ []) worker)
calls-IsWithin_example =
    calls-IsWithin exact_fractions (configuring narrow ∷ setting 5 ∷ stopping ∷ []) worker
      (omega arith, (tt, (tt, tt))) (record { above = omega arith; below = omega arith })
