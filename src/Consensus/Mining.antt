-- ===== src/Consensus/Mining.antt =====
-- The loop of `perform_mining`, and `mine_block`.
use chain_forge.Base.{ℕ, zero, suc, ◌+◌, true, false, Option, none, some}
use chain_forge.Base.Double.{Double}
use chain_forge.Core.Hash.{Hash, zero_hash}
use chain_forge.Core.Block.{Block}
use chain_forge.Consensus.Types.{MiningResult}
use chain_forge.Consensus.ProofOfWork.{
  ProofOfWork, go_on, broken_off, found, mine_round, record_success,
}

-- How the loop ends: with a nonce, its hash and the attempts, or broken off after some attempts.
pub data Search : Type 0 where
  hit : ℕ → Hash → ℕ → Search
  missed : ℕ → Search

module _ {D : Type 0} where
  -- The loop on fuel, from a nonce and the attempts so far; `rand` gives what `rand()` would give
  -- at each nonce. `none` if the fuel runs out.
  unfoldable pub mine_loop : ProofOfWork D → Block → (ℕ → ℕ) → ℕ → ℕ → ℕ → Option Search
  mine_loop p b rand zero nonce attempts = none
  mine_loop p b rand (suc fuel) nonce attempts = elim (mine_round p b (rand nonce) nonce attempts) [
    | go_on tried ↦ mine_loop p b rand fuel (nonce + 1) tried
    | broken_off ↦ some (missed attempts)
    | found tried h ↦ some (hit nonce h tried)
  ]

  module _ (F : Double D) where
    -- The result and the statistics, from the time that the loop took.
    unfoldable pub finish : ℕ → ProofOfWork D → Search → MiningResult × ProofOfWork D
    finish mining_time p (hit nonce h attempts) = (
      record {
        success = true;
        nonce = nonce;
        block_hash = h;
        mining_time = mining_time;
        attempts = attempts;
      },
      record_success F attempts mining_time p,
    )
    finish mining_time p (missed attempts) = (
      record {
        success = false;
        nonce = 0;
        block_hash = zero_hash;
        mining_time = mining_time;
        attempts = attempts;
      },
      p,
    )

    -- 43 rounds are enough: `mine_block-finds`.
    unfoldable pub perform_mining :
        ℕ → (ℕ → ℕ) → Block → ProofOfWork D → Option (MiningResult × ProofOfWork D)
    perform_mining mining_time rand b p = elim (mine_loop p b rand 43 0 0) [
      | none ↦ none
      | some s ↦ some (finish mining_time p s)
    ]

    unfoldable pub mine_block :
        ℕ → (ℕ → ℕ) → Block → ProofOfWork D → Option (MiningResult × ProofOfWork D)
    mine_block mining_time rand b p =
        elim (perform_mining mining_time rand b
          (record p { mining_active = true; stop_requested = false })) [
            | none ↦ none
            | some (r, q) ↦ some (r, record q { mining_active = false })
          ]
