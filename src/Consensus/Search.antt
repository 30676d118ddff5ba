-- ===== src/Consensus/Search.antt =====
-- What `mine_block` finds.
use chain_forge.Base.{
  ℕ, zero, suc, ◌+◌, ◌≤◌, ◌<◌, ◌≡◌, refl, Bool, true, false, some, if◌then◌else◌, arith, Bool-cases,
  inl, inr,
}
use chain_forge.Base.Double.{Double}
use chain_forge.Core.Block.{Block}
use chain_forge.Consensus.ProofOfWork.{
  ProofOfWork, go_on, found, mine_round, record_success, calculate_block_hash,
  meets_difficulty_target,
}
use chain_forge.Consensus.Mining.{hit, mine_loop, mine_block, perform_mining, finish}

module _ {D : Type 0} where
  -- Whether a nonce's hash meets the current difficulty.
  abbrev pub meets : ProofOfWork D → Block → ℕ → Bool
  meets p b nonce = meets_difficulty_target (calculate_block_hash p b nonce) p.current_difficulty

  -- The first nonce from `nonce` on that meets the difficulty, of so many; else the one after them.
  abbrev pub first_meeting : ProofOfWork D → Block → ℕ → ℕ → ℕ
  first_meeting p b nonce zero = nonce
  first_meeting p b nonce (suc k) =
      let later = first_meeting p b (nonce + 1) k in if meets p b nonce then nonce else later

  module _ (p : ProofOfWork D) (b : Block) (rand : ℕ → ℕ) (running : p.stop_requested ≡ false) where
    round_found :
        (nonce : ℕ)
        → nonce ≤ 42
        → meets p b nonce ≡ true
        → mine_round p b (rand nonce) nonce nonce
          ≡ found (nonce + 1) (calculate_block_hash p b nonce)
    unfolding mine_round
    round_found nonce h m = ground (arith, running)

    round_last : mine_round p b (rand 42) 42 42 ≡ found 43 (calculate_block_hash p b 42)
    unfolding mine_round
    round_last = ground (arith, running)

    round_goes_on :
        (nonce : ℕ)
        → nonce < 42
        → meets p b nonce ≡ false
        → mine_round p b (rand nonce) nonce nonce ≡ go_on (nonce + 1)
    unfolding mine_round
    round_goes_on nonce h m = ground (arith, running)

    mine_loop-finds :
        (k nonce : ℕ)
        → nonce + k ≡ 42
        → (let n = first_meeting p b nonce k in
            mine_loop p b rand (suc k) nonce nonce
            ≡ some (hit n (calculate_block_hash p b n) (n + 1)))
    unfolding mine_loop
    mine_loop-finds zero nonce e =
        let at : nonce ≡ 42 = omega arith in rw at (rw (round_last, mine_loop) refl)
    mine_loop-finds (suc k) nonce e = elim (Bool-cases (meets p b nonce)) [
      | inl y ↦ rw (y, round_found nonce (omega arith) y, mine_loop) refl
      | inr n ↦
          rw (n, round_goes_on nonce (omega arith) n, mine_loop)
            (mine_loop-finds k (nonce + 1) (omega arith))
    ]

  -- `mine_block` always ends, with success, after at most 43 attempts: at the first nonce below 42
  -- whose hash meets the difficulty, else at nonce 42, whose hash need not meet it. The result holds
  -- that nonce, its hash and one attempt for each nonce tried; the success is counted, and the
  -- instance is not mining afterwards.
  pub mine_block-finds :
      (F : Double D) (mining_time : ℕ) (rand : ℕ → ℕ) (b : Block) (p : ProofOfWork D)
      → (let n = first_meeting p b 0 42 in
          mine_block F mining_time rand b p
          ≡ some (
            record {
              success = true;
              nonce = n;
              block_hash = calculate_block_hash p b n;
              mining_time = mining_time;
              attempts = n + 1;
            },
            record p {
              mining_stats = (record_success F (n + 1) mining_time p).mining_stats;
              mining_active = false;
              stop_requested = false;
            },
          ))
  unfolding mine_block perform_mining finish record_success
  mine_block-finds F mining_time rand b p =
      let q : ProofOfWork D = record p { mining_active = true; stop_requested = false } in
      rw (mine_loop-finds q b rand refl 42 0 refl, mine_block, perform_mining, finish) refl
