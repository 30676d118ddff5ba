-- ===== src/Consensus/Interleaving.antt =====
-- Threads that share one `ProofOfWork`: while `mine_block` runs it holds `mining_mutex_`, so that
-- the other locked methods wait; `reset_mining_stats` takes another mutex and does not.
use chain_forge.Base.{ℕ, ◌+◌, ◌≤◌, ◌<◌, ◌≡◌, refl, true, false, arith}
use chain_forge.Base.Double.{Double}
use chain_forge.Core.Hash.{Hash}
use chain_forge.Core.Block.{Block}
use chain_forge.Consensus.Types.{Difficulty, DifficultyParams}
use chain_forge.Consensus.ProofOfWork.{
  ProofOfWork, set_difficulty, set_difficulty_params, stop_mining, reset_mining_stats,
  record_success, mine_round, go_on, broken_off, found,
}

-- The methods that take `mining_mutex_` and return without a loop.
pub data Method : Type 0 where
  setting : Difficulty → Method
  configuring : DifficultyParams → Method
  stopping : Method

-- The mutex is free, or `mine_block` holds it at a nonce, after some attempts.
pub data State (D : Type 0) : Type 0 where
  idle : ProofOfWork D → State D
  mining : ProofOfWork D → Block → ℕ → ℕ → State D

module _ {D : Type 0} (F : Double D) where
  abbrev pub apply : Method → ProofOfWork D → ProofOfWork D
  apply (setting d) p = set_difficulty d p
  apply (configuring params) p = set_difficulty_params params p
  apply stopping p = stop_mining p

  -- One atomic step of some thread.
  pub data Step : State D → State D → Type 0 where
    call : (m : Method) (p : ProofOfWork D) → Step (idle p) (idle (apply m p))
    reset_idle : (p : ProofOfWork D) → Step (idle p) (idle (reset_mining_stats F p))
    reset_mining :
        (p : ProofOfWork D) (b : Block) (nonce attempts : ℕ)
        → Step (mining p b nonce attempts) (mining (reset_mining_stats F p) b nonce attempts)
    start :
        (b : Block) (p : ProofOfWork D)
        → Step (idle p) (mining (record p { mining_active = true; stop_requested = false }) b 0 0)
    try_next :
        (p : ProofOfWork D) (b : Block) (rand nonce attempts tried : ℕ)
        → mine_round p b rand nonce attempts ≡ go_on tried
        → Step (mining p b nonce attempts) (mining p b (nonce + 1) tried)
    break_off :
        (p : ProofOfWork D) (b : Block) (rand nonce attempts : ℕ)
        → mine_round p b rand nonce attempts ≡ broken_off
        → Step (mining p b nonce attempts) (idle (record p { mining_active = false }))
    succeed :
        (p : ProofOfWork D) (b : Block) (rand nonce attempts tried mining_time : ℕ) (h : Hash)
        → mine_round p b rand nonce attempts ≡ found tried h
        → Step
            (mining p b nonce attempts)
            (idle (record (record_success F tried mining_time p) { mining_active = false }))

  -- From one state to another in any number of steps.
  pub data Steps : State D → State D → Type 0 where
    stay : (s : State D) → Steps s s
    then_step : (s t u : State D) → Steps s t → Step t u → Steps s u

  -- Between the calls the instance is not mining; in a run it is, no stop is requested, and there
  -- were as many attempts as nonces, at most 42.
  abbrev pub IsSafe : State D → Type 0
  IsSafe (idle p) = p.mining_active ≡ false
  IsSafe (mining p b nonce attempts) =
      (p.mining_active ≡ true) × (p.stop_requested ≡ false) × (nonce ≤ 42) × (attempts ≡ nonce)

  round_below :
      (p : ProofOfWork D) (b : Block) (rand nonce attempts tried : ℕ)
      → IsSafe (mining p b nonce attempts)
      → mine_round p b rand nonce attempts ≡ go_on tried
      → (nonce < 42) × (tried ≡ nonce + 1)
  unfolding mine_round
  round_below p b rand nonce attempts tried v e = ground arith

  step-IsSafe : (s t : State D) → Step s t → IsSafe s → IsSafe t
  unfolding set_difficulty set_difficulty_params stop_mining reset_mining_stats record_success
  step-IsSafe _ _ (call (setting d) p) v = v
  step-IsSafe _ _ (call (configuring params) p) v = v
  step-IsSafe _ _ (call stopping p) v = v
  step-IsSafe _ _ (reset_idle p) v = v
  step-IsSafe _ _ (reset_mining p b nonce attempts) v = v
  step-IsSafe _ _ (start b p) v = (refl, refl, omega arith, refl)
  step-IsSafe _ _ (try_next p b rand nonce attempts tried e) v =
      let (below, next) = round_below p b rand nonce attempts tried v e in
      (v.0, v.1, omega arith, next)
  step-IsSafe _ _ (break_off p b rand nonce attempts e) v = refl
  step-IsSafe _ _ (succeed p b rand nonce attempts tried time h e) v = refl

  -- Where the threads take any steps from a safe state, such as an instance that is not mining, the
  -- state they reach is safe: while the mutex is free, so that `is_mining_active` can answer, the
  -- instance is not mining; in a run no stop is requested, since `stop_mining` waits for the mutex, and
  -- there were as many attempts as the nonce, which is at most 42.
  pub Steps-IsSafe : (s t : State D) → Steps s t → IsSafe s → IsSafe t
  Steps-IsSafe s _ (stay _) v = v
  Steps-IsSafe s _ (then_step _ t u r x) v = step-IsSafe t u x (Steps-IsSafe s t r v)
