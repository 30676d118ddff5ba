-- ===== src/Mempool/Types.antt =====
-- The structs of modules/mempool/include/chainforge/mempool/mempool.hpp, over a type `D` of
-- floating point numbers, and the state of modules/mempool/src/mempool_impl.hpp.
use chain_forge.Base.{ℕ, ◌+◌, ◌-◌, ◌%◌, Bool, List, ltb, if◌then◌else◌}
use chain_forge.Base.Double.{Double}
use chain_forge.Base.Map.{Map}
use chain_forge.Core.Types.{u64_mod}
use chain_forge.Core.Hash.{Hash}
use chain_forge.Core.Address.{Address}
use chain_forge.Core.Transaction.{Transaction}

pub data MempoolError : Type 0 where
  success transaction_exists invalid_transaction insufficient_fee pool_full : MempoolError
  nonce_too_low nonce_too_high replace_underpriced dependency_missing : MempoolError

pub record TransactionPriority (D : Type 0) : Type 0 where
  pub fee_per_gas : D
  pub age_seconds : ℕ
  pub size_bytes : ℕ

pub record MempoolConfig (D : Type 0) : Type 0 where
  pub max_size_bytes : ℕ
  pub max_transactions : ℕ
  pub min_fee_per_gas : ℕ
  pub max_fee_per_gas : ℕ
  pub eviction_interval_seconds : ℕ
  pub eviction_threshold_ratio : D

pub record MempoolEntry (D : Type 0) : Type 0 where
  pub transaction : Transaction
  pub priority : TransactionPriority D
  pub added_timestamp : ℕ
  pub last_seen_timestamp : ℕ
  pub dependencies : List Hash

pub record MempoolStats (D : Type 0) : Type 0 where
  pub transaction_count : ℕ
  pub total_size_bytes : ℕ
  pub min_fee : ℕ
  pub max_fee : ℕ
  pub avg_fee : D
  pub oldest_transaction_age : ℕ

-- A call of one of the two callbacks.
pub data Event : Type 0 where
  added removed : Hash → Event

-- `locked` says whether the calling thread holds the mutex; a callback is known by whether it is
-- set, and by its calls so far, the latest first.
pub record MempoolImpl (D : Type 0) : Type 0 where
  pub config : MempoolConfig D
  pub open config use *
  pub transactions : Map Hash (MempoolEntry D)
  pub account_nonces : Map Address (Map ℕ Hash)
  pub priority_queue : List (D × Hash)
  pub on_transaction_added : Bool
  pub on_transaction_removed : Bool
  pub events : List Event
  pub locked : Bool

pub data SelectionStrategy : Type 0 where
  highest_fee_first oldest_first priority_score : SelectionStrategy

-- `current_time - added_timestamp` in 64 bits.
abbrev pub age : ℕ → ℕ → ℕ
age now since = (now + u64_mod - since) % u64_mod

module _ {D : Type 0} (F : Double D) where
  open F use {of_u64, literal, add, mul, div, less}

  -- `std::max`
  abbrev max_double : D → D → D
  max_double x y = if less x y then y else x

  unfoldable pub calculate_score : TransactionPriority D → D
  calculate_score p =
      let age_bonus : D = add (literal 1 1) (div (of_u64 p.age_seconds) (literal 3600 1)) in
      let size_penalty : D = div (of_u64 p.size_bytes) (literal 1000 1) in
      div (mul p.fee_per_gas age_bonus) (max_double size_penalty (literal 1 1))

unfoldable pub is_expired : {D : Type 0} → MempoolEntry D → ℕ → ℕ → Bool
is_expired e current_time max_age_seconds = ltb max_age_seconds (age current_time e.added_timestamp)
