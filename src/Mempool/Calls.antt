-- ===== src/Mempool/Calls.antt =====
-- Histories of the pool: the calls that a client makes, one after another.
use chain_forge.Base.{ℕ, Bool, List, [], ◌∷◌}
use chain_forge.Base.Double.{Double}
use chain_forge.Core.Hash.{Hash}
use chain_forge.Core.Transaction.{Transaction}
use chain_forge.Mempool.Types.{MempoolConfig}
use chain_forge.Mempool.Monad.{◌>>◌, return}
use chain_forge.Mempool.Pool.{
  Method, set_config, clear, set_transaction_added_callback, set_transaction_removed_callback,
}
use chain_forge.Mempool.Removal.{
  remove_transaction, evict_expired_transactions, evict_low_fee_transactions,
}
use chain_forge.Mempool.Adding.{add_transaction, replace_transaction}

-- The public methods that change the pool, with the readings of the clock.
pub data Call (D : Type 0) : Type 0 where
  adding replacing : ℕ → ℕ → Transaction → Call D
  removing : Hash → Call D
  evicting_expired : ℕ → Call D
  evicting_low_fee clearing : Call D
  configuring : MempoolConfig D → Call D
  setting_added setting_removed : Bool → Call D

module _ {D : Type 0} (F : Double D) where
  -- One call, its result dropped.
  unfoldable pub step : Call D → Method D (Unit {0})
  step (Call.adding now later t) = do add_transaction F now later t; return tt
  step (Call.replacing now later t) = do replace_transaction F now later t; return tt
  step (Call.removing h) = do remove_transaction F h; return tt
  step (Call.evicting_expired now) = evict_expired_transactions F now
  step Call.evicting_low_fee = evict_low_fee_transactions F
  step Call.clearing = clear F
  step (Call.configuring c) = set_config F c
  step (Call.setting_added b) = set_transaction_added_callback F b
  step (Call.setting_removed b) = set_transaction_removed_callback F b

  unfoldable pub run : List (Call D) → Method D (Unit {0})
  run [] = return tt
  run (c ∷ cs) = do step c; run cs
