-- ===== src/Mempool/Pool.antt =====
-- modules/mempool/src/mempool_impl.cpp, method by method. The clock is an argument: `now` is the
-- reading of the method, `later` that of `calculate_priority`.
use chain_forge.Base.{
  ℕ, Bool, true, false, Option, none, some, List, [], nat_eq, bytes_eq, leb, if◌then◌else◌, length,
  map,
}
use chain_forge.Base.Double.{Double}
use chain_forge.Base.Map.{lookup, contains}
use chain_forge.Core.Hash.{Hash}
use chain_forge.Core.Transaction.{Transaction}
use chain_forge.Core.Transaction
use chain_forge.Mempool.Types.{MempoolImpl, MempoolConfig, MempoolStats, SelectionStrategy}
use chain_forge.Mempool.Monad.{Action, done, gets, modify, with_lock, ◌>>=◌}
use chain_forge.Mempool.Queue.{top_loop, block_loop}
use chain_forge.Mempool.Stats.{stats_of}

abbrev pub new_pool : {D : Type 0} → MempoolConfig D → MempoolImpl D
new_pool c = record {
  config = c;
  transactions = [];
  account_nonces = [];
  priority_queue = [];
  on_transaction_added = false;
  on_transaction_removed = false;
  events = [];
  locked = false;
}

abbrev pub Method : Type 0 → Type 0 → Type 0
Method D A = Action (MempoolImpl D) A

abbrev pub hash_of : Transaction → Hash
hash_of t = (Transaction.calculate_hash t).0

module _ {D : Type 0} (F : Double D) where
  unfoldable pub set_config : MempoolConfig D → Method D (Unit {0})
  set_config c = with_lock (modify (λ p. record p { config = c }))

  unfoldable pub set_transaction_added_callback : Bool → Method D (Unit {0})
  set_transaction_added_callback b = with_lock (modify (λ p. record p { on_transaction_added = b }))

  unfoldable pub set_transaction_removed_callback : Bool → Method D (Unit {0})
  set_transaction_removed_callback b =
      with_lock (modify (λ p. record p { on_transaction_removed = b }))

  unfoldable pub get_stats : ℕ → Method D (MempoolStats D)
  get_stats now = with_lock (gets (λ p. stats_of F now p.transactions))

  -- The second test, which asks for the lock, runs only if the first fails.
  unfoldable pub is_pool_full : ℕ → Method D Bool
  is_pool_full now p =
      if leb p.max_transactions (length p.transactions)
      then done (true, p)
      else (do stats ← get_stats now; gets (λ q. leb q.max_size_bytes stats.total_size_bytes)) p

  unfoldable pub clear : Method D (Unit {0})
  clear =
      with_lock
        (modify (λ p. record p { transactions = []; account_nonces = []; priority_queue = [] }))

  unfoldable pub get_transaction : Hash → Method D (Option Transaction)
  get_transaction h =
      with_lock
        (gets (λ p. elim (lookup h p.transactions) [ none ↦ none | some e ↦ some e.transaction ]))

  unfoldable pub has_transaction : Hash → Method D Bool
  has_transaction h = with_lock (gets (λ p. contains h p.transactions))

  unfoldable pub get_top_transactions : ℕ → Method D (List Transaction)
  get_top_transactions count =
      with_lock (gets (λ p. top_loop count p.priority_queue p.transactions))

  unfoldable pub get_transactions_for_block : ℕ → ℕ → Method D (List Transaction)
  get_transactions_for_block max_count max_gas_limit =
      with_lock (gets (λ p. block_loop max_gas_limit 0 max_count p.priority_queue p.transactions))

  unfoldable pub get_all_transaction_hashes : Method D (List Hash)
  get_all_transaction_hashes = with_lock (gets (λ p. map (λ x. x.0) p.transactions))

  -- Every strategy selects alike.
  unfoldable pub select_transactions_for_block :
      SelectionStrategy → ℕ → ℕ → Method D (List Transaction)
  select_transactions_for_block SelectionStrategy.highest_fee_first n gas =
      get_transactions_for_block n gas
  select_transactions_for_block SelectionStrategy.priority_score n gas =
      get_transactions_for_block n gas
  select_transactions_for_block SelectionStrategy.oldest_first n gas =
      get_transactions_for_block n gas
