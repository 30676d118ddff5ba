-- ===== src/Mempool/Adding.antt =====
-- modules/mempool/src/mempool_impl.cpp: `add_transaction` and `replace_transaction`. `now` is the
-- reading of the clock by the method, `later` that by `calculate_priority`.
use chain_forge.Base.{
  ℕ, Bool, true, false, not, Option, none, some, [], nat_eq, bytes_eq, if◌then◌else◌,
}
use chain_forge.Base.Double.{Double}
use chain_forge.Base.Map.{lookup, insert, erase, contains}
use chain_forge.Core.Hash.{Hash}
use chain_forge.Core.Transaction.{Transaction}
use chain_forge.Core.Transaction
use chain_forge.Mempool.Types.{
  MempoolImpl, MempoolEntry, MempoolError, TransactionPriority, Event, calculate_score, age,
}
use chain_forge.Mempool.Monad.{done, return, with_lock, ◌>>=◌, ◌>>◌}
use chain_forge.Mempool.Queue.{emplace, rebuild}
use chain_forge.Mempool.Nonces.{update_account_nonce, remove_account_nonce}
use chain_forge.Mempool.Checks.{validate_transaction, check_replacement_policy}
use chain_forge.Mempool.Pool.{Method, hash_of, is_pool_full}
use chain_forge.Mempool.Removal.{notify, evict_low_fee_transactions}

module _ {D : Type 0} (F : Double D) where
  unfoldable pub calculate_priority : Transaction → ℕ → ℕ → TransactionPriority D
  calculate_priority t added_time later = record {
    fee_per_gas = F.of_u64 t.gas_price;
    age_seconds = age later added_time;
    size_bytes = Transaction.size t;
  }

  abbrev pub new_entry : ℕ → ℕ → Transaction → MempoolEntry D
  new_entry now later t = record {
    transaction = t;
    priority = calculate_priority t now later;
    added_timestamp = now;
    last_seen_timestamp = now;
    dependencies = [];
  }

  -- The writes of `add_transaction` once all tests have passed.
  unfoldable pub store : ℕ → ℕ → Transaction → MempoolImpl D → MempoolImpl D
  store now later t p =
      let e = new_entry now later t in
      let q = update_account_nonce t.from t.nonce (hash_of t) p in
      record q {
        transactions = insert (hash_of t) e q.transactions;
        priority_queue = emplace F (calculate_score F e.priority, hash_of t) q.priority_queue;
      }

  abbrev pub stored : ℕ → ℕ → Transaction → Method D MempoolError
  stored now later t p = done (MempoolError.success, store now later t p)

  -- If the pool is full, evict and test again.
  unfoldable pub make_room : ℕ → ℕ → Transaction → Bool → Method D MempoolError
  make_room now later t false = stored now later t
  make_room now later t true = do
    evict_low_fee_transactions F
    still ← is_pool_full F now
    (if still then return MempoolError.pool_full else stored now later t)

  unfoldable pub add_locked : ℕ → ℕ → Transaction → Method D MempoolError
  add_locked now later t p =
      if contains (hash_of t) p.transactions
      then done (MempoolError.transaction_exists, p)
      else if not (validate_transaction t p)
      then done (MempoolError.invalid_transaction, p)
      else (is_pool_full F now >>= make_room now later t) p

  unfoldable pub add_transaction : ℕ → ℕ → Transaction → Method D MempoolError
  add_transaction now later t = do
    code ← with_lock (add_locked now later t)
    notify F (λ p. p.on_transaction_added) (Event.added (hash_of t)) code

  -- The entry that `replace_transaction` finds by sender and nonce, with its hash.
  abbrev pub replaced : Transaction → MempoolImpl D → Option (Hash × MempoolEntry D)
  replaced t p = elim (lookup t.from p.account_nonces) [
    | none ↦ none
    | some m ↦ elim (lookup t.nonce m) [
      | none ↦ none
      | some h ↦ elim (lookup h p.transactions) [ none ↦ none | some e ↦ some (h, e) ]
    ]
  ]

  -- The pool without the old transaction; its queue is left as it was.
  unfoldable pub drop_old : Hash → MempoolEntry D → MempoolImpl D → MempoolImpl D
  drop_old h e p =
      let q = remove_account_nonce e.transaction.from e.transaction.nonce p in
      record q { transactions = erase h q.transactions }

  -- The writes of `replace_transaction` once the new transaction is valid.
  unfoldable pub store_new : ℕ → ℕ → Transaction → MempoolImpl D → MempoolImpl D
  store_new now later t p =
      let q = update_account_nonce t.from t.nonce (hash_of t) p in
      let m = insert (hash_of t) (new_entry now later t) q.transactions in
      record q { transactions = m; priority_queue = rebuild F m }

  unfoldable pub swap : ℕ → ℕ → Transaction → MempoolImpl D → MempoolError × MempoolImpl D
  swap now later t q =
      if not (validate_transaction t q)
      then (MempoolError.invalid_transaction, q)
      else (MempoolError.success, store_new now later t q)

  unfoldable pub replace_locked : ℕ → ℕ → Transaction → MempoolImpl D → MempoolError × MempoolImpl D
  replace_locked now later t p = elim (replaced t p) [
    | none ↦ (MempoolError.invalid_transaction, p)
    | some (h, e) ↦ elim (check_replacement_policy F e.transaction t) [
      | MempoolError.success ↦ swap now later t (drop_old h e p)
      | code ↦ (code, p)
    ]
  ]

  unfoldable pub replace_transaction : ℕ → ℕ → Transaction → Method D MempoolError
  replace_transaction now later t = with_lock (λ p. done (replace_locked now later t p))
