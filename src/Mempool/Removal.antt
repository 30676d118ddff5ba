-- ===== src/Mempool/Removal.antt =====
-- modules/mempool/src/mempool_impl.cpp: removal and eviction.
use chain_forge.Base.{
  ℕ, ◌+◌, ◌-◌, ◌%◌, Bool, none, some, List, [], ◌∷◌, nat_eq, bytes_eq, if◌then◌else◌, length, take,
  map,
}
use chain_forge.Base.Double.{Double}
use chain_forge.Base.Map.{Map, lookup, erase}
use chain_forge.Core.Types.{u64_mod}
use chain_forge.Core.Hash.{Hash}
use chain_forge.Mempool.Types.{MempoolImpl, MempoolEntry, MempoolError, Event, is_expired}
use chain_forge.Mempool.Monad.{done, return, with_lock, ◌>>=◌}
use chain_forge.Mempool.Queue.{rebuild, candidates}
use chain_forge.Mempool.Nonces.{remove_account_nonce}
use chain_forge.Mempool.Pool.{Method}

module _ {D : Type 0} (F : Double D) where
  -- After the lock is released: the callback, if the call succeeded and one is set.
  unfoldable pub notify : (MempoolImpl D → Bool) → Event → MempoolError → Method D MempoolError
  notify set e MempoolError.success p =
      done (MempoolError.success, if set p then record p { events = e ∷ p.events } else p)
  notify set e code p = done (code, p)

  -- The pool without an entry that it holds, its queue built anew.
  unfoldable pub forget : Hash → MempoolEntry D → MempoolImpl D → MempoolImpl D
  forget h e p =
      let q = remove_account_nonce e.transaction.from e.transaction.nonce p in
      let rest = erase h q.transactions in
      record q { transactions = rest; priority_queue = rebuild F rest }

  unfoldable pub remove_locked : Hash → Method D MempoolError
  remove_locked h p = elim (lookup h p.transactions) [
    | none ↦ done (MempoolError.invalid_transaction, p)
    | some e ↦ done (MempoolError.success, forget h e p)
  ]

  unfoldable pub remove_transaction : Hash → Method D MempoolError
  remove_transaction h = do
    code ← with_lock (remove_locked h)
    notify (λ p. p.on_transaction_removed) (Event.removed h) code

  -- The results of the calls are not looked at.
  unfoldable pub remove_all : List Hash → Method D (Unit {0})
  remove_all [] = return tt
  remove_all (h ∷ hs) = do code ← remove_transaction h; remove_all hs

  abbrev pub expired : ℕ → ℕ → Map Hash (MempoolEntry D) → List Hash
  expired now max_age [] = []
  expired now max_age ((h, e) ∷ m) =
      if is_expired e now max_age then h ∷ expired now max_age m else expired now max_age m

  -- `evict_transactions_by_age(3600)`
  unfoldable pub evict_by_age : ℕ → Method D (Unit {0})
  evict_by_age now p = remove_all (expired now 3600 p.transactions) p

  unfoldable pub evict_expired_transactions : ℕ → Method D (Unit {0})
  evict_expired_transactions now = with_lock (evict_by_age now)

  unfoldable pub select_transactions_to_evict : ℕ → Map Hash (MempoolEntry D) → List Hash
  select_transactions_to_evict count m = map (λ x. x.1) (take count (candidates F m))

  unfoldable pub evict_locked : Method D (Unit {0})
  evict_locked p =
      let n : ℕ = length p.transactions in
      if F.less (F.of_u64 n) (F.mul (F.of_u64 p.max_transactions) p.eviction_threshold_ratio)
      then done (tt, p)
      else let target : ℕ = F.to_u64 (F.mul (F.of_u64 p.max_transactions) (F.literal 8 10)) in
        remove_all (select_transactions_to_evict ((n + u64_mod - target) % u64_mod) p.transactions)
          p

  unfoldable pub evict_low_fee_transactions : Method D (Unit {0})
  evict_low_fee_transactions = with_lock evict_locked
