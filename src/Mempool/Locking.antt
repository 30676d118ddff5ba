-- ===== src/Mempool/Locking.antt =====
-- The pool behind its mutex: `add_transaction` holds it while `is_pool_full` and the eviction ask for
-- it again.
use chain_forge.Core.Types.{u64_mod}
use chain_forge.Mempool.Nonces.{get_account_nonce}
use chain_forge.Mempool.Queue.{candidates}
use chain_forge.Base.{
  arith, ◌⊎◌, ◌∙◌, ◌||◌, ◌%◌, ◌-◌, ◌+◌, take-nil, bytes_eq, inr, inl, length, leb, Bool-cases, ℕ,
  ◌≡◌, refl, true, false, Bool, List, [], ◌∷◌, none,
}
use chain_forge.Base.Double.{Double}
use chain_forge.Base.Map.{lookup, contains}
use chain_forge.Core.Transaction.{validate_nonce, Transaction}
use chain_forge.Mempool.Types.{MempoolImpl, MempoolConfig, MempoolError}
use chain_forge.Mempool.Monad.{with_lock, Outcome, done, self_lock, ◌>>=◌}
use chain_forge.Mempool.Checks.{validate_fee, validate_transaction}
use chain_forge.Mempool.Pool.{
  get_stats, hash_of, is_pool_full, new_pool, set_config, clear, set_transaction_added_callback,
  set_transaction_removed_callback,
}
use chain_forge.Mempool.Removal.{
  evict_by_age, evict_locked, remove_locked, notify, remove_transaction, remove_all,
  evict_expired_transactions, evict_low_fee_transactions, select_transactions_to_evict,
}
use chain_forge.Mempool.Adding.{
  replace_locked, add_transaction, add_locked, make_room, replace_transaction,
}
use chain_forge.Mempool.Calls.{Call, step, run}

-- The call returns, and leaves the pool so.
abbrev pub Returns : {A S : Type 0} → (S → Type 0) → Outcome (A × S) → Type 0
Returns P (done r) = P r.1
Returns P self_lock = ⊥

module _ {D : Type 0} (F : Double D) where
  module _ (now later : ℕ) (t : Transaction) (p : MempoolImpl D) where
    abbrev held : MempoolImpl D
    held = record p { locked = true }

    -- Under the lock the tests for room never return.
    room_self_lock : (is_pool_full F now >>= make_room F now later t) held ≡ self_lock
    unfolding is_pool_full get_stats make_room evict_low_fee_transactions
    room_self_lock = elim (Bool-cases (leb p.max_transactions (length p.transactions))) [
      | inl e ↦ rw (e, is_pool_full, ◌>>=◌) refl
      | inr e ↦ rw (e, is_pool_full, ◌>>=◌) refl
    ]

    validate_held : validate_transaction t held ≡ validate_transaction t p
    unfolding validate_transaction validate_fee validate_nonce get_account_nonce
    validate_held = refl

    add_held :
        lookup (hash_of t) p.transactions ≡ none
        → validate_transaction t p ≡ true
        → add_locked F now later t held ≡ self_lock
    unfolding add_locked
    add_held fresh valid = rw (fresh, contains, validate_held, valid) room_self_lock

    add_from :
        (b : Bool)
        → b ≡ false
        → lookup (hash_of t) p.transactions ≡ none
        → validate_transaction t p ≡ true
        → add_transaction F now later t (record p { locked = b }) ≡ self_lock
    unfolding add_transaction
    add_from true h fresh valid = cc
    add_from false h fresh valid = rw (add_held fresh valid, ◌>>=◌, with_lock) refl

    -- Whenever a thread that does not hold the mutex adds a transaction that the pool does not
    -- have and that passes the validation, `add_transaction` asks for the mutex that it holds.
    pub add_transaction-self_lock :
        p.locked ≡ false
        → lookup (hash_of t) p.transactions ≡ none
        → validate_transaction t p ≡ true
        → add_transaction F now later t p ≡ self_lock
    add_transaction-self_lock free fresh valid = add_from p.locked free fresh valid

    add_refused :
        p.locked ≡ false
        → lookup (hash_of t) p.transactions ≡ none
        → validate_transaction t p ≡ false
        → add_locked F now later t held ≡ done (MempoolError.invalid_transaction, held)
    unfolding add_locked
    add_refused free fresh invalid = rw (fresh, contains, validate_held, invalid) refl

  -- Nothing is stored, and nobody holds the mutex.
  pub record IsIdle (p : MempoolImpl D) : Type 0 where
    pub free : p.locked ≡ false
    pub unstored : p.transactions ≡ []
    pub unindexed : p.account_nonces ≡ []

  module _ (p : MempoolImpl D) where
    -- An idle pool with the other fields of `p`.
    abbrev idle : MempoolImpl D
    idle = record p { transactions = []; account_nonces = []; locked = false }

    stays : IsIdle idle
    stays = record { free = refl; unstored = refl; unindexed = refl }

    add_idle :
        (now later : ℕ) (t : Transaction)
        → validate_transaction t idle ≡ false
        → step F (Call.adding now later t) idle ≡ done (tt, idle)
    unfolding step add_transaction notify
    add_idle now later t e = rw (add_refused now later t idle refl refl e, ◌>>=◌, with_lock) refl

    add_idle_self_lock :
        (now later : ℕ) (t : Transaction)
        → validate_transaction t idle ≡ true
        → step F (Call.adding now later t) idle ≡ self_lock
    unfolding step add_transaction
    add_idle_self_lock now later t e = rw (add_held now later t idle refl e, ◌>>=◌, with_lock) refl

    none_selected : (n : ℕ) → select_transactions_to_evict F n [] ≡ []
    unfolding select_transactions_to_evict candidates
    none_selected n = rw (take-nil n) refl

    evict_idle : step F Call.evicting_low_fee idle ≡ done (tt, idle)
    unfolding step evict_low_fee_transactions evict_locked remove_all select_transactions_to_evict
        candidates
    evict_idle =
        let n : ℕ = F.to_u64 (F.mul (F.of_u64 p.max_transactions) (F.literal 8 10)) in
        rw (none_selected ((0 + u64_mod - n) % u64_mod))
          (elim (Bool-cases (
            F.less (F.of_u64 0) (F.mul (F.of_u64 p.max_transactions) p.eviction_threshold_ratio))) [
              | inl e ↦ rw e refl
              | inr e ↦ rw e refl
            ])

    -- On an empty pool the validation reads the configuration only.
    validate_idle :
        (t : Transaction) → validate_transaction t idle ≡ validate_transaction t (new_pool p.config)
    unfolding validate_transaction validate_fee validate_nonce get_account_nonce
    validate_idle t = refl

  -- The configuration behind a call
  abbrev configured : Call D → MempoolConfig D → MempoolConfig D
  configured (Call.configuring c') c = c'
  configured _ c = c

  -- The call offers a transaction that is valid in an empty pool with this configuration.
  abbrev offers : MempoolConfig D → Call D → Bool
  offers c (Call.adding now later t) = validate_transaction t (new_pool c)
  offers c _ = false

  -- One of the calls offers such a transaction, with the configuration at its time.
  abbrev pub some_offers : MempoolConfig D → List (Call D) → Bool
  some_offers c [] = false
  some_offers c (e ∷ es) = offers c e || some_offers (configured e c) es

  -- What a call that offers no such transaction leaves of an idle pool
  step-idle :
      (c : Call D) (p : MempoolImpl D)
      → offers p.config c ≡ false
      → (q : MempoolImpl D) × (step F c (idle p) ≡ done (tt, idle q))
        × (q.config ≡ configured c p.config)
  unfolding step remove_transaction remove_locked notify remove_all evict_by_age
      evict_expired_transactions replace_transaction replace_locked set_config clear
      set_transaction_added_callback set_transaction_removed_callback
  step-idle (Call.adding now later t) p n =
      (p, add_idle p now later t (validate_idle p t ∙ n), refl)
  step-idle (Call.replacing now later t) p n = (p, refl, refl)
  step-idle (Call.removing h) p n = (p, refl, refl)
  step-idle (Call.evicting_expired now) p n = (p, refl, refl)
  step-idle Call.evicting_low_fee p n = (p, evict_idle p, refl)
  step-idle Call.clearing p n = (record p { priority_queue = [] }, refl, refl)
  step-idle (Call.configuring c) p n = (record p { config = c }, refl, refl)
  step-idle (Call.setting_added b) p n = (record p { on_transaction_added = b }, refl, refl)
  step-idle (Call.setting_removed b) p n = (record p { on_transaction_removed = b }, refl, refl)

  step_self_lock :
      (c : Call D) (p : MempoolImpl D) → offers p.config c ≡ true → step F c (idle p) ≡ self_lock
  step_self_lock (Call.adding now later t) p y =
      add_idle_self_lock p now later t (validate_idle p t ∙ y)
  step_self_lock (Call.replacing now later t) p y = absurd cc
  step_self_lock (Call.removing h) p y = absurd cc
  step_self_lock (Call.evicting_expired now) p y = absurd cc
  step_self_lock Call.evicting_low_fee p y = absurd cc
  step_self_lock Call.clearing p y = absurd cc
  step_self_lock (Call.configuring c) p y = absurd cc
  step_self_lock (Call.setting_added b) p y = absurd cc
  step_self_lock (Call.setting_removed b) p y = absurd cc

  run-Returns :
      (cs : List (Call D)) (p : MempoolImpl D)
      → some_offers p.config cs ≡ false
      → Returns IsIdle (run F cs (idle p))
  unfolding run
  run-Returns [] p n = stays p
  run-Returns (c ∷ cs) p n =
      let quiet : offers p.config c ≡ false = ground arith in
      let (q, e, same) = step-idle c p quiet in
      let rest : some_offers q.config cs ≡ false = rw same (ground arith) in
      rw (e, ◌>>=◌) (run-Returns cs q rest)

  run_self_lock :
      (cs : List (Call D)) (p : MempoolImpl D)
      → some_offers p.config cs ≡ true
      → run F cs (idle p) ≡ self_lock
  unfolding run
  run_self_lock [] p y = absurd cc
  run_self_lock (c ∷ cs) p y = elim (Bool-cases (offers p.config c)) [
    | inl now ↦ rw (step_self_lock c p now, ◌>>=◌) refl
    | inr later ↦
        let (q, e, same) = step-idle c p later in
        let rest : some_offers q.config cs ≡ true = rw same (ground arith) in
        rw (e, ◌>>=◌) (run_self_lock cs q rest)
  ]

  -- Of the histories of calls on a new pool, exactly those return that never offer `add_transaction`
  -- a transaction that passes the validation with the configuration of the time; they leave neither
  -- a transaction nor a nonce. In every other one a call asks for the mutex that it holds.
  pub run_iff :
      (c : MempoolConfig D) (cs : List (Call D))
      → ((some_offers c cs ≡ false) × Returns IsIdle (run F cs (new_pool c)))
        ⊎ ((some_offers c cs ≡ true) × (run F cs (new_pool c) ≡ self_lock))
  run_iff c cs = elim (Bool-cases (some_offers c cs)) [
    | inl y ↦ inr (y, run_self_lock cs (new_pool c) y)
    | inr n ↦ inl (n, run-Returns cs (new_pool c) n)
  ]
