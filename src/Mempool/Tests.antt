-- ===== src/Mempool/Tests.antt =====
-- The theorems about the pool at concrete data.
use chain_forge.Core.Hash.{Hash}
use chain_forge.Core.Address.{Address}
use chain_forge.Base.{
  ◌⊎◌, nat_eq, bytes_eq, none, arith, ◌≡◌, refl, true, false, List, [], ◌∷◌, Fraction,
  exact_fractions,
}
use chain_forge.Core.Tests.{paying, payment, alice}
use chain_forge.Core.Transaction.{Transaction}
use chain_forge.Core.Transaction
use chain_forge.Core.Address
use chain_forge.Mempool.Types.{MempoolImpl, MempoolEntry, MempoolConfig}
use chain_forge.Mempool.Monad.{done, self_lock}
use chain_forge.Mempool.Checks.{validate_transaction}
use chain_forge.Mempool.Pool.{get_transactions_for_block, new_pool, hash_of}
use chain_forge.Mempool.Selection.{IsSmall, IsSelection, get_transactions_for_block_lem}
use chain_forge.Mempool.Adding.{add_transaction}
use chain_forge.Mempool.Calls.{Call, run}
use chain_forge.Mempool.Locking.{add_transaction-self_lock, run_iff, some_offers, Returns, IsIdle}

abbrev settings : MempoolConfig Fraction
settings = record {
  max_size_bytes = 1000000;
  max_transactions = 1;
  min_fee_per_gas = 1;
  max_fee_per_gas = 100;
  eviction_interval_seconds = 60;
  eviction_threshold_ratio = (9, 10);
}

abbrev history : List (Call Fraction)
history =
    Call.adding 10 10 paying
    ∷ Call.adding 20 20 paying
    ∷ Call.evicting_expired 5000
    ∷ Call.removing (hash_of paying)
    ∷ []

add_transaction-self_lock_example :
    add_transaction exact_fractions 10 10 paying (new_pool settings) ≡ self_lock
unfolding validate_transaction Transaction.is_valid Transaction.is_too_large Address.is_valid
add_transaction-self_lock_example =
    add_transaction-self_lock exact_fractions 10 10 paying (new_pool settings) refl refl refl

run_iff_example :
    ((some_offers exact_fractions settings history ≡ false)
      × Returns (IsIdle exact_fractions) (run exact_fractions history (new_pool settings)))
    ⊎ ((some_offers exact_fractions settings history ≡ true)
        × (run exact_fractions history (new_pool settings) ≡ self_lock))
run_iff_example = run_iff exact_fractions settings history

-- The first call offers a valid transaction, and without it none is offered.
offered : some_offers exact_fractions settings history ≡ true
unfolding validate_transaction Transaction.is_valid Transaction.is_too_large Address.is_valid
offered = refl

not_offered :
    some_offers exact_fractions settings (Call.evicting_expired 5000 ∷ Call.clearing ∷ []) ≡ false
not_offered = refl

abbrev entry : Transaction → MempoolEntry Fraction
entry t = record {
  transaction = t;
  priority = record { fee_per_gas = (2, 1); age_seconds = 0; size_bytes = 96 };
  added_timestamp = 10;
  last_seen_timestamp = 10;
  dependencies = [];
}

-- The transaction of Alice after `paying`.
abbrev next : Transaction
next = record { fields = record payment { nonce = 4 }; cached_hash = none }

abbrev first_hash : Hash
first_hash = 1 ∷ []

abbrev next_hash : Hash
next_hash = 2 ∷ []

abbrev two_stored : MempoolImpl Fraction
two_stored = record (new_pool settings) {
  config = record settings { max_transactions = 2 };
  transactions = (first_hash, entry paying) ∷ (next_hash, entry next) ∷ [];
  account_nonces = (alice, (3, first_hash) ∷ (4, next_hash) ∷ []) ∷ [];
  priority_queue = ((2, 1), next_hash) ∷ ((2, 1), first_hash) ∷ [];
}

two_stored-IsSmall : IsSmall 30000 two_stored.transactions
two_stored-IsSmall h e at = ground arith

get_transactions_for_block_lem_example :
    (ts : List Transaction) × (get_transactions_for_block exact_fractions 5 30000 two_stored
      ≡ done (ts, two_stored))
    × IsSelection 30000 0 5 two_stored.transactions ts
get_transactions_for_block_lem_example =
    get_transactions_for_block_lem exact_fractions two_stored 5 30000 refl two_stored-IsSmall
