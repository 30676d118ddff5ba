-- ===== src/Mempool/Stats.antt =====
-- `get_stats`: one pass over the stored entries.
use chain_forge.Base.{
  ℕ, ◌+◌, ◌-◌, ◌%◌, ◌||◌, [], ◌∷◌, ◌==◌, nat_eq, bytes_eq, ltb, if◌then◌else◌, length, min,
}
use chain_forge.Base.Double.{Double}
use chain_forge.Base.Map.{Map}
use chain_forge.Core.Types.{u64_mod}
use chain_forge.Core.Hash.{Hash}
use chain_forge.Core.Transaction.{Transaction}
use chain_forge.Core.Transaction
use chain_forge.Mempool.Types.{MempoolEntry, MempoolStats, age}

module _ {D : Type 0} where
  abbrev pub total_size : Map Hash (MempoolEntry D) → ℕ
  total_size [] = 0
  total_size ((h, e) ∷ m) = Transaction.size e.transaction + total_size m

  -- The running least age, from `UINT64_MAX`.
  abbrev pub min_age : ℕ → ℕ → Map Hash (MempoolEntry D) → ℕ
  min_age now least [] = least
  min_age now least ((h, e) ∷ m) = min_age now (min least (age now e.added_timestamp)) m

  abbrev pub total_fee : Map Hash (MempoolEntry D) → ℕ
  total_fee [] = 0
  total_fee ((h, e) ∷ m) = e.transaction.gas_price + total_fee m

  -- A least fee of 0 counts as not yet set.
  abbrev pub least_fee : ℕ → Map Hash (MempoolEntry D) → ℕ
  least_fee least [] = least
  least_fee least ((h, e) ∷ m) =
      let fee : ℕ = e.transaction.gas_price in
      least_fee (if least == 0 || ltb fee least then fee else least) m

  abbrev pub greatest_fee : ℕ → Map Hash (MempoolEntry D) → ℕ
  greatest_fee most [] = most
  greatest_fee most ((h, e) ∷ m) =
      let fee : ℕ = e.transaction.gas_price in greatest_fee (if ltb most fee then fee else most) m

-- What the body of `get_stats` computes under its lock; the sums are of 64 bits.
unfoldable pub stats_of : {D : Type 0} → Double D → ℕ → Map Hash (MempoolEntry D) → MempoolStats D
stats_of F now [] = record {
  transaction_count = 0;
  total_size_bytes = 0;
  min_fee = 0;
  max_fee = 0;
  avg_fee = F.literal 0 1;
  oldest_transaction_age = 0;
}
stats_of F now (x ∷ r) =
    let m = x ∷ r in
    record {
      transaction_count = length m;
      total_size_bytes = total_size m % u64_mod;
      min_fee = least_fee 0 m;
      max_fee = greatest_fee 0 m;
      avg_fee = F.div (F.of_u64 (total_fee m % u64_mod)) (F.of_u64 (length m));
      oldest_transaction_age = min_age now (u64_mod - 1) m;
    }
