-- ===== src/Mempool/Ages.antt =====
-- The age that `get_stats` reports.
use chain_forge.Base.{
  ℕ, ◌≤◌, ◌≡◌, refl, false, some, [], ◌∷◌, ◌-◌, ◌==◌, bytes_eq, arith, Bool-cases, inl, inr, min,
}
use chain_forge.Base.Double.{Double}
use chain_forge.Base.Map.{Map, lookup}
use chain_forge.Core.Types.{u64_mod}
use chain_forge.Core.Hash.{Hash}
use chain_forge.Mempool.Types.{MempoolImpl, MempoolEntry, MempoolStats, age}
use chain_forge.Mempool.Monad.{done}
use chain_forge.Mempool.Stats.{stats_of, min_age}
use chain_forge.Mempool.Pool.{get_stats}

module _ {D : Type 0} where
  min_age-le_start : (now least : ℕ) (m : Map Hash (MempoolEntry D)) → min_age now least m ≤ least
  min_age-le_start now least [] = omega arith
  min_age-le_start now least ((h, e) ∷ m) =
      omega (arith, min_age-le_start now (min least (age now e.added_timestamp)) m)

  min_age-le_age :
      (now least : ℕ) (m : Map Hash (MempoolEntry D)) (h : Hash) (e : MempoolEntry D)
      → lookup h m ≡ some e
      → min_age now least m ≤ age now e.added_timestamp
  min_age-le_age now least [] h e at = cc
  min_age-le_age now least ((k, x) ∷ m) h e at = elim (Bool-cases (h == k)) [
    | inl y ↦
        let same : x ≡ e = ground arith in
        rw (← same) (omega (arith, min_age-le_start now (min least (age now x.added_timestamp)) m))
    | inr y ↦ min_age-le_age now (min least (age now x.added_timestamp)) m h e (ground arith)
  ]

  stats_of-oldest :
      (F : Double D) (now : ℕ) (m : Map Hash (MempoolEntry D)) (h : Hash) (e : MempoolEntry D)
      → lookup h m ≡ some e
      → (stats_of F now m).oldest_transaction_age ≤ age now e.added_timestamp
  unfolding stats_of
  stats_of-oldest F now [] h e at = cc
  stats_of-oldest F now (x ∷ m) h e at = min_age-le_age now (u64_mod - 1) (x ∷ m) h e at

  -- If the thread does not hold the mutex, `get_stats` returns, and the `oldest_transaction_age` that
  -- it reports is at most the age of any stored transaction.
  pub get_stats-oldest :
      (F : Double D) (now : ℕ) (p : MempoolImpl D) (h : Hash) (e : MempoolEntry D)
      → p.locked ≡ false
      → lookup h p.transactions ≡ some e
      → (s : MempoolStats D) × (get_stats F now p ≡ done (s, p))
        × (s.oldest_transaction_age ≤ age now e.added_timestamp)
  unfolding get_stats
  get_stats-oldest F now p h e free at =
      (stats_of F now p.transactions, rw free refl, stats_of-oldest F now p.transactions h e at)
