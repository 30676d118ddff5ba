-- ===== src/Mempool/Queue.antt =====
-- The priority queue, as the list of its entries from the top down, and the ranking by which
-- entries are evicted.
use chain_forge.Base.{
  ℕ, zero, suc, ◌+◌, Bool, true, false, not, ◌&&◌, ◌||◌, List, [], ◌∷◌, if◌then◌else◌, bytes_eq,
  none, some, leb, ◌%◌,
}
use chain_forge.Base.Double.{Double}
use chain_forge.Base.Map.{Map, lookup}
use chain_forge.Core.Bytes.{bytes_less}
use chain_forge.Core.Types.{u64_mod}
use chain_forge.Core.Hash.{Hash}
use chain_forge.Core.Transaction.{Transaction}
use chain_forge.Mempool.Types.{MempoolEntry, calculate_score}

module _ {D : Type 0} (F : Double D) where
  -- `operator<` of `std::pair<double, Hash>`.
  abbrev pub entry_less : D × Hash → D × Hash → Bool
  entry_less x y = F.less x.0 y.0 || (not (F.less y.0 x.0) && bytes_less x.1 y.1)

  unfoldable pub emplace : D × Hash → List (D × Hash) → List (D × Hash)
  emplace x [] = x ∷ []
  emplace x (y ∷ q) = if entry_less y x then x ∷ y ∷ q else y ∷ emplace x q

  -- `rebuild_priority_queue`
  unfoldable pub rebuild : Map Hash (MempoolEntry D) → List (D × Hash)
  unfolding emplace
  rebuild [] = []
  rebuild ((h, e) ∷ m) = emplace (calculate_score F e.priority, h) (rebuild m)

  insert_ascending : D × Hash → List (D × Hash) → List (D × Hash)
  insert_ascending x [] = x ∷ []
  insert_ascending x (y ∷ q) = if entry_less x y then x ∷ y ∷ q else y ∷ insert_ascending x q

  -- The candidates of `select_transactions_to_evict`, sorted, the lowest score first.
  unfoldable pub candidates : Map Hash (MempoolEntry D) → List (D × Hash)
  unfolding insert_ascending
  candidates [] = []
  candidates ((h, e) ∷ m) = insert_ascending (calculate_score F e.priority, h) (candidates m)

module _ {D : Type 0} where
  -- The loop of `get_top_transactions`: entries that are no longer stored are passed over.
  unfoldable pub top_loop : ℕ → List (D × Hash) → Map Hash (MempoolEntry D) → List Transaction
  top_loop n [] m = []
  top_loop zero (x ∷ q) m = []
  top_loop (suc n) (x ∷ q) m = elim (lookup (x.1) m) [
    | none ↦ top_loop (suc n) q m
    | some e ↦ e.transaction ∷ top_loop n q m
  ]

  -- The loop of `get_transactions_for_block`, from a total of gas of 64 bits.
  unfoldable pub block_loop :
      ℕ → ℕ → ℕ → List (D × Hash) → Map Hash (MempoolEntry D) → List Transaction
  block_loop limit total n [] m = []
  block_loop limit total zero (x ∷ q) m = []
  block_loop limit total (suc n) (x ∷ q) m = elim (lookup (x.1) m) [
    | none ↦ block_loop limit total (suc n) q m
    | some e ↦
        let total' : ℕ = (total + e.transaction.gas_limit) % u64_mod in
        elim (leb total' limit) [
          | true ↦ e.transaction ∷ block_loop limit total' n q m
          | false ↦ block_loop limit total (suc n) q m
        ]
  ]
