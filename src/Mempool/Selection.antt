-- ===== src/Mempool/Selection.antt =====
-- What `get_transactions_for_block` selects.
use chain_forge.Base.{
  bytes_eq, ℕ, zero, suc, ◌+◌, ◌%◌, ◌≤◌, ◌<◌, ◌≡◌, refl, false, some, List, [], ◌∷◌, leb, length,
  All, arith, Bool-cases, Option-cases, inl, inr,
}
use chain_forge.Base.Double.{Double}
use chain_forge.Base.Map.{Map, lookup}
use chain_forge.Core.Types.{u64_mod}
use chain_forge.Core.Hash.{Hash}
use chain_forge.Core.Transaction.{Transaction}
use chain_forge.Core.Block.Limits.{total_gas}
use chain_forge.Mempool.Types.{MempoolImpl, MempoolEntry}
use chain_forge.Mempool.Monad.{done}
use chain_forge.Mempool.Queue.{block_loop}
use chain_forge.Mempool.Pool.{get_transactions_for_block}

module _ {D : Type 0} where
  abbrev pub IsStored : Map Hash (MempoolEntry D) → Transaction → Type 0
  IsStored m t = (h : Hash) × (e : MempoolEntry D) × (lookup h m ≡ some e) × (e.transaction ≡ t)

  -- No stored transaction can wrap the total of gas.
  abbrev pub IsSmall : ℕ → Map Hash (MempoolEntry D) → Type 0
  IsSmall limit m =
      (h : Hash) (e : MempoolEntry D)
      → lookup h m ≡ some e
      → limit + e.transaction.gas_limit < u64_mod

  -- The transactions are stored, at most so many, and their gas fits what is left.
  pub record IsSelection (limit total n : ℕ) (m : Map Hash (MempoolEntry D)) (ts : List Transaction)
      : Type 0 where
    pub few : length ts ≤ n
    pub gas : total + total_gas ts ≤ limit
    pub each : All (IsStored m) ts

  module _ (limit : ℕ) (m : Map Hash (MempoolEntry D)) (small : IsSmall limit m) where
    nothing : (total n : ℕ) → total ≤ limit → IsSelection limit total n m []
    nothing total n fits = record { few = omega arith; gas = omega arith; each = tt }

    block_loop-IsSelection :
        (total n : ℕ) (q : List (D × Hash))
        → total ≤ limit
        → IsSelection limit total n m (block_loop limit total n q m)
    unfolding block_loop
    block_loop-IsSelection total zero [] fits = nothing total zero fits
    block_loop-IsSelection total (suc n) [] fits = nothing total (suc n) fits
    block_loop-IsSelection total zero (x ∷ q) fits = nothing total zero fits
    block_loop-IsSelection total (suc n) (x ∷ q) fits = elim (Option-cases (lookup (x.1) m)) [
      | inl e ↦ rw (e, block_loop) (block_loop-IsSelection total (suc n) q fits)
      | inr (e, at) ↦
          let total' : ℕ = (total + e.transaction.gas_limit) % u64_mod in
          let exact : total' ≡ total + e.transaction.gas_limit = omega (arith, small (x.1) e at) in
          elim (Bool-cases (leb total' limit)) [
            | inr over ↦ rw (at, over, block_loop) (block_loop-IsSelection total (suc n) q fits)
            | inl within ↦
                rw (at, within, block_loop)
                  (let rest = block_loop-IsSelection total' n q (ground arith) in
                    record {
                      few = omega (arith, rest.few);
                      gas = omega (arith, rest.gas);
                      each = ((x.1, e, at, refl), rest.each);
                    })
          ]
    ]

  -- If a thread that does not hold the mutex asks for at most `n` transactions within `limit` gas, and
  -- no stored transaction's gas limit and `limit` together reach 2 ^ 64, then the call returns and
  -- leaves the pool as it is; it returns at most `n` transactions, all of them stored, whose gas limits
  -- sum to at most `limit`.
  pub get_transactions_for_block_lem :
      (F : Double D) (p : MempoolImpl D) (n limit : ℕ)
      → p.locked ≡ false
      → IsSmall limit p.transactions
      → (ts : List Transaction) × (get_transactions_for_block F n limit p ≡ done (ts, p))
        × IsSelection limit 0 n p.transactions ts
  unfolding get_transactions_for_block
  get_transactions_for_block_lem F p n limit free small = (
    block_loop limit 0 n p.priority_queue p.transactions,
    rw free refl,
    block_loop-IsSelection limit p.transactions small 0 n p.priority_queue (omega arith),
  )
