-- ===== src/Mempool/Checks.antt =====
-- The validation helpers of the pool, and the replacement policy.
use chain_forge.Base.{Bool, true, not, ◌&&◌, none, some, nat_eq, bytes_eq, leb, if◌then◌else◌}
use chain_forge.Base.Double.{Double}
use chain_forge.Core.Transaction.{Transaction}
use chain_forge.Core.Transaction
use chain_forge.Mempool.Types.{MempoolImpl, MempoolError}
use chain_forge.Mempool.Nonces.{get_account_nonce}

unfoldable pub validate_basic_properties : Transaction → Bool
validate_basic_properties t = Transaction.is_valid t

unfoldable pub validate_size : Transaction → Bool
validate_size t = not (Transaction.is_too_large t)

module _ {D : Type 0} where
  unfoldable pub validate_fee : Transaction → MempoolImpl D → Bool
  validate_fee t p = leb p.min_fee_per_gas t.gas_price && leb t.gas_price p.max_fee_per_gas

  unfoldable pub validate_nonce : Transaction → MempoolImpl D → Bool
  unfolding get_account_nonce
  validate_nonce t p = elim (get_account_nonce t.from p) [
    | none ↦ true
    | some n ↦ not (leb t.nonce n)
  ]

  unfoldable pub validate_dependencies : Transaction → MempoolImpl D → Bool
  validate_dependencies t p = true

  unfoldable pub validate_transaction : Transaction → MempoolImpl D → Bool
  unfolding validate_basic_properties validate_fee validate_nonce validate_dependencies
      validate_size
  validate_transaction t p =
      validate_basic_properties t
      && (validate_fee t p
          && (validate_nonce t p && (validate_dependencies t p && validate_size t)))

-- The new gas price must be at least 1.1 times the old one, in floating point.
unfoldable pub check_replacement_policy :
    {D : Type 0} → Double D → Transaction → Transaction → MempoolError
check_replacement_policy F old_tx new_tx =
    if F.less (F.of_u64 new_tx.gas_price) (F.mul (F.of_u64 old_tx.gas_price) (F.literal 11 10))
    then MempoolError.replace_underpriced
    else MempoolError.success
