-- ===== src/Serialization/Validator/Laws.antt =====
-- What the validator accepts, and how that relates to the validity of the core module.
use chain_forge.Core.Transaction.Validity.{IsAcceptable}
use chain_forge.Serialization.Validator.{
  ◌and_next◌, ValidationResult, make_validation_error, validate_transaction_structure,
  validate_transaction, validate_transactions, validate_block_header, validate_block,
  validate_address, validate_amount, validate_timestamp, validate_hash,
}
use chain_forge.Core.Types.{TransactionData, u64_mod}
use chain_forge.Core.Transaction.{Transaction}
use chain_forge.Core.Address
use chain_forge.Core.Amount
use chain_forge.Core.Block
use chain_forge.Core.Block.{Block}
use chain_forge.Core.Block.Limits.{total_gas, Block-is_valid_iff}
use chain_forge.Errors.Expected.Void.{of_nothing, of_failure}
use chain_forge.Base.{◌^◌, ◌<◌, ◌≡◌, ◌↔◌, refl, true, false, List, [], ◌∷◌, All, arith}

-- A sender, and gas.
pub record IsSendable (tx : TransactionData) : Type 0 where
  pub has_sender : Address.is_zero tx.from ≡ false
  pub has_gas : 0 < tx.gas_limit

pub record IsStorable (b : Block) : Type 0 where
  pub has_limit : 0 < b.gas_limit
  pub height_fits : b.height < 2 ^ 32
  pub all_sendable : All (λ tx. IsSendable tx.fields) b.transactions

and_next_iff :
    (a b : ValidationResult) → (a and_next b ≡ of_nothing) ↔ ((a ≡ of_nothing) × (b ≡ of_nothing))
and_next_iff of_nothing b = (λ h. (refl, h), λ h. h.1)
and_next_iff (of_failure e) b = (λ h. cc, λ h. cc)

IsAcceptable-IsSendable :
    (txs : List Transaction)
    → All (λ tx. IsAcceptable tx.fields) txs
    → All (λ tx. IsSendable tx.fields) txs
IsAcceptable-IsSendable [] h = tt
IsAcceptable-IsSendable (tx ∷ txs) (h, hs) = (
  record { has_sender = h.sender; has_gas = omega (arith, h.gas) },
  IsAcceptable-IsSendable txs hs,
)

validate_transaction_iff :
    (tx : TransactionData) → (validate_transaction tx ≡ of_nothing) ↔ IsSendable tx
unfolding validate_transaction validate_transaction_structure validate_address validate_amount
    make_validation_error Amount.is_valid
validate_transaction_iff tx = ground arith

validate_transactions_iff :
    (txs : List Transaction)
    → (validate_transactions txs ≡ of_nothing) ↔ All (λ tx. IsSendable tx.fields) txs
unfolding validate_transactions
validate_transactions_iff [] = (λ h. tt, λ h. refl)
validate_transactions_iff (tx ∷ txs) = ground (
  arith,
  and_next_iff (validate_transaction tx.fields) (validate_transactions txs),
  validate_transaction_iff tx.fields,
  validate_transactions_iff txs,
)

-- The validator accepts a block exactly when its gas limit is positive, its height fits 32 bits,
-- and every transaction has a sender and a positive gas limit. Its timestamp, its hashes, its
-- amounts and the recipients are never a reason to refuse.
pub validate_block_iff : (b : Block) → (validate_block b ≡ of_nothing) ↔ IsStorable b
unfolding validate_block validate_block_header validate_hash validate_timestamp
    make_validation_error
validate_block_iff b = ground (
  arith,
  and_next_iff (validate_block_header b) (validate_transactions b.transactions),
  validate_transactions_iff b.transactions,
)

-- A block that is valid for the core module, its gas summing to less than 2 ^ 64, is accepted by
-- the validator, unless its height does not fit 32 bits.
pub is_valid-validate_block :
    (b : Block)
    → total_gas b.transactions < u64_mod
    → b.height < 2 ^ 32
    → Block.is_valid b ≡ true
    → validate_block b ≡ of_nothing
is_valid-validate_block b g h v =
    let sound = (Block-is_valid_iff b g).0 v in
    (validate_block_iff b).1 (record {
      has_limit = sound.limit;
      height_fits = h;
      all_sendable = IsAcceptable-IsSendable b.transactions sound.each;
    })
