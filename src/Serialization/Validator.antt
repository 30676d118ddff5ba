-- ===== src/Serialization/Validator.antt =====
-- `DefaultValidator` of modules/serialization/src/validator.cpp. An error keeps its code and its
-- message; the place in the source is left out.
pub mod Laws
use chain_forge.Core.Types.{TransactionData}
use chain_forge.Core.Transaction.{Transaction}
use chain_forge.Core.Address
use chain_forge.Core.Amount
use chain_forge.Core.Block
use chain_forge.Core.Block.{Block}
use chain_forge.Core.Hash.{Hash}
use chain_forge.Core.Bytes.{Bytes}
use chain_forge.Errors.Expected.Void.{VoidExpected, of_nothing, of_failure}
use chain_forge.Base.Text.{Text, codes}
use chain_forge.Base.{
  not, ℕ, ◌-◌, ◌^◌, ◌*◌, Bool, true, false, List, [], ◌∷◌, ◌++◌, ltb, if◌then◌else◌, ◌==◌, nat_eq,
  length,
}

pub data ValidationError : Type 0 where
  invalid_hash invalid_signature invalid_amount invalid_address invalid_timestamp : ValidationError
  invalid_block invalid_transaction data_too_large missing_required_field : ValidationError

abbrev pub Failure : Type 0
Failure = ValidationError × Text

abbrev pub ValidationResult : Type 0
ValidationResult = VoidExpected Failure

-- `if (!result.has_value()) return result;`
infixl 5 ◌and_next◌
abbrev pub ◌and_next◌ : ValidationResult → ValidationResult → ValidationResult
of_nothing and_next next = next
of_failure e and_next next = of_failure e

unfoldable pub make_validation_error : ValidationError → Text → ValidationResult
make_validation_error code message = of_failure (code, message)

-- The checks of an address, an amount, a timestamp and a hash are not written yet: they pass.
unfoldable pub validate_address : Bytes → ValidationResult
validate_address addr = of_nothing

unfoldable pub validate_amount : ℕ → ValidationResult
validate_amount amount = of_nothing

unfoldable pub validate_timestamp : ℕ → ValidationResult
validate_timestamp ts = of_nothing

unfoldable pub validate_hash : Hash → ValidationResult
validate_hash hash = of_nothing

unfoldable pub validate_transaction_structure : TransactionData → ValidationResult
validate_transaction_structure tx =
    if Address.is_zero tx.from
    then make_validation_error invalid_transaction (codes "Transaction from address cannot be zero")
    else if not (Amount.is_valid tx.value)
    then make_validation_error invalid_amount (codes "Transaction value is invalid")
    else of_nothing

abbrev check_gas : TransactionData → ValidationResult
check_gas tx =
    if tx.gas_limit == 0
    then make_validation_error invalid_transaction
        (codes "Transaction gas limit must be greater than zero")
    else of_nothing

unfoldable pub validate_transaction : TransactionData → ValidationResult
validate_transaction tx =
    validate_transaction_structure tx
    and_next validate_address tx.from
    and_next validate_address tx.to
    and_next validate_amount tx.value
    and_next check_gas tx

unfoldable pub validate_block_header : Block → ValidationResult
validate_block_header block =
    validate_timestamp block.timestamp
    and_next (if block.gas_limit == 0
        then make_validation_error invalid_block (codes "Block gas limit must be greater than zero")
        else if ltb (2 ^ 32 - 1) block.height
        then make_validation_error invalid_block
            (codes "Block height exceeds maximum allowed value")
        else of_nothing)

unfoldable pub validate_transactions : List Transaction → ValidationResult
validate_transactions [] = of_nothing
validate_transactions (tx ∷ txs) =
    let rest = validate_transactions txs in validate_transaction tx.fields and_next rest

unfoldable pub validate_block : Block → ValidationResult
validate_block block =
    validate_block_header block
    and_next validate_transactions block.transactions
    and_next validate_hash (Block.calculate_hash block).0

abbrev pub max_serialized_size : ℕ
max_serialized_size = 10 * 1024 * 1024

unfoldable pub validate_serialized_data : Bytes → Text → ValidationResult
validate_serialized_data bytes type_name =
    if length bytes == 0
    then make_validation_error missing_required_field
        (codes "Serialized data cannot be empty for type: " ++ type_name)
    else if ltb max_serialized_size (length bytes)
    then make_validation_error data_too_large
        (codes "Serialized data too large for type: " ++ type_name)
    else of_nothing
