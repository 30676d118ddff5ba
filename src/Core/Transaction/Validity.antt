-- ===== src/Core/Transaction/Validity.antt =====
-- When a transaction is valid, and which kind it is.
use chain_forge.Base.{◌≤◌, ◌<◌, ◌≡◌, ◌≢◌, ◌↔◌, ◌⊎◌, true, false, [], ◌∷◌, arith}
use chain_forge.Core.Bytes.{Bytes}
use chain_forge.Core.Types.{TransactionData}
use chain_forge.Core.Address
use chain_forge.Core.Address.{Address}
use chain_forge.Core.Transaction.{Transaction, is_empty, is_valid, create_contract_call_transaction}

-- What the checks come to: a sender, enough gas, a price, and either a recipient that is paid
-- something or code to deploy.
pub record IsAcceptable (d : TransactionData) : Type 0 where
  pub sender : Address.is_zero d.from ≡ false
  pub gas : 21000 ≤ d.gas_limit
  pub price : 0 < d.gas_price
  pub purpose :
      ((Address.is_zero d.to ≡ false) × (d.value ≢ 0))
      ⊎ ((Address.is_zero d.to ≡ true) × (d.payload ≢ []))

is_empty_iff : (bs : Bytes) → (is_empty bs ≡ true) ↔ (bs ≡ [])
is_empty_iff [] = ground arith
is_empty_iff (b ∷ bs) = ground arith

is_valid_sound : (t : Transaction) → is_valid t ≡ true → IsAcceptable t.fields
unfolding is_valid Address.is_valid
is_valid_sound t h = ground (arith, is_empty_iff t.payload)

is_valid_complete : (t : Transaction) → IsAcceptable t.fields → is_valid t ≡ true
unfolding is_valid Address.is_valid
is_valid_complete t h = ground (arith, is_empty_iff t.payload)

-- A transaction is valid exactly when it has a sender, a gas limit of at least 21000, a gas price,
-- and either a recipient with a value other than zero or no recipient with a payload.
pub is_valid_iff : (t : Transaction) → (is_valid t ≡ true) ↔ IsAcceptable t.fields
is_valid_iff t = (is_valid_sound t, is_valid_complete t)

-- What `create_contract_call_transaction` makes for a contract that has an address is never
-- valid, whatever the sender and the call data.
pub create_contract_call_transaction-invalid :
    (from contract : Address) (call_data : Bytes)
    → Address.is_zero contract ≡ false
    → is_valid (create_contract_call_transaction from contract call_data) ≡ false
unfolding create_contract_call_transaction is_valid Address.is_valid
create_contract_call_transaction-invalid from contract call_data h = ground arith
