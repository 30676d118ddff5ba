-- ===== src/Core/Transaction.antt =====
-- modules/core/src/transaction.cpp: the data, and the hash that is cached until a setter runs.
pub mod Caching
pub mod Validity
use chain_forge.Base.{
  ℕ, ◌+◌, ◌*◌, ◌%◌, ◌^◌, Bool, true, false, not, ◌&&◌, ◌||◌, Option, none, some, List, [], ◌∷◌,
  ◌++◌, ◌==◌, nat_eq, ltb, leb, if◌then◌else◌, length,
}
use chain_forge.Core.Bytes.{Bytes, be_bytes}
use chain_forge.Core.Types.{
  TransactionData, u64_mod, max_transaction_size, size_of_transaction_data,
}
use chain_forge.Core.Hash.{Hash, hash_sha256}
use chain_forge.Core.Address.{Address, zero_address}
use chain_forge.Core.Address

pub record Transaction : Type 0 where
  pub fields : TransactionData
  pub open fields use *
  pub cached_hash : Option Hash

-- `Transaction(data)`
unfoldable pub of_data : TransactionData → Transaction
of_data d = record { fields = d; cached_hash = none }

unfoldable pub make : Address → Address → ℕ → Transaction
make from to value = record {
  fields = record {
    from = from;
    to = to;
    value = value;
    gas_limit = 21000;
    gas_price = 1;
    payload = [];
    nonce = 0;
  };
  cached_hash = none;
}

-- A write through the reference that `data()` returns, which leaves the cache as it is.
unfoldable pub write_fields : TransactionData → Transaction → Transaction
write_fields d t = record t { fields = d }

unfoldable pub set_from : Address → Transaction → Transaction
set_from a t = record { fields = record (t.fields) { from = a }; cached_hash = none }

unfoldable pub set_to : Address → Transaction → Transaction
set_to a t = record { fields = record (t.fields) { to = a }; cached_hash = none }

unfoldable pub set_value : ℕ → Transaction → Transaction
set_value v t = record { fields = record (t.fields) { value = v }; cached_hash = none }

unfoldable pub set_gas_limit : ℕ → Transaction → Transaction
set_gas_limit g t = record { fields = record (t.fields) { gas_limit = g }; cached_hash = none }

unfoldable pub set_gas_price : ℕ → Transaction → Transaction
set_gas_price g t = record { fields = record (t.fields) { gas_price = g }; cached_hash = none }

unfoldable pub set_data : Bytes → Transaction → Transaction
set_data bs t = record { fields = record (t.fields) { payload = bs }; cached_hash = none }

unfoldable pub set_nonce : ℕ → Transaction → Transaction
set_nonce n t = record { fields = record (t.fields) { nonce = n }; cached_hash = none }

-- What `calculate_hash` collects: every field, the integers big-endian.
unfoldable pub hash_data : TransactionData → Bytes
hash_data d =
    d.from
    ++ (d.to
        ++ (be_bytes 8 d.value
            ++ (be_bytes 8 d.gas_limit
                ++ (be_bytes 8 d.gas_price ++ (be_bytes 8 d.nonce ++ d.payload)))))

-- The hash, and the transaction with the cache filled.
unfoldable pub calculate_hash : Transaction → Hash × Transaction
calculate_hash t = elim (t.cached_hash) [
  | some h ↦ (h, t)
  | none ↦
      let h : Hash = hash_sha256 (hash_data t.fields) in
      (h, record { fields = t.fields; cached_hash = some h })
]

-- `Amount::from_wei(gas_limit * gas_price)`, in 64 bits.
unfoldable pub calculate_fee : Transaction → ℕ
calculate_fee t = t.gas_limit * t.gas_price % u64_mod

abbrev pub is_empty : Bytes → Bool
is_empty [] = true
is_empty (b ∷ bs) = false

unfoldable pub is_contract_creation : TransactionData → Bool
is_contract_creation d = Address.is_zero d.to && not (is_empty d.payload)

unfoldable pub is_contract_call : TransactionData → Bool
is_contract_call d = not (Address.is_zero d.to) && not (is_empty d.payload)

unfoldable pub is_transfer : TransactionData → Bool
is_transfer d = not (Address.is_zero d.to) && is_empty d.payload

unfoldable pub validate_addresses : TransactionData → Bool
unfolding is_contract_creation
validate_addresses d = Address.is_valid d.from && (Address.is_valid d.to || is_contract_creation d)

unfoldable pub validate_gas : TransactionData → Bool
validate_gas d = leb 21000 d.gas_limit && ltb 0 d.gas_price

unfoldable pub validate_amount : TransactionData → Bool
unfolding is_contract_creation
validate_amount d = not (d.value == 0) || is_contract_creation d

unfoldable pub validate_nonce : TransactionData → Bool
validate_nonce d = true

unfoldable pub is_valid : Transaction → Bool
unfolding validate_addresses validate_gas validate_amount validate_nonce
is_valid t =
    validate_addresses t.fields
    && (validate_gas t.fields && (validate_amount t.fields && validate_nonce t.fields))

unfoldable pub size : Transaction → ℕ
size t = size_of_transaction_data + length t.payload

unfoldable pub is_too_large : Transaction → Bool
unfolding size
is_too_large t = ltb max_transaction_size (size t)

unfoldable pub create_transfer_transaction : Address → Address → ℕ → Transaction
unfolding make
create_transfer_transaction from to value = make from to value

unfoldable pub create_contract_transaction : Address → Bytes → Transaction
unfolding make set_data set_gas_limit
create_contract_transaction from contract_data =
    set_gas_limit 53000 (set_data contract_data (make from zero_address 0))

unfoldable pub create_contract_call_transaction : Address → Address → Bytes → Transaction
unfolding make set_data
create_contract_call_transaction from contract call_data = set_data call_data (make from contract 0)

-- `GasLimit` is 64 bits wide, and so is a size.
unfoldable pub estimate_gas : Transaction → ℕ
unfolding is_contract_creation is_contract_call
estimate_gas t =
    if is_contract_creation t.fields
    then (53000 + length t.payload * 200) % u64_mod
    else if is_contract_call t.fields
    then (21000 + length t.payload * 68) % u64_mod
    else 21000
