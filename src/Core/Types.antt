-- ===== src/Core/Types.antt =====
-- modules/core/include/chainforge/core/types.hpp: the shared aliases, structs and limits.
use chain_forge.Base.{ℕ, ◌^◌, ◌*◌}
use chain_forge.Core.Bytes.{Bytes}

-- One more than the largest `uint64_t`.
abbrev pub u64_mod : ℕ
u64_mod = 2 ^ 64

abbrev pub hash_size : ℕ
hash_size = 32

abbrev pub address_size : ℕ
address_size = 20

abbrev pub max_block_size : ℕ
max_block_size = 1024 * 1024

abbrev pub max_transaction_size : ℕ
max_transaction_size = 128 * 1024

pub record BlockHeader : Type 0 where
  pub height : ℕ
  pub parent_hash : Bytes
  pub merkle_root : Bytes
  pub timestamp : ℕ
  pub nonce : ℕ
  pub gas_limit : ℕ
  pub gas_price : ℕ
  pub chain_id : ℕ

pub record TransactionData : Type 0 where
  pub from : Bytes
  pub to : Bytes
  pub value : ℕ
  pub gas_limit : ℕ
  pub gas_price : ℕ
  pub payload : Bytes
  pub nonce : ℕ

-- `sizeof` of the two structs where a pointer has eight bytes and a vector three pointers.
abbrev pub size_of_transaction_data : ℕ
size_of_transaction_data = 96

abbrev pub size_of_block_header : ℕ
size_of_block_header = 112
