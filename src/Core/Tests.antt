-- ===== src/Core/Tests.antt =====
-- The theorems about the core at concrete data.
use chain_forge.Base.{◌-◌, ◌^◌, ◌≡◌, ◌↔◌, refl, true, none, some, List, [], ◌∷◌, replicate, arith}
use chain_forge.Core.Types.{TransactionData, BlockHeader}
use chain_forge.Core.Hash.{hash_sha256}
use chain_forge.Core.Address.{Address}
use chain_forge.Core.Transaction
use chain_forge.Core.Transaction.{Transaction}
use chain_forge.Core.Transaction.Caching
use chain_forge.Core.Transaction.Caching.{calculate_hash-run, calculate_hash-prefix}
use chain_forge.Core.Transaction.Validity.{IsAcceptable, is_valid_iff}
use chain_forge.Core.Block
use chain_forge.Core.Block.{Block}
use chain_forge.Core.Block.Merkle.{calculate_merkle_root-duplicate}
use chain_forge.Core.Block.Root
use chain_forge.Core.Block.Root.{merkle_root-run}
use chain_forge.Core.Block.Limits.{IsSound, Block-is_valid_iff}

abbrev pub alice : Address
alice = replicate 20 1

abbrev pub bob : Address
bob = replicate 20 2

abbrev pub payment : TransactionData
payment = record {
  from = alice;
  to = bob;
  value = 7;
  gas_limit = 21000;
  gas_price = 2;
  payload = [];
  nonce = 3;
}

abbrev pub paying : Transaction
paying = record { fields = payment; cached_hash = none }

-- A transaction with most of the gas that 64 bits can count.
abbrev huge : Transaction
huge = record { fields = record payment { gas_limit = 2 ^ 64 - 1 }; cached_hash = none }

abbrev pub header : BlockHeader
header = record {
  height = 5;
  parent_hash = replicate 32 9;
  merkle_root = replicate 32 0;
  timestamp = 1000;
  nonce = 1;
  gas_limit = 8000000;
  gas_price = 1;
  chain_id = 1;
}

abbrev pub block : Block
block = record { header = header; transactions = paying ∷ paying ∷ []; cached_hash = none }

abbrev wide : Block
wide = record {
  header = record header { gas_limit = 2 ^ 64 - 1 };
  transactions = huge ∷ paying ∷ [];
  cached_hash = none;
}

-- The data are written before a hash is taken, and again behind a setter.
abbrev edits : List Caching.Call
edits =
    Caching.Call.write payment
    ∷ Caching.Call.hash
    ∷ Caching.Call.value 9
    ∷ Caching.Call.write (record payment { nonce = 7 })
    ∷ Caching.Call.hash
    ∷ Caching.Call.payload (1 ∷ [])
    ∷ []

abbrev edited : Transaction
edited = Caching.run (Transaction.of_data payment) edits

calculate_hash-run_example :
    ((Transaction.calculate_hash edited).0 ≡ hash_sha256 (Transaction.hash_data edited.fields))
    × ((Transaction.calculate_hash
          (Transaction.write_fields payment (Transaction.calculate_hash edited).1)).0
        ≡ hash_sha256 (Transaction.hash_data edited.fields))
calculate_hash-run_example = calculate_hash-run payment payment edits refl

is_valid_iff_example : (Transaction.is_valid paying ≡ true) ↔ IsAcceptable payment
is_valid_iff_example = is_valid_iff paying

calculate_merkle_root-duplicate_example :
    Block.calculate_merkle_root (paying ∷ huge ∷ paying ∷ [])
    ≡ Block.calculate_merkle_root (paying ∷ huge ∷ paying ∷ paying ∷ [])
calculate_merkle_root-duplicate_example =
    calculate_merkle_root-duplicate 1 (paying ∷ huge ∷ []) paying refl (omega arith)

-- The last change computes the root anew.
abbrev changes : List Root.Call
changes =
    Root.Call.add paying
    ∷ Root.Call.replace_transactions (paying ∷ huge ∷ [])
    ∷ Root.Call.hash
    ∷ Root.Call.remove 0
    ∷ []

abbrev changed : Block
changed = Root.run (Block.make 5 (replicate 32 9) 1000) changes

settled : Root.is_settled (Block.make 5 (replicate 32 9) 1000) true changes ≡ true
unfolding Root.step Root.run Block.make Block.add_transaction Block.write_transactions
    Block.calculate_hash
settled = refl

merkle_root-run_example :
    (Block.calculate_merkle_root changed.transactions ≡ some changed.merkle_root)
    × (Block.calculate_merkle_root changed.transactions
        ≡ some (Block.write_transactions [] changed).merkle_root)
merkle_root-run_example = merkle_root-run 5 (replicate 32 9) 1000 changes [] settled

Block-is_valid_iff_example : (Block.is_valid block ≡ true) ↔ IsSound block
Block-is_valid_iff_example = Block-is_valid_iff block (omega arith)
