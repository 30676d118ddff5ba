-- ===== src/Core/Block.antt =====
-- modules/core/src/block.cpp: a header, the transactions, and the hash that is cached.
pub mod Merkle
pub mod Root
pub mod Limits
pub mod Hashing
use chain_forge.Base.{
  ℕ, zero, suc, ◌+◌, ◌%◌, Bool, true, false, ◌&&◌, Option, none, some, List, [], ◌∷◌, ◌++◌, ◌==◌,
  nat_eq, ltb, leb, if◌then◌else◌, length, all, map,
}
use chain_forge.Core.Bytes.{Bytes, be_bytes}
use chain_forge.Core.Types.{BlockHeader, u64_mod, max_block_size, size_of_block_header}
use chain_forge.Core.Hash.{Hash, zero_hash, hash_sha256, combine_hashes}
use chain_forge.Core.Transaction.{Transaction}
use chain_forge.Core.Transaction

pub record Block : Type 0 where
  pub header : BlockHeader
  pub open header use *
  pub transactions : List Transaction
  pub cached_hash : Option Hash

-- One round of the `while` loop of `calculate_merkle_root`; an odd last hash is paired with itself.
unfoldable pub merkle_level : List Hash → List Hash
merkle_level [] = []
merkle_level (h ∷ []) = combine_hashes h h ∷ []
merkle_level (h ∷ k ∷ hs) = combine_hashes h k ∷ merkle_level hs

-- `while (hashes.size() > 1)`, on fuel; `none` if the fuel runs out.
unfoldable pub merkle_loop : ℕ → List Hash → Option Hash
merkle_loop fuel [] = none
merkle_loop fuel (h ∷ []) = some h
merkle_loop zero (h ∷ k ∷ hs) = none
merkle_loop (suc fuel) (h ∷ k ∷ hs) = merkle_loop fuel (merkle_level (h ∷ k ∷ hs))

abbrev pub transaction_hash : Transaction → Hash
transaction_hash t = (Transaction.calculate_hash t).0

-- As much fuel as there are hashes is enough: `merkle_loop_total`.
unfoldable pub calculate_merkle_root : List Transaction → Option Hash
calculate_merkle_root [] = some zero_hash
calculate_merkle_root (t ∷ []) = some (transaction_hash t)
calculate_merkle_root (t ∷ u ∷ ts) =
    let hashes : List Hash = map transaction_hash (t ∷ u ∷ ts) in merkle_loop (length hashes) hashes

abbrev pub or_keep : Option Hash → Hash → Hash
or_keep none old = old
or_keep (some h) old = h

-- There always is a root: `calculate_merkle_root_total`.
unfoldable pub update_merkle_root : Block → Block
update_merkle_root b = record b {
  header = record (b.header) {
    merkle_root = or_keep (calculate_merkle_root b.transactions) b.merkle_root;
  };
}

unfoldable pub invalidate_cache : Block → Block
invalidate_cache b = record b { cached_hash = none }

-- `Block(height, parent_hash, timestamp)`
unfoldable pub make : ℕ → Hash → ℕ → Block
unfolding zero_hash
make height parent_hash timestamp = record {
  header = record {
    height = height;
    parent_hash = parent_hash;
    merkle_root = zero_hash;
    timestamp = timestamp;
    nonce = 0;
    gas_limit = 8000000;
    gas_price = 1;
    chain_id = 1;
  };
  transactions = [];
  cached_hash = none;
}

-- `Block(header, transactions)`
unfoldable pub of_header : BlockHeader → List Transaction → Block
unfolding update_merkle_root
of_header h ts = update_merkle_root (record { header = h; transactions = ts; cached_hash = none })

-- Writes through the references that `header()` and `transactions()` return. Neither the Merkle root
-- nor the cache follows.
unfoldable pub write_header : BlockHeader → Block → Block
write_header h b = record b { header = h }

unfoldable pub write_transactions : List Transaction → Block → Block
write_transactions ts b = record b { transactions = ts }

unfoldable pub set_height : ℕ → Block → Block
unfolding invalidate_cache
set_height n b = invalidate_cache (record b { header = record (b.header) { height = n } })

unfoldable pub set_parent_hash : Hash → Block → Block
unfolding invalidate_cache
set_parent_hash h b = invalidate_cache (record b { header = record (b.header) { parent_hash = h } })

unfoldable pub set_timestamp : ℕ → Block → Block
unfolding invalidate_cache
set_timestamp s b = invalidate_cache (record b { header = record (b.header) { timestamp = s } })

unfoldable pub set_nonce : ℕ → Block → Block
unfolding invalidate_cache
set_nonce n b = invalidate_cache (record b { header = record (b.header) { nonce = n } })

-- These three leave the cache as it is.
unfoldable pub set_gas_limit : ℕ → Block → Block
set_gas_limit g b = record b { header = record (b.header) { gas_limit = g } }

unfoldable pub set_gas_price : ℕ → Block → Block
set_gas_price g b = record b { header = record (b.header) { gas_price = g } }

unfoldable pub set_chain_id : ℕ → Block → Block
set_chain_id c b = record b { header = record (b.header) { chain_id = c } }

unfoldable pub add_transaction : Transaction → Block → Block
unfolding update_merkle_root invalidate_cache
add_transaction t b =
    invalidate_cache (update_merkle_root (record b { transactions = b.transactions ++ t ∷ [] }))

abbrev pub erase_at : ℕ → List Transaction → List Transaction
erase_at i [] = []
erase_at zero (t ∷ ts) = ts
erase_at (suc i) (t ∷ ts) = t ∷ erase_at i ts

unfoldable pub remove_transaction : ℕ → Block → Block
unfolding update_merkle_root invalidate_cache
remove_transaction index b =
    if ltb index (length b.transactions)
    then invalidate_cache
        (update_merkle_root (record b { transactions = erase_at index b.transactions }))
    else b

unfoldable pub clear_transactions : Block → Block
unfolding invalidate_cache zero_hash
clear_transactions b =
    invalidate_cache
      (record b { header = record (b.header) { merkle_root = zero_hash }; transactions = [] })

-- What `calculate_hash` collects from the header; the chain id has four bytes.
unfoldable pub hash_data : BlockHeader → Bytes
hash_data h =
    be_bytes 8 h.height
    ++ (h.parent_hash
        ++ (h.merkle_root
            ++ (be_bytes 8 h.timestamp
                ++ (be_bytes 8 h.nonce
                    ++ (be_bytes 8 h.gas_limit
                        ++ (be_bytes 8 h.gas_price ++ be_bytes 4 h.chain_id))))))

-- The hash, and the block with the cache filled.
unfoldable pub calculate_hash : Block → Hash × Block
calculate_hash b = elim (b.cached_hash) [
  | some h ↦ (h, b)
  | none ↦ let h : Hash = hash_sha256 (hash_data b.header) in (h, record b { cached_hash = some h })
]

unfoldable pub is_genesis : Block → Bool
is_genesis b = b.height == 0

unfoldable pub add_sizes : ℕ → List Transaction → ℕ
add_sizes acc [] = acc
add_sizes acc (t ∷ ts) = add_sizes (acc + Transaction.size t) ts

unfoldable pub size : Block → ℕ
unfolding add_sizes
size b = add_sizes size_of_block_header b.transactions

unfoldable pub is_full : Block → Bool
unfolding size
is_full b = leb max_block_size (size b)

-- Every timestamp passes `Timestamp::is_valid`: its range is that of the type.
unfoldable pub validate_header : BlockHeader → Bool
validate_header h = ltb 0 h.gas_limit && ltb 0 h.chain_id

-- The loop of `validate_gas_limits` from a running total of 64 bits.
unfoldable pub gas_within : ℕ → ℕ → List Transaction → Bool
gas_within limit total [] = true
gas_within limit total (t ∷ ts) =
    let total' = (total + t.gas_limit) % u64_mod in
    let rest = gas_within limit total' ts in if ltb limit total' then false else rest

unfoldable pub validate_gas_limits : Block → Bool
unfolding gas_within
validate_gas_limits b = gas_within b.gas_limit 0 b.transactions

unfoldable pub validate_transactions : Block → Bool
unfolding validate_gas_limits
validate_transactions b = all Transaction.is_valid b.transactions && validate_gas_limits b

unfoldable pub validate_size : Block → Bool
unfolding size
validate_size b = leb (size b) max_block_size

unfoldable pub is_valid : Block → Bool
unfolding validate_header validate_transactions validate_size
is_valid b = validate_header b.header && (validate_transactions b && validate_size b)

unfoldable pub create_genesis_block : ℕ → Block
unfolding make set_chain_id set_nonce zero_hash
create_genesis_block chain_id =
    set_nonce 0x12345678 (set_chain_id chain_id (make 0 zero_hash 1609459200))
