-- ===== src/Serialization/Serializer/Gas.antt =====
-- The limit of gas of a block that was read back.
use chain_forge.Serialization.Messages.{IsLawful}
use chain_forge.Base.{
  some, All, length, sym, ℕ, ◌+◌, ◌<◌, ◌≤◌, ◌≡◌, refl, ◌∙◌, true, false, List, [], ◌∷◌, ◌++◌, map,
  arith,
}
use chain_forge.Core.Types.{hash_size, hash_size, u64_mod}
use chain_forge.Core.Block
use chain_forge.Core.Block.{Block}
use chain_forge.Core.Transaction
use chain_forge.Core.Transaction.{Transaction}
use chain_forge.Serialization.Serializer.{
  deserialize_block, returns, serialize_block, block_message, Bytes, Protobuf, add_all,
}
use chain_forge.Serialization.Serializer.RoundTrip.{IsWritable, reread}
use chain_forge.Serialization.Serializer.Blocks.{
  deserialize_block-serialize_block, messages, IsPrinted, bare_block, reread_block,
}
use mathlib.Core.List.{append-nil, append_assoc}

add_all-transactions :
    (ts : List Transaction) (b : Block)
    → ((add_all ts b).transactions ≡ b.transactions ++ ts)
      × ((add_all ts b).gas_limit ≡ b.gas_limit)
unfolding Block.add_transaction Block.update_merkle_root Block.invalidate_cache
add_all-transactions [] b = (sym (append-nil b.transactions), refl)
add_all-transactions (t ∷ ts) b =
    let (txs, gas) = add_all-transactions ts (Block.add_transaction t b) in
    (txs ∙ append_assoc b.transactions (t ∷ []) ts, gas)

valid_gas : (t : Transaction) → Transaction.is_valid t ≡ true → 21000 ≤ t.gas_limit
unfolding Transaction.is_valid Transaction.validate_gas
valid_gas t h = ground arith

gas_within-two :
    (t u : Transaction) (ts : List Transaction)
    → 21000 ≤ t.gas_limit
    → 21000 ≤ u.gas_limit
    → t.gas_limit + u.gas_limit < u64_mod
    → Block.gas_within 21000 0 (t ∷ u ∷ ts) ≡ false
unfolding Block.gas_within
gas_within-two t u ts g h l = ground arith

gas_within-not_valid :
    (b : Block) → Block.gas_within b.gas_limit 0 b.transactions ≡ false → Block.is_valid b ≡ false
unfolding Block.is_valid Block.validate_transactions Block.validate_gas_limits
gas_within-not_valid b h = ground (arith, h)

-- The block of reread_block is refused by `is_valid` where two valid transactions, which have less than 2^64 gas
-- together, stand first.
pub reread_block-not_valid :
    (b : Block) (t u : Transaction) (ts : List Transaction)
    → b.transactions ≡ t ∷ u ∷ ts
    → Transaction.is_valid t ≡ true
    → Transaction.is_valid u ≡ true
    → t.gas_limit + u.gas_limit < u64_mod
    → Block.is_valid (reread_block b) ≡ false
reread_block-not_valid b t u ts e v w l =
    let (txs, gas) = add_all-transactions (map reread b.transactions) (bare_block b) in
    let two =
      gas_within-two (reread t) (reread u) (map reread ts) (valid_gas t v) (valid_gas u w) l in
    gas_within-not_valid (reread_block b) (rw (gas, txs, e) two)

-- A block that starts with two valid transactions, of less than 2^64 gas together, and all of whose messages
-- protobuf can write, is written and read back as a block that `is_valid` refuses.
pub deserialize_block-not_valid :
    (protobuf : Protobuf)
    → IsLawful protobuf.transactions
    → IsLawful protobuf.blocks
    → (clock : ℕ → ℕ) (b : Block) (bytes : Bytes) (t u : Transaction) (ts : List Transaction)
    → length b.parent_hash ≡ hash_size
    → b.timestamp < u64_mod
    → All IsWritable b.transactions
    → IsPrinted protobuf (messages clock 0 b.transactions)
    → protobuf.blocks.serialize_to_array
        (block_message protobuf b (messages clock 0 b.transactions))
      ≡ some bytes
    → b.transactions ≡ t ∷ u ∷ ts
    → Transaction.is_valid t ≡ true
    → Transaction.is_valid u ≡ true
    → t.gas_limit + u.gas_limit < u64_mod
    → (c : Block) × (serialize_block protobuf clock b ≡ returns bytes)
      × (deserialize_block protobuf bytes ≡ returns c)
      × (Block.is_valid c ≡ false)
deserialize_block-not_valid protobuf law block_law clock b bytes t u ts p s w printed h e v v' l =
    let (written, back) =
      deserialize_block-serialize_block protobuf law block_law clock b bytes p s w printed h in
    (reread_block b, written, back, reread_block-not_valid b t u ts e v v' l)
