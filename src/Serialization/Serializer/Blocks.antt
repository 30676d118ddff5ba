-- ===== src/Serialization/Serializer/Blocks.antt =====
-- Reading back a block.
use chain_forge.Base.{
  ℕ, ◌+◌, ◌%◌, ◌^◌, ◌<◌, ◌≡◌, refl, none, some, List, [], ◌∷◌, length, map, arith, All,
}
use chain_forge.Core.Bytes.{Bytes}
use chain_forge.Core.Types.{hash_size, u64_mod}
use chain_forge.Core.Hash.{zero_hash}
use chain_forge.Core.Timestamp.{is_valid_timestamp, of_seconds}
use chain_forge.Core.Block
use chain_forge.Core.Block.{Block, transaction_hash}
use chain_forge.Core.Transaction.{Transaction}
use chain_forge.Serialization.Messages.{Protobuf, IsLawful, TransactionMessage}
use chain_forge.Serialization.Serializer.{
  ok, returns, serialize_to_bytes, transaction_message, serialize_transaction,
  deserialize_transaction, transaction_of_block, transactions_of_block, transactions_to_block,
  serialize_block, deserialize_block, block_message, header_message, read_header, add_all,
}
use chain_forge.Serialization.Serializer.RoundTrip.{
  IsWritable, reread, read_transaction-message, from_vector_exact,
}

-- The messages of a list of transactions, the first with the `i`-th reading of the clock.
abbrev pub messages : (ℕ → ℕ) → ℕ → List Transaction → List TransactionMessage
messages clock i [] = []
messages clock i (tx ∷ txs) =
    transaction_message (clock i) (transaction_hash tx) tx ∷ messages clock (i + 1) txs

-- The block that comes back, without transactions.
abbrev pub bare_block : Block → Block
bare_block b = record {
  header = record {
    height = b.height % 2 ^ 32;
    parent_hash = b.parent_hash;
    merkle_root = zero_hash;
    timestamp = b.timestamp;
    nonce = b.nonce;
    gas_limit = 21000;
    gas_price = 1_000_000_000;
    chain_id = 1;
  };
  transactions = [];
  cached_hash = none;
}

abbrev pub reread_block : Block → Block
reread_block b = add_all (map reread b.transactions) (bare_block b)

module _ (protobuf : Protobuf) where
  -- Every message can be serialized.
  abbrev pub IsPrinted : List TransactionMessage → Type 0
  IsPrinted [] = Unit {0}
  IsPrinted (m ∷ ms) =
      ((bytes : Bytes) × (protobuf.transactions.serialize_to_array m ≡ some bytes)) × IsPrinted ms

  module _ (law : IsLawful protobuf.transactions) where
    transaction_of_block-message :
        (now : ℕ) (tx : Transaction) (bytes : Bytes)
        → protobuf.transactions.serialize_to_array
            (transaction_message now (transaction_hash tx) tx)
          ≡ some bytes
        → transaction_of_block protobuf now tx
          ≡ returns (transaction_message now (transaction_hash tx) tx)
    unfolding transaction_of_block serialize_transaction serialize_to_bytes
    transaction_of_block-message now tx bytes h =
        rw (h, law.parse-serialize (transaction_message now (transaction_hash tx) tx) bytes h) refl

    transactions_of_block-messages :
        (clock : ℕ → ℕ) (i : ℕ) (txs : List Transaction)
        → IsPrinted (messages clock i txs)
        → transactions_of_block protobuf clock i txs ≡ returns (messages clock i txs)
    unfolding transactions_of_block
    transactions_of_block-messages clock i [] h = refl
    transactions_of_block-messages clock i (tx ∷ txs) ((bytes, h), p) =
        rw
          (
            transaction_of_block-message (clock i) tx bytes h,
            transactions_of_block-messages clock (i + 1) txs p,
          )
          refl

    transactions_to_block-messages :
        (clock : ℕ → ℕ) (i : ℕ) (txs : List Transaction)
        → All IsWritable txs
        → IsPrinted (messages clock i txs)
        → transactions_to_block protobuf (messages clock i txs) ≡ returns (map reread txs)
    unfolding transactions_to_block deserialize_transaction
    transactions_to_block-messages clock i [] w h = refl
    transactions_to_block-messages clock i (tx ∷ txs) (w, ws) ((bytes, h), p) =
        let m = transaction_message (clock i) (transaction_hash tx) tx in
        rw
          (
            h,
            law.parse-serialize m bytes h,
            read_transaction-message (clock i) (transaction_hash tx) tx w,
            transactions_to_block-messages clock (i + 1) txs ws p,
          )
          refl

pub of_seconds_exact : (seconds : ℕ) → seconds < u64_mod → of_seconds seconds ≡ ok seconds
unfolding of_seconds is_valid_timestamp
of_seconds_exact seconds h = ground arith

read_header-message :
    (b : Block)
    → length b.parent_hash ≡ hash_size
    → b.timestamp < u64_mod
    → read_header (header_message b) ≡ returns (bare_block b)
unfolding read_header header_message Block.make Block.set_nonce Block.set_gas_limit
    Block.set_gas_price Block.set_chain_id
read_header-message b p t =
    rw (from_vector_exact hash_size b.parent_hash p, of_seconds_exact b.timestamp t) refl

-- A block of which protobuf can write every message is written, and read back: with its height in 32 bits, its
-- limit and price of gas and its chain replaced, and every transaction as it is read back alone.
pub deserialize_block-serialize_block :
    (protobuf : Protobuf)
    → IsLawful protobuf.transactions
    → IsLawful protobuf.blocks
    → (clock : ℕ → ℕ) (b : Block) (bytes : Bytes) → length b.parent_hash ≡ hash_size
    → b.timestamp < u64_mod
    → All IsWritable b.transactions
    → IsPrinted protobuf (messages clock 0 b.transactions)
    → protobuf.blocks.serialize_to_array
        (block_message protobuf b (messages clock 0 b.transactions))
      ≡ some bytes
    → (serialize_block protobuf clock b ≡ returns bytes)
      × (deserialize_block protobuf bytes ≡ returns (reread_block b))
unfolding serialize_block deserialize_block serialize_to_bytes block_message
deserialize_block-serialize_block protobuf law block_law clock b bytes p t w printed h =
    let ms = messages clock 0 b.transactions in
    (
      rw (transactions_of_block-messages protobuf law clock 0 b.transactions printed, h) refl,
      rw
          (
            block_law.parse-serialize (block_message protobuf b ms) bytes h,
            read_header-message b p t,
            transactions_to_block-messages protobuf law clock 0 b.transactions w printed,
          )
          refl,
    )
