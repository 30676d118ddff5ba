-- ===== src/Serialization/Serializer.antt =====
-- `ProtobufSerializer` of modules/serialization/src/serializer.cpp. An error keeps its code and its
-- message. A constructor of Core that throws is not caught.
pub mod RoundTrip
pub mod Blocks
pub mod Fields
pub mod Gas
use chain_forge.Base.{
  ℕ, suc, ◌+◌, ◌%◌, ◌^◌, Bool, not, Option, none, some, List, [], ◌∷◌, ◌++◌, ◌==◌, nat_eq,
  if◌then◌else◌, length, map,
}
use chain_forge.Base.Text.{Text, codes, to_string}
use chain_forge.Errors.Expected.{Expected, of_value, of_error}
use chain_forge.Core.Bytes.{Bytes, from_vector}
use chain_forge.Core.Exceptions.{Result, ok, throw, Exception}
use chain_forge.Core.Types.{hash_size, address_size}
use chain_forge.Core.Address.{Address}
use chain_forge.Core.Hash.{Hash}
use chain_forge.Core.Amount.Text.{stoull, from_string}
use chain_forge.Core.Timestamp.{of_seconds}
use chain_forge.Core.Transaction
use chain_forge.Core.Transaction.{Transaction}
use chain_forge.Core.Block
use chain_forge.Core.Block.{Block}
use chain_forge.Serialization.Messages.{
  TimestampMessage, TxInput, TxOutput, TransactionMessage, BlockHeaderMessage, BlockMessage, Codec,
  Protobuf,
}

pub data SerializationError : Type 0 where
  invalid_data buffer_too_small unsupported_version corrupted_data encoding_error :
      SerializationError

abbrev pub Failure : Type 0
Failure = SerializationError × Text

abbrev pub SerializationResult : Type 0 → Type 0
SerializationResult A = Expected A Failure

-- A call returns a result or throws.
abbrev pub Outcome : Type 0 → Type 0
Outcome A = Result (SerializationResult A)

abbrev pub returns : {A : Type 0} → A → Outcome A
returns a = ok (of_value a)

abbrev pub fails : {A : Type 0} → SerializationError → Text → Outcome A
fails code message = ok (of_error (code, message))

-- A throwing constructor
abbrev pub constructed : {A : Type 0} → Result A → Outcome A
constructed (ok a) = returns a
constructed (throw e) = throw e

infixl 5 ◌>>=◌
abbrev pub ◌>>=◌ : {A B : Type 0} → Outcome A → (A → Outcome B) → Outcome B
ok (of_value a) >>= f = f a
ok (of_error e) >>= f = ok (of_error e)
throw e >>= f = throw e

abbrev pub written : Option Bytes → SerializationResult Bytes
written (some bytes) = of_value bytes
written none =
    of_error (SerializationError.encoding_error, codes "Failed to serialize protobuf message")

unfoldable pub serialize_to_bytes : {M : Type 0} → Codec M → M → SerializationResult Bytes
serialize_to_bytes codec message = written (codec.serialize_to_array message)

abbrev pub parsed : {M : Type 0} → SerializationError → Text → Option M → Outcome M
parsed code message (some m) = returns m
parsed code message none = fails code message

-- `ParseFromArray`, with the error that the caller makes
abbrev pub parse : {M : Type 0} → Codec M → SerializationError → Text → Bytes → Outcome M
parse codec code message bytes = parsed code message (codec.parse_from_array bytes)

-- The copy of the parsed prototype
unfoldable pub deserialize_from_bytes : {M : Type 0} → Codec M → Bytes → Outcome M
deserialize_from_bytes codec bytes =
    parse codec SerializationError.corrupted_data (codes "Failed to parse protobuf message") bytes

-- The message of a transaction, with the time and the hash that were taken for it.
unfoldable pub transaction_message : ℕ → Hash → Transaction → TransactionMessage
transaction_message now hash tx = record {
  version = 1;
  inputs = record { prev_tx_hash = []; output_index = 0; signature = []; pubkey = tx.from } ∷ [];
  outputs = record { amount = to_string tx.value; recipient = tx.to } ∷ [];
  gas_limit = tx.gas_limit;
  gas_price = to_string tx.gas_price;
  payload = tx.payload;
  nonce = tx.nonce;
  timestamp = record { seconds = now; nanoseconds = 0 };
  tx_hash = hash;
}

abbrev pub first_input : TransactionMessage → Option TxInput
first_input m = elim m.inputs [ [] ↦ none | i ∷ is ↦ some i ]

abbrev pub first_output : TransactionMessage → Option TxOutput
first_output m = elim m.outputs [ [] ↦ none | o ∷ os ↦ some o ]

-- `inputs(0)` or `outputs(0)`, with an error where there is none
abbrev pub first_or_fail : {A : Type 0} → Text → Option A → Outcome A
first_or_fail message none = fails SerializationError.invalid_data message
first_or_fail message (some a) = returns a

abbrev pub set_data_present : Bytes → Transaction → Transaction
set_data_present [] tx = tx
set_data_present (b ∷ bs) tx = Transaction.set_data (b ∷ bs) tx

-- A transaction from its message
unfoldable pub read_transaction : TransactionMessage → Outcome Transaction
read_transaction m = do
  i ← first_or_fail (codes "Transaction must have at least one input") (first_input m)
  from ← constructed (from_vector address_size i.pubkey)
  o ← first_or_fail (codes "Transaction must have at least one output") (first_output m)
  to ← constructed (from_vector address_size o.recipient)
  amount ← constructed (from_string o.amount)
  gas_price ← constructed (stoull m.gas_price)
  returns (
      set_data_present m.payload (
        Transaction.set_gas_price gas_price (
          Transaction.set_gas_limit m.gas_limit
            (Transaction.set_nonce m.nonce (Transaction.make from to amount)))))

abbrev pub add_all : List Transaction → Block → Block
add_all [] b = b
add_all (t ∷ ts) b = add_all ts (Block.add_transaction t b)

-- A block without its transactions, from the message of its header
unfoldable pub read_header : BlockHeaderMessage → Outcome Block
read_header m = do
  parent_hash ← constructed (from_vector hash_size m.prev_block_hash)
  timestamp ← constructed (of_seconds m.timestamp.seconds)
  returns (
      Block.set_chain_id 1 (
        Block.set_gas_price 1_000_000_000 (
          Block.set_gas_limit 21000
            (Block.set_nonce m.nonce (Block.make m.height parent_hash timestamp)))))

unfoldable pub header_message : Block → BlockHeaderMessage
header_message b = record {
  version = 1;
  prev_block_hash = b.parent_hash;
  merkle_root = b.merkle_root;
  timestamp = record { seconds = b.timestamp; nanoseconds = 0 };
  difficulty = 0;
  nonce = b.nonce;
  height = b.height % 2 ^ 32;
  extra_data = [];
}

module _ (protobuf : Protobuf) where
  -- The bytes, and the transaction with the hash that was cached.
  unfoldable pub serialize_transaction : ℕ → Transaction → SerializationResult Bytes × Transaction
  unfolding transaction_message
  serialize_transaction now tx =
      let hashed : Hash × Transaction = Transaction.calculate_hash tx in
      (serialize_to_bytes protobuf.transactions (transaction_message now (hashed.0) tx), hashed.1)

  unfoldable pub deserialize_transaction : Bytes → Outcome Transaction
  unfolding read_transaction
  deserialize_transaction bytes = do
    m ←
        parse protobuf.transactions SerializationError.corrupted_data
          (codes "Failed to parse transaction protobuf") bytes
    read_transaction m

  -- The message of one transaction of a block, which is serialized and parsed again.
  unfoldable pub transaction_of_block : ℕ → Transaction → Outcome TransactionMessage
  transaction_of_block now tx = do
    bytes ← ok ((serialize_transaction now tx).0)
    parse protobuf.transactions SerializationError.encoding_error
        (codes "Failed to parse transaction for block") bytes

  -- The loop of `serialize_block`; `clock` gives each reading of the time.
  unfoldable pub transactions_of_block :
      (ℕ → ℕ) → ℕ → List Transaction → Outcome (List TransactionMessage)
  transactions_of_block clock i [] = returns []
  transactions_of_block clock i (tx ∷ txs) = do
    m ← transaction_of_block (clock i) tx
    ms ← transactions_of_block clock (i + 1) txs
    returns (m ∷ ms)

  unfoldable pub block_message : Block → List TransactionMessage → BlockMessage
  block_message b ms = record {
    header = header_message b;
    transactions = ms;
    block_hash = (Block.calculate_hash b).0;
    tx_count = length b.transactions % 2 ^ 32;
  }

  unfoldable pub serialize_block : (ℕ → ℕ) → Block → Outcome Bytes
  serialize_block clock b = do
    ms ← transactions_of_block clock 0 b.transactions
    ok (serialize_to_bytes protobuf.blocks (block_message b ms))

  -- The loop of `deserialize_block`, in which each message is serialized first.
  unfoldable pub transactions_to_block : List TransactionMessage → Outcome (List Transaction)
  transactions_to_block [] = returns []
  transactions_to_block (m ∷ ms) = do
    bytes ←
        parsed SerializationError.encoding_error (codes "Failed to serialize transaction in block")
          (protobuf.transactions.serialize_to_array m)
    tx ← deserialize_transaction bytes
    txs ← transactions_to_block ms
    returns (tx ∷ txs)

  unfoldable pub deserialize_block : Bytes → Outcome Block
  deserialize_block bytes = do
    m ←
        parse protobuf.blocks SerializationError.corrupted_data
          (codes "Failed to parse block protobuf") bytes
    b ← read_header m.header
    txs ← transactions_to_block m.transactions
    returns (add_all txs b)
