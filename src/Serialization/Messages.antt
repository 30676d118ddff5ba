-- ===== src/Serialization/Messages.antt =====
-- The messages of modules/serialization/proto that serializer.cpp fills and reads. A submessage with
-- one field of bytes is those bytes. The code that protobuf generates for them is an interface.
use chain_forge.Base.{ℕ, ◌≡◌, Option, some, List}
use chain_forge.Base.Text.{Text}
use chain_forge.Core.Bytes.{Bytes}

pub record TimestampMessage : Type 0 where
  pub seconds : ℕ
  pub nanoseconds : ℕ

pub record TxInput : Type 0 where
  pub prev_tx_hash : Bytes
  pub output_index : ℕ
  pub signature : Bytes
  pub pubkey : Bytes

pub record TxOutput : Type 0 where
  pub amount : Text
  pub recipient : Bytes

pub record TransactionMessage : Type 0 where
  pub version : ℕ
  pub inputs : List TxInput
  pub outputs : List TxOutput
  pub gas_limit : ℕ
  pub gas_price : Text
  pub payload : Bytes
  pub nonce : ℕ
  pub timestamp : TimestampMessage
  pub tx_hash : Bytes

pub record BlockHeaderMessage : Type 0 where
  pub version : ℕ
  pub prev_block_hash : Bytes
  pub merkle_root : Bytes
  pub timestamp : TimestampMessage
  pub difficulty : ℕ
  pub nonce : ℕ
  pub height : ℕ
  pub extra_data : Bytes

pub record BlockMessage : Type 0 where
  pub header : BlockHeaderMessage
  pub transactions : List TransactionMessage
  pub block_hash : Bytes
  pub tx_count : ℕ

-- `SerializeToArray` and `ParseFromArray`, `none` where they return false.
pub record Codec (M : Type 0) : Type 0 where
  pub serialize_to_array : M → Option Bytes
  pub parse_from_array : Bytes → Option M

-- What a message is serialized to is parsed to the message.
pub record IsLawful {M : Type 0} (codec : Codec M) : Type 0 where
  pub parse-serialize :
      (m : M) (bytes : Bytes)
      → codec.serialize_to_array m ≡ some bytes
      → codec.parse_from_array bytes ≡ some m

-- The messages `Address` and `Hash`, and `Amount`, are bytes and text.
pub record Protobuf : Type 0 where
  pub blocks : Codec BlockMessage
  pub transactions : Codec TransactionMessage
  pub bytes : Codec Bytes
  pub texts : Codec Text
  pub timestamps : Codec TimestampMessage
