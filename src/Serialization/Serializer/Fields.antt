-- ===== src/Serialization/Serializer/Fields.antt =====
-- Addresses, hashes, amounts and timestamps alone, in serializer.cpp.
use chain_forge.Base.{arith, ℕ, ◌^◌, ◌<◌, ◌≡◌, refl, not, ◌++◌, ◌==◌, nat_eq, if◌then◌else◌, length}
use chain_forge.Base.Text.{Text, codes, to_string}
use chain_forge.Core.Bytes.{Bytes, from_vector}
use chain_forge.Core.Exceptions.{Result, ok, throw, Exception}
use chain_forge.Core.Types.{hash_size, address_size, u64_mod}
use chain_forge.Core.Address.{Address}
use chain_forge.Core.Hash.{Hash}
use chain_forge.Core.Amount.{Amount}
use chain_forge.Core.Timestamp.{Timestamp, of_seconds}
use chain_forge.Core.Amount.Text.{stoull}
use chain_forge.Serialization.Messages.{Protobuf, IsLawful, TimestampMessage}
use chain_forge.Serialization.Serializer.{
  of_value, SerializationResult, SerializationError, Outcome, returns, fails, constructed,
  serialize_to_bytes, parse, ◌>>=◌,
}
use chain_forge.Serialization.Serializer.RoundTrip.{
  parse-serialize_to_bytes, stoull-to_string, from_vector_exact,
}
use chain_forge.Serialization.Serializer.Blocks.{of_seconds_exact}

-- An array of `n` bytes from a vector whose size is tested first.
abbrev pub sized : ℕ → Text → Bytes → Outcome Bytes
sized n message bytes =
    if not (length bytes == n)
    then fails SerializationError.invalid_data message
    else constructed (from_vector n bytes)

-- What a `catch` makes of an exception, with the text of `what()`.
abbrev pub caught : {A : Type 0} → (Exception → Text) → Result A → Outcome A
caught what (ok a) = returns a
caught what (throw e) =
    fails SerializationError.invalid_data (codes "Failed to parse amount: " ++ what e)

module _ (protobuf : Protobuf) where
  unfoldable pub serialize_address : Address → SerializationResult Bytes
  serialize_address addr = serialize_to_bytes protobuf.bytes addr

  unfoldable pub deserialize_address : Bytes → Outcome Address
  deserialize_address bytes = do
    data' ←
        parse protobuf.bytes SerializationError.corrupted_data
          (codes "Failed to parse address protobuf") bytes
    sized address_size (codes "Invalid address size") data'

  unfoldable pub serialize_hash : Hash → SerializationResult Bytes
  serialize_hash hash = serialize_to_bytes protobuf.bytes hash

  unfoldable pub deserialize_hash : Bytes → Outcome Hash
  deserialize_hash bytes = do
    data' ←
        parse protobuf.bytes SerializationError.corrupted_data
          (codes "Failed to parse hash protobuf") bytes
    sized hash_size (codes "Invalid hash size") data'

  unfoldable pub serialize_amount : Amount → SerializationResult Bytes
  serialize_amount amount = serialize_to_bytes protobuf.texts (to_string amount)

  unfoldable pub deserialize_amount : (Exception → Text) → Bytes → Outcome Amount
  deserialize_amount what bytes = do
    value ←
        parse protobuf.texts SerializationError.corrupted_data
          (codes "Failed to parse amount protobuf") bytes
    caught what (stoull value)

  unfoldable pub serialize_timestamp : Timestamp → SerializationResult Bytes
  serialize_timestamp ts =
      serialize_to_bytes protobuf.timestamps (record { seconds = ts; nanoseconds = 0 })

  unfoldable pub deserialize_timestamp : Bytes → Outcome Timestamp
  deserialize_timestamp bytes = do
    m ←
        parse protobuf.timestamps SerializationError.corrupted_data
          (codes "Failed to parse timestamp protobuf") bytes
    constructed (of_seconds m.seconds)

  sized_exact :
      (n : ℕ) (message : Text) (bs : Bytes) → length bs ≡ n → sized n message bs ≡ returns bs
  sized_exact n message bs h = rw (from_vector_exact n bs h) (ground (arith, h))

  pub deserialize_address-serialize_address :
      IsLawful protobuf.bytes
      → (addr : Address) (bytes : Bytes) → length addr ≡ address_size
      → serialize_address addr ≡ of_value bytes
      → deserialize_address bytes ≡ returns addr
  unfolding serialize_address deserialize_address
  deserialize_address-serialize_address law addr bytes l h =
      rw
        (parse-serialize_to_bytes protobuf.bytes law SerializationError.corrupted_data
          (codes "Failed to parse address protobuf") addr bytes h)
        (sized_exact address_size (codes "Invalid address size") addr l)

  -- An amount alone comes back as it was.
  pub deserialize_amount-serialize_amount :
      IsLawful protobuf.texts
      → (what : Exception → Text) (amount : Amount) (bytes : Bytes) → amount < 2 ^ 64
      → serialize_amount amount ≡ of_value bytes
      → deserialize_amount what bytes ≡ returns amount
  unfolding serialize_amount deserialize_amount
  deserialize_amount-serialize_amount law what amount bytes l h =
      rw
        (
          parse-serialize_to_bytes protobuf.texts law SerializationError.corrupted_data
              (codes "Failed to parse amount protobuf") (to_string amount) bytes h,
          stoull-to_string amount l,
        )
        refl

  pub deserialize_timestamp-serialize_timestamp :
      IsLawful protobuf.timestamps
      → (ts : Timestamp) (bytes : Bytes) → ts < u64_mod
      → serialize_timestamp ts ≡ of_value bytes
      → deserialize_timestamp bytes ≡ returns ts
  unfolding serialize_timestamp deserialize_timestamp
  deserialize_timestamp-serialize_timestamp law ts bytes l h =
      let m : TimestampMessage = record { seconds = ts; nanoseconds = 0 } in
      rw
        (
          parse-serialize_to_bytes protobuf.timestamps law SerializationError.corrupted_data
              (codes "Failed to parse timestamp protobuf") m bytes h,
          of_seconds_exact ts l,
        )
        refl
