-- ===== src/Serialization/Serializer/RoundTrip.antt =====
-- Reading back what was written.
use chain_forge.Base.{
  sym, ap, zero, ◌/◌, inr, inl, true, ℕ, suc, ◌+◌, ◌*◌, ◌%◌, ◌^◌, ◌<◌, ◌≡◌, refl, Option, none,
  some, [], ◌∷◌, length, arith, Bool-cases, ltb,
}
use chain_forge.Base.Text.{codes, Text, decimal, to_string}
use chain_forge.Base.Text.Laws.{lacks, cut-none, stoul-to_string}
use chain_forge.Core.Bytes.{Bytes, from_vector}
use chain_forge.Core.Exceptions.{ok}
use chain_forge.Core.Types.{address_size, u64_mod}
use chain_forge.Core.Amount.{wei_per_ether}
use chain_forge.Core.Amount.Text.{of_sides, stoull, from_string}
use chain_forge.Core.Hash.{Hash}
use chain_forge.Core.Transaction
use chain_forge.Core.Transaction.{Transaction}
use chain_forge.Serialization.Messages.{Protobuf, IsLawful, Codec}
use chain_forge.Serialization.Serializer.{
  parsed, written, corrupted_data, SerializationError, of_value, set_data_present, returns,
  serialize_to_bytes, parse, transaction_message, read_transaction, serialize_transaction,
  deserialize_transaction,
}

lacks-decimal :
    (f n : ℕ) (rest : Text) → lacks b'.' rest ≡ true → lacks b'.' (decimal f n rest) ≡ true
unfolding decimal
lacks-decimal zero n rest h = h
lacks-decimal (suc f) n rest h = elim (Bool-cases (ltb n 10)) [
  | inl e ↦ ground arith
  | inr e ↦ ground (arith, lacks-decimal f (n / 10) ((b'0' + n % 10) ∷ rest))
]

pub stoull-to_string : (n : ℕ) → n < 2 ^ 64 → stoull (to_string n) ≡ ok n
unfolding stoull
stoull-to_string n h = rw (stoul-to_string n h) refl

-- What is printed as wei is read as ether.
pub from_string-to_string :
    (n : ℕ) → n < 2 ^ 64 → from_string (to_string n) ≡ ok (n * wei_per_ether % u64_mod)
unfolding from_string of_sides
from_string-to_string n h =
    let whole = cut-none b'.' (to_string n) (lacks-decimal 20 n [] refl) in
    rw (whole, stoull-to_string n h) refl

pub from_vector_exact : (n : ℕ) (bs : Bytes) → length bs ≡ n → from_vector n bs ≡ ok bs
unfolding from_vector
from_vector_exact n bs h = ground (arith, h)

-- The fields that a message can hold.
abbrev pub IsWritable : Transaction → Type 0
IsWritable tx =
    (length tx.from ≡ address_size)
    × (length tx.to ≡ address_size)
    × (tx.value < 2 ^ 64)
    × (tx.gas_price < 2 ^ 64)

-- The transaction that comes back: its value is multiplied by 10^18, in 64 bits.
abbrev pub reread : Transaction → Transaction
reread tx = record {
  fields = record (tx.fields) { value = tx.value * wei_per_ether % u64_mod };
  cached_hash = none;
}

set_data_present_lem :
    (bytes : Bytes) (tx : Transaction)
    → tx.payload ≡ []
    → tx.cached_hash ≡ none
    → set_data_present bytes tx
      ≡ record { fields = record (tx.fields) { payload = bytes }; cached_hash = none }
unfolding Transaction.set_data
set_data_present_lem [] tx e c = rw (sym e, sym c) refl
set_data_present_lem (b ∷ bs) tx e c = refl

pub read_transaction-message :
    (now : ℕ) (hash : Hash) (tx : Transaction)
    → IsWritable tx
    → read_transaction (transaction_message now hash tx) ≡ returns (reread tx)
unfolding read_transaction transaction_message Transaction.set_gas_price Transaction.set_gas_limit
    Transaction.set_nonce Transaction.make
read_transaction-message now hash tx (f, t, v, g) =
    rw
      (
        from_vector_exact address_size tx.from f,
        from_vector_exact address_size tx.to t,
        from_string-to_string tx.value v,
        stoull-to_string tx.gas_price g,
      )
      (ap returns (
        set_data_present_lem tx.payload
          (Transaction.set_gas_price tx.gas_price (
            Transaction.set_gas_limit tx.gas_limit (
              Transaction.set_nonce tx.nonce
                (Transaction.make tx.from tx.to (tx.value * wei_per_ether % u64_mod)))))
          refl refl))

written-value : (o : Option Bytes) (bytes : Bytes) → written o ≡ of_value bytes → o ≡ some bytes
written-value none bytes h = ground arith
written-value (some b) bytes h = ground arith

-- A lawful codec reads what it wrote.
pub parse-serialize_to_bytes :
    {M : Type 0} (codec : Codec M) (law : IsLawful codec) (code : SerializationError)
    (message : Text) (m : M) (bytes : Bytes)
    → serialize_to_bytes codec m ≡ of_value bytes
    → parse codec code message bytes ≡ returns m
unfolding serialize_to_bytes
parse-serialize_to_bytes codec law code message m bytes h =
    ap (parsed code message)
      (law.parse-serialize m bytes (written-value (codec.serialize_to_array m) bytes h))

module _ (protobuf : Protobuf) (law : IsLawful protobuf.transactions) where
  -- With a lawful codec, a transaction with addresses of 20 bytes and a value and a gas price of 64 bits, for
  -- which the serializer returns bytes, is read back from them with its value multiplied by 10^18, in 64
  -- bits, and with all else as it was.
  pub deserialize_transaction-serialize_transaction :
      (now : ℕ) (tx : Transaction) (bytes : Bytes)
      → IsWritable tx
      → (serialize_transaction protobuf now tx).0 ≡ of_value bytes
      → deserialize_transaction protobuf bytes ≡ returns (reread tx)
  unfolding deserialize_transaction serialize_transaction
  deserialize_transaction-serialize_transaction now tx bytes w h =
      let hash = (Transaction.calculate_hash tx).0 in
      rw
        (parse-serialize_to_bytes protobuf.transactions law corrupted_data
          (codes "Failed to parse transaction protobuf") (transaction_message now hash tx) bytes h)
        (read_transaction-message now hash tx w)
