-- ===== src/Serialization/Tests.antt =====
-- The theorems about the validator and the serializer at a concrete block.
use chain_forge.Serialization.Serializer.Gas.{deserialize_block-not_valid}
use chain_forge.Serialization.Serializer.Blocks.{
  deserialize_block-serialize_block, reread_block, messages,
}
use chain_forge.Serialization.Serializer.RoundTrip.{
  deserialize_transaction-serialize_transaction, reread,
}
use chain_forge.Core.Block.{Block, transaction_hash}
use chain_forge.Serialization.Wire.{block_codec-IsLawful, transaction_codec-IsLawful, wire}
use chain_forge.Core.Bytes.{Bytes}
use chain_forge.Serialization.Serializer.{
  deserialize_block, transaction_message, deserialize_transaction, block_message, returns,
  serialize_to_bytes, serialize_block, serialize_transaction,
}
use chain_forge.Core.Address.{is_valid}
use chain_forge.Base.{false, arith, none, some, some, [], ◌+◌, Option, ℕ, ◌≡◌, ◌↔◌, refl, true}
use chain_forge.Core.Block
use chain_forge.Core.Transaction
use chain_forge.Core.Address
use chain_forge.Core.Tests.{paying, block}
use chain_forge.Errors.Expected.Void.{of_nothing}
use chain_forge.Serialization.Validator.{validate_block}
use chain_forge.Serialization.Validator.Laws.{IsStorable, validate_block_iff}

validate_block_iff_example : (validate_block block ≡ of_nothing) ↔ IsStorable block
validate_block_iff_example = validate_block_iff block

block_valid : Block.is_valid block ≡ true
unfolding Block.is_valid Transaction.is_valid Address.is_valid Address.is_zero Transaction.size
    Block.size
block_valid = refl

abbrev or_none : Option Bytes → Bytes
or_none none = []
or_none (some bytes) = bytes

abbrev clock : ℕ → ℕ
clock i = 500 + i

-- What the wire format makes of a transaction, and of a block with it twice.
abbrev paid : ℕ → Bytes
paid i = or_none (
    wire.transactions.serialize_to_array
      (transaction_message (clock i) (transaction_hash paying) paying))

abbrev blocked : Bytes
blocked = or_none (
    wire.blocks.serialize_to_array (block_message wire block (messages clock 0 block.transactions)))

deserialize_transaction-serialize_transaction_example :
    deserialize_transaction wire (paid 0) ≡ returns (reread paying)
unfolding serialize_transaction serialize_to_bytes
deserialize_transaction-serialize_transaction_example =
    deserialize_transaction-serialize_transaction wire transaction_codec-IsLawful (clock 0) paying
      (paid 0) (refl, refl, omega arith, omega arith) refl

deserialize_block-serialize_block_example :
    (serialize_block wire clock block ≡ returns blocked)
    × (deserialize_block wire blocked ≡ returns (reread_block block))
unfolding transaction_message block_message
deserialize_block-serialize_block_example =
    deserialize_block-serialize_block wire transaction_codec-IsLawful block_codec-IsLawful clock
      block blocked refl (omega arith)
      ((refl, refl, omega arith, omega arith), ((refl, refl, omega arith, omega arith), tt))
      ((paid 0, refl), ((paid 1, refl), tt)) refl

paying_valid : Transaction.is_valid paying ≡ true
unfolding Transaction.is_valid Address.is_valid Address.is_zero
paying_valid = refl

deserialize_block-not_valid_example :
    (c : Block) × (serialize_block wire clock block ≡ returns blocked)
    × (deserialize_block wire blocked ≡ returns c)
    × (Block.is_valid c ≡ false)
unfolding transaction_message block_message
deserialize_block-not_valid_example =
    deserialize_block-not_valid wire transaction_codec-IsLawful block_codec-IsLawful clock block
      blocked paying paying [] refl (omega arith)
      ((refl, refl, omega arith, omega arith), ((refl, refl, omega arith, omega arith), tt))
      ((paid 0, refl), ((paid 1, refl), tt)) refl refl paying_valid paying_valid (omega arith)
