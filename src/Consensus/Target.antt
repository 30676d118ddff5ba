-- ===== src/Consensus/Target.antt =====
-- What the difficulty of a mined block comes to, and the conversions between targets and
-- difficulties.
use chain_forge.Base.{
  ℕ, ◌/◌, ◌<◌, ◌≡◌, refl, ap, ◌∙◌, leb, if◌then◌else◌, arith, ◌++◌, take, length, length-append,
  take-append, take-append_beyond, take-append_within, ◌==◌, nat_eq,
}
use chain_forge.Core.Bytes.{be_bytes, be_value}
use chain_forge.Core.Bytes.Laws.{fit-eq-take, length-be_bytes}
use chain_forge.Core.Bytes.BigEndian.{be_value-be_bytes_alone}
use chain_forge.Core.Types.{hash_size, u64_mod}
use chain_forge.Core.Hash.{Hash, hash_sha256}
use chain_forge.Core.Block.{Block}
use chain_forge.Consensus.Types.{Difficulty, largest}
use chain_forge.Consensus.Pow.{difficulty_from_target, target_from_difficulty}
use chain_forge.Consensus.ProofOfWork.{hash_to_difficulty, meets_difficulty_target, block_data}

-- The difficulty that a block of a height shows: it does not depend on anything else.
abbrev pub height_difficulty : ℕ → Difficulty
height_difficulty height = if height == 0 then largest else largest / height

module _ (difficulty : Difficulty) (b : Block) (nonce : ℕ)
    (sized : length b.parent_hash ≡ hash_size) where
  -- The hash that mining computes is the height and the first 24 bytes of the parent's hash,
  -- whatever the nonce, the Merkle root, the time and the difficulty are.
  pub hash_sha256-block_data :
      hash_sha256 (block_data difficulty b nonce) ≡ be_bytes 8 b.height ++ take 24 b.parent_hash
  unfolding hash_sha256 block_data
  hash_sha256-block_data =
      fit-eq-take 32 _ (omega (arith, length-append {0}, length-be_bytes 8 b.height))
      ∙ take-append_beyond 32 24 (be_bytes 8 b.height) _ (omega (arith, length-be_bytes 8 b.height))
      ∙ ap (◌++◌ (be_bytes 8 b.height)) (take-append_within 24 b.parent_hash _ (omega arith))

  hash_to_difficulty-height :
      (rest : Hash)
      → b.height < u64_mod
      → hash_to_difficulty (be_bytes 8 b.height ++ rest) ≡ height_difficulty b.height
  unfolding hash_to_difficulty
  hash_to_difficulty-height rest small =
      let first : take 8 (be_bytes 8 b.height ++ rest) ≡ be_bytes 8 b.height =
        take-append 8 _ rest (length-be_bytes 8 b.height) in
      rw (first, be_value-be_bytes_alone 8 b.height small) refl

  -- A mined block meets a difficulty exactly when that is at most 2^64 - 1 divided by the height
  -- (at most 2^64 - 1 for height 0): no nonce makes a difference.
  pub meets_difficulty_target-height :
      b.height < u64_mod
      → meets_difficulty_target (hash_sha256 (block_data difficulty b nonce)) difficulty
        ≡ leb difficulty (height_difficulty b.height)
  unfolding meets_difficulty_target
  meets_difficulty_target-height small =
      rw (hash_sha256-block_data, hash_to_difficulty-height (take 24 b.parent_hash) small) refl

-- The target of a difficulty has eight zero bytes in front, so that its difficulty is the largest
-- one, whatever it was made from.
pub difficulty_from_target-target_from_difficulty :
    (d : Difficulty) → difficulty_from_target (target_from_difficulty d) ≡ largest
unfolding difficulty_from_target target_from_difficulty be_value
difficulty_from_target-target_from_difficulty d = refl
