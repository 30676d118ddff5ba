-- ===== src/Core/Block/Hashing.antt =====
-- What the hash of a block depends on.
use chain_forge.Base.{
  ◌≤◌, ◌≡◌, ap, ◌∙◌, ◌++◌, take, length, arith, length-append, take-append_beyond,
  take-append_within,
}
use chain_forge.Core.Bytes.{be_bytes}
use chain_forge.Core.Bytes.Laws.{fit-eq-take, length-be_bytes}
use chain_forge.Core.Types.{BlockHeader, hash_size}
use chain_forge.Core.Hash.{hash_sha256}
use chain_forge.Core.Block.{hash_data}

module _ (h : BlockHeader) (sized : length h.parent_hash ≡ hash_size) where
  hash_data-prefix : take 32 (hash_data h) ≡ be_bytes 8 h.height ++ take 24 h.parent_hash
  unfolding hash_data
  hash_data-prefix =
      take-append_beyond 32 24 (be_bytes 8 h.height) _ (omega (arith, length-be_bytes 8 h.height))
      ∙ ap (◌++◌ (be_bytes 8 h.height)) (take-append_within 24 h.parent_hash _ (omega arith))

  length-hash_data : 40 ≤ length (hash_data h)
  unfolding hash_data
  length-hash_data = omega (arith, length-append {0}, length-be_bytes 8 h.height)

  -- The hash of a header is its height and the first 24 bytes of the parent's hash: the Merkle
  -- root, the time, the nonce, the gas fields and the chain id do not enter it.
  pub hash_sha256-hash_data :
      hash_sha256 (hash_data h) ≡ be_bytes 8 h.height ++ take 24 h.parent_hash
  unfolding hash_sha256
  hash_sha256-hash_data =
      fit-eq-take 32 (hash_data h) (omega (arith, length-hash_data)) ∙ hash_data-prefix
