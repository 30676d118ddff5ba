-- ===== src/Consensus/Pow.antt =====
-- The namespace `pow` of modules/consensus/src/consensus_impl.cpp, over floating point as an
-- interface.
use chain_forge.Base.{
  nat_eq, ℕ, ◌+◌, ◌/◌, ◌%◌, not, List, [], ◌∷◌, ◌++◌, ◌==◌, ◌||◌, ltb, if◌then◌else◌, length, take,
  replicate,
}
use chain_forge.Base.Double.{Double}
use chain_forge.Core.Bytes.{be_bytes, be_value}
use chain_forge.Core.Types.{u64_mod}
use chain_forge.Core.Hash.{Hash}
use chain_forge.Consensus.Types.{Difficulty, largest, default_params}

-- `std::clamp`
unfoldable pub clamp : ℕ → ℕ → ℕ → ℕ
clamp v low high = if ltb v low then low else if ltb high v then high else v

-- The first eight bytes as a number, inverted.
unfoldable pub difficulty_from_target : Hash → Difficulty
difficulty_from_target target =
    let target_value : ℕ = be_value 0 (take 8 target) in
    if target_value == 0 then largest else largest / target_value

-- The quotient stands in the last eight bytes.
unfoldable pub target_from_difficulty : Difficulty → Hash
target_from_difficulty difficulty =
    let d : ℕ = if difficulty == 0 then 1 else difficulty in
    replicate 24 0 ++ be_bytes 8 (largest / d)

module _ {D : Type 0} (F : Double D) where
  -- `std::clamp` of two doubles.
  abbrev clamp_double : D → D → D → D
  clamp_double v low high = if F.less v low then low else if F.less high v then high else v

  unfoldable pub estimate_mining_time_seconds : Difficulty → D → ℕ
  estimate_mining_time_seconds difficulty hash_rate =
      if (difficulty == 0) || not (F.less (F.of_u64 0) hash_rate)
      then 0
      else F.to_u64 (F.div (F.mul (F.of_u64 difficulty) (F.literal 1_000_000 1)) hash_rate)

  abbrev sum_double : D → List ℕ → D
  sum_double acc [] = acc
  sum_double acc (t ∷ ts) = sum_double (F.add acc (F.of_u64 t)) ts

  unfoldable pub calculate_network_hash_rate : List ℕ → Difficulty → D
  calculate_network_hash_rate [] current_difficulty = F.literal 0 1
  calculate_network_hash_rate (t ∷ ts) current_difficulty =
      let avg : D = F.div (sum_double (F.literal 0 1) (t ∷ ts)) (F.of_u64 (length (t ∷ ts))) in
      F.div (F.of_u64 current_difficulty) avg

  -- The difficulty scaled by a factor, within the default bounds.
  abbrev scaled : Difficulty → D → Difficulty
  scaled current factor =
      clamp (F.to_u64 (F.mul (F.of_u64 current) factor)) default_params.min_difficulty
        default_params.max_difficulty

  -- The actual time over the target time, between one over the factor and the factor.
  unfoldable pub bitcoin_ratio : ℕ → ℕ → ℕ → D
  bitcoin_ratio actual target factor =
      clamp_double (F.div (F.of_u64 actual) (F.of_u64 target))
        (F.div (F.literal 1 1) (F.of_u64 factor)) (F.of_u64 factor)

  unfoldable pub bitcoin_style_adjustment : ℕ → ℕ → Difficulty → ℕ → Difficulty
  unfolding clamp bitcoin_ratio
  bitcoin_style_adjustment actual target current factor =
      if target == 0 then current else scaled current (bitcoin_ratio actual target factor)

  -- A running total of 64 bits.
  abbrev sum_u64 : ℕ → List ℕ → ℕ
  sum_u64 acc [] = acc
  sum_u64 acc (t ∷ ts) = sum_u64 ((acc + t) % u64_mod) ts

  unfoldable pub ethereum_style_adjustment : List ℕ → ℕ → Difficulty → Difficulty
  unfolding clamp
  ethereum_style_adjustment [] target current = current
  ethereum_style_adjustment (t ∷ ts) target current =
      let avg : D = F.div (F.of_u64 (sum_u64 0 (t ∷ ts))) (F.of_u64 (length (t ∷ ts))) in
      scaled current (clamp_double (F.div (F.of_u64 target) avg) (F.literal 1 2) (F.literal 2 1))
