-- ===== src/Consensus/Bounds.antt =====
-- The difficulty and its bounds.
use chain_forge.Base.{
  nat_eq, ap, ◌==◌, ℕ, ◌*◌, ◌/◌, ◌≤◌, ◌<◌, ◌≡◌, refl, true, false, ltb, arith, List, [], ◌∷◌, All,
  exact_fractions,
}
use native.Mathlib.Nat.{mul-le-mul_left, le-mul_of_pos_right}
use chain_forge.Base.Double.{Double}
use chain_forge.Consensus.Types.{largest}
use chain_forge.Consensus.Pow.{clamp, bitcoin_style_adjustment, bitcoin_ratio}
use chain_forge.Consensus.ProofOfWork.{
  ProofOfWork, set_difficulty, set_difficulty_params, stop_mining,
}
use chain_forge.Consensus.Interleaving.{Method, setting, configuring, stopping, apply}

module _ {D : Type 0} (F : Double D) where
  abbrev pub calls : List Method → ProofOfWork D → ProofOfWork D
  calls [] p = p
  calls (m ∷ ms) p = calls ms (apply F m p)

  -- The bounds of a new configuration are in order.
  abbrev pub IsOrdered : Method → Type 0
  IsOrdered (configuring params) = params.min_difficulty ≤ params.max_difficulty
  IsOrdered _ = Unit {0}

  pub record IsWithin (p : ProofOfWork D) : Type 0 where
    pub above : p.difficulty_params.min_difficulty ≤ p.current_difficulty
    pub below : p.current_difficulty ≤ p.difficulty_params.max_difficulty

  apply-IsWithin :
      (m : Method) (p : ProofOfWork D) → IsOrdered m → IsWithin p → IsWithin (apply F m p)
  unfolding set_difficulty set_difficulty_params stop_mining clamp
  apply-IsWithin (setting d) p o v = record {
    above = ground (arith, v.above, v.below);
    below = ground (arith, v.above, v.below);
  }
  apply-IsWithin (configuring params) p o v = record { above = ground arith; below = ground arith }
  apply-IsWithin stopping p o v = record { above = v.above; below = v.below }

  -- If the difficulty is within its bounds and every new configuration has its bounds in order, it
  -- stays within the bounds through any sequence of `set_difficulty`, `set_difficulty_params` and
  -- `stop_mining`.
  pub calls-IsWithin :
      (ms : List Method) (p : ProofOfWork D) → All IsOrdered ms → IsWithin p → IsWithin (calls ms p)
  calls-IsWithin [] p o v = v
  calls-IsWithin (m ∷ ms) p o v = calls-IsWithin ms (apply F m p) o.1 (apply-IsWithin m p o.0 v)

  clamp-bounds :
      (v low high : ℕ) → low ≤ high → (low ≤ clamp v low high) × (clamp v low high ≤ high)
  unfolding clamp
  clamp-bounds v low high h = (ground arith, ground arith)

one : (n : ℕ) → n / (1 * 1) ≡ n
one n = omega arith

bitcoin_ratio-slow :
    (actual target factor : ℕ)
    → 0 < factor
    → factor * target < actual
    → bitcoin_ratio exact_fractions actual target factor ≡ (factor, 1)
unfolding bitcoin_ratio
bitcoin_ratio-slow actual target factor f slow =
    let not_low : ltb (actual * 1 * (1 * factor)) (1 * (1 * target)) ≡ false = ground (
      arith,
      mul-le-mul_left target f,
      le-mul_of_pos_right actual f,
      le-mul_of_pos_right target f,
    ) in
    let high : ltb (factor * (1 * target)) (actual * 1 * 1) ≡ true = ground arith in
    rw (not_low, high) refl

-- Over exact fractions, blocks that took more than `factor` times the target time multiply the
-- difficulty by that factor, within the default bounds: the slower the blocks, the harder they get.
pub bitcoin_style_adjustment-slow :
    (actual target current factor : ℕ)
    → 0 < target
    → 0 < factor
    → factor * target < actual
    → bitcoin_style_adjustment exact_fractions actual target current factor
      ≡ clamp (current * factor) 1 largest
unfolding bitcoin_style_adjustment
bitcoin_style_adjustment-slow actual target current factor t f slow =
    let some_time : (target == 0) ≡ false = ground arith in
    rw (some_time, bitcoin_ratio-slow actual target factor f slow)
      (ap (λ (x : ℕ). clamp x 1 largest) (one (current * factor)))
