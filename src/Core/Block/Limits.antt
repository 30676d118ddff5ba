-- ===== src/Core/Block/Limits.antt =====
-- The gas limit of a block, and block validity.
use chain_forge.Core.Transaction.Validity.{is_valid_iff, IsAcceptable}
use chain_forge.Base.{ℕ, ◌+◌, ◌%◌, ◌≤◌, ◌<◌, ◌≡◌, ◌↔◌, true, List, [], ◌∷◌, arith, all, All}
use chain_forge.Core.Types.{u64_mod, max_block_size, size_of_block_header}
use chain_forge.Core.Transaction.{Transaction}
use chain_forge.Core.Transaction
use chain_forge.Core.Block.{Block, gas_within, validate_gas_limits, is_valid, add_sizes, size}

-- The gas of all transactions, with no bound on the sum.
abbrev pub total_gas : List Transaction → ℕ
total_gas [] = 0
total_gas (t ∷ ts) = t.gas_limit + total_gas ts

abbrev pub total_size : List Transaction → ℕ
total_size [] = 0
total_size (t ∷ ts) = Transaction.size t + total_size ts

gas_within_iff :
    (limit total : ℕ) (ts : List Transaction)
    → total + total_gas ts < u64_mod
    → total ≤ limit
    → (gas_within limit total ts ≡ true) ↔ (total + total_gas ts ≤ limit)
unfolding gas_within
gas_within_iff limit total [] h k = ground arith
gas_within_iff limit total (t ∷ ts) h k =
    ground (arith, gas_within_iff limit ((total + t.gas_limit) % u64_mod) ts)

-- If the gas limits of the transactions sum to less than 2 ^ 64, the check of the block passes
-- exactly when that sum is at most the gas limit of the block.
pub validate_gas_limits_iff :
    (b : Block)
    → total_gas b.transactions < u64_mod
    → (validate_gas_limits b ≡ true) ↔ (total_gas b.transactions ≤ b.gas_limit)
unfolding validate_gas_limits
validate_gas_limits_iff b h = ground (arith, gas_within_iff b.gas_limit 0 b.transactions)

add_sizes-eq : (acc : ℕ) (ts : List Transaction) → add_sizes acc ts ≡ acc + total_size ts
unfolding add_sizes
add_sizes-eq acc [] = omega arith
add_sizes-eq acc (t ∷ ts) = omega (arith, add_sizes-eq (acc + Transaction.size t) ts)

all_valid :
    (ts : List Transaction)
    → (all Transaction.is_valid ts ≡ true) ↔ All (λ t. Transaction.is_valid t ≡ true) ts
all_valid [] = ground arith
all_valid (t ∷ ts) = ground (arith, all_valid ts)

-- What validity comes to while the gas does not wrap.
pub record IsSound (b : Block) : Type 0 where
  pub limit : 0 < b.gas_limit
  pub chain : 0 < b.chain_id
  pub each : All (λ t. IsAcceptable t.fields) b.transactions
  pub gas : total_gas b.transactions ≤ b.gas_limit
  pub fits : size_of_block_header + total_size b.transactions ≤ max_block_size

All-IsAcceptable :
    (ts : List Transaction)
    → All (λ t. Transaction.is_valid t ≡ true) ts ↔ All (λ t. IsAcceptable t.fields) ts
All-IsAcceptable [] = (λ h. h, λ h. h)
All-IsAcceptable (t ∷ ts) = (
  λ h. ((is_valid_iff t).0 h.0, (All-IsAcceptable ts).0 h.1),
  λ h. ((is_valid_iff t).1 h.0, (All-IsAcceptable ts).1 h.1),
)

all-IsAcceptable :
    (ts : List Transaction)
    → (all Transaction.is_valid ts ≡ true) ↔ All (λ t. IsAcceptable t.fields) ts
all-IsAcceptable ts = (
  λ h. (All-IsAcceptable ts).0 ((all_valid ts).0 h),
  λ h. (all_valid ts).1 ((All-IsAcceptable ts).1 h),
)

Block-is_valid-IsSound :
    (b : Block) → total_gas b.transactions < u64_mod → is_valid b ≡ true → IsSound b
unfolding is_valid size
Block-is_valid-IsSound b h v = ground (
  arith,
  all-IsAcceptable b.transactions,
  validate_gas_limits_iff b h,
  add_sizes-eq size_of_block_header b.transactions,
)

Block-is_valid_complete :
    (b : Block) → total_gas b.transactions < u64_mod → IsSound b → is_valid b ≡ true
unfolding is_valid size
Block-is_valid_complete b h v = ground (
  arith,
  all-IsAcceptable b.transactions,
  validate_gas_limits_iff b h,
  add_sizes-eq size_of_block_header b.transactions,
)

-- If the gas limits of its transactions sum to less than 2 ^ 64, a block is valid exactly when its
-- gas limit and chain id are positive, each transaction is acceptable, the gas limits sum to at most
-- its own, and its size is at most `MAX_BLOCK_SIZE`.
pub Block-is_valid_iff :
    (b : Block) → total_gas b.transactions < u64_mod → (is_valid b ≡ true) ↔ IsSound b
Block-is_valid_iff b h = (Block-is_valid-IsSound b h, Block-is_valid_complete b h)
