-- ===== src/Base/Int.antt =====
-- Signed integers over the native numbers, and their 64-bit conversions.
use Prim.Native.Nat.{ℕ, ◌-◌, ◌%◌, ◌^◌}
use mathlib.Core.Bool.{Bool, true, false}
use chain_forge.Base.Tests.{ltb, if◌then◌else◌}

-- `negsuc n` is -(n + 1).
pub data ℤ : Type 0 where
  pos : ℕ → ℤ
  negsuc : ℕ → ℤ

abbrev pub ltb_ℤ : ℤ → ℤ → Bool
ltb_ℤ (pos a) (pos b) = ltb a b
ltb_ℤ (pos a) (negsuc b) = false
ltb_ℤ (negsuc a) (pos b) = true
ltb_ℤ (negsuc a) (negsuc b) = ltb b a

-- `static_cast<uint64_t>` of a signed integer.
abbrev pub to_u64 : ℤ → ℕ
to_u64 (pos a) = a % 2 ^ 64
to_u64 (negsuc a) = 2 ^ 64 - 1 - a % 2 ^ 64

-- `static_cast<int64_t>` of a 64-bit number.
abbrev pub to_i64 : ℕ → ℤ
to_i64 a = if ltb a (2 ^ 63) then pos a else negsuc (2 ^ 64 - 1 - a)
