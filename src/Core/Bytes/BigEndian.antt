-- ===== src/Core/Bytes/BigEndian.antt =====
-- Reading a big-endian number back from its bytes.
use chain_forge.Base.{ℕ, zero, suc, ◌+◌, ◌*◌, ◌/◌, ◌%◌, ◌^◌, ◌<◌, ◌≡◌, refl, arith, ◌++◌, []}
use chain_forge.Core.Bytes.{Bytes, be_bytes, be_value}
use mathlib.Core.List.{append-nil}
use native.Mathlib.Nat.{div-div-eq-div-mul, div-eq_of_lt}
use native.Mathlib.Numerals.{towards_suc}

pow_byte : (n : ℕ) → 2 ^ (suc n * 8) ≡ 2 ^ (n * 8) * 256
pow_byte n = let e : suc n * 8 ≡ n * 8 + 8 = omega arith in rw e (simp towards_suc (omega arith))

next_byte : (n v : ℕ) → v / 2 ^ (suc n * 8) ≡ v / 2 ^ (n * 8) / 256
next_byte n v = rw (pow_byte n, div-div-eq-div-mul v (2 ^ (n * 8)) 256) refl

be_value-at :
    (n v acc : ℕ) (rest : Bytes)
    → acc ≡ v / 2 ^ (n * 8)
    → be_value acc (be_bytes n v ++ rest) ≡ be_value v rest
unfolding be_value be_bytes
be_value-at zero v acc rest h = let e : acc ≡ v = omega arith in rw e refl
be_value-at (suc n) v acc rest h =
    be_value-at n v (acc * 256 + v / 2 ^ (n * 8) % 256) rest (omega (arith, next_byte n v))

-- The bytes of a number that fits them are read back, and what follows them is read on.
pub be_value-be_bytes :
    (n v : ℕ) (rest : Bytes) → v < 2 ^ (n * 8) → be_value 0 (be_bytes n v ++ rest) ≡ be_value v rest
be_value-be_bytes n v rest h = be_value-at n v 0 rest (omega (arith, div-eq_of_lt h))

pub be_value-be_bytes_alone : (n v : ℕ) → v < 2 ^ (n * 8) → be_value 0 (be_bytes n v) ≡ v
unfolding be_value
be_value-be_bytes_alone n v h = rw (append-nil (be_bytes n v)) at (be_value-be_bytes n v [] h)
