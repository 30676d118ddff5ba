-- ===== src/Crypto/Random/Laws.antt =====
-- What a successful call of the generator gives.
use chain_forge.Base.{
  nat_eq, false, ◌==◌, true, inl, inr, ◌⊎◌, ℕ, zero, suc, ◌+◌, ◌%◌, ◌≡◌, refl, ap, none, some, [],
  ◌∷◌, arith, Option-cases,
}
use chain_forge.Core.Bytes.{Bytes, IsArray}
use chain_forge.Crypto.Types.{CryptoError, succeeded, fail_with}
use chain_forge.Crypto.Random.{Device, read_bytes, fill_bytes, generate_bytes}

-- The bytes are an array, or the device threw.
read_bytes-IsArray :
    (device : Device) (i n : ℕ)
    → (read_bytes device i n ≡ none)
      ⊎ ((bytes : Bytes) × (read_bytes device i n ≡ some bytes) × IsArray n bytes)
unfolding read_bytes
read_bytes-IsArray device i zero = inr ([], refl, (refl, tt))
read_bytes-IsArray device i (suc n) = elim (Option-cases (device i)) [
  | inl e ↦ inl (rw e refl)
  | inr (r, e) ↦ elim (read_bytes-IsArray device (i + 1) n) [
    | inl p ↦ inl (rw (e, p) refl)
    | inr (bytes, p, (l, h)) ↦ inr (r % 256 ∷ bytes, rw (e, p) refl, (ap suc l, (omega arith, h)))
  ]
]

-- A request for a positive number of bytes gives an array of as many, or reports that the device threw; one for no
-- bytes is refused.
pub generate_bytes_lem :
    (device : Device) (i n : ℕ)
    → (generate_bytes device i 0 ≡ fail_with 0 CryptoError.invalid_length)
      × (((generate_bytes device i (suc n)).error ≡ CryptoError.random_generation_failed)
          ⊎ ((succeeded (generate_bytes device i (suc n)) ≡ true)
              × IsArray (suc n) ((generate_bytes device i (suc n)).value)))
unfolding generate_bytes fill_bytes succeeded
generate_bytes_lem device i n =
    let positive : (suc n == 0) ≡ false = ground arith in
    (
      refl,
      elim (read_bytes-IsArray device i (suc n)) [
        | inl e ↦ inl (rw (positive, e) refl)
        | inr (bytes, e, a) ↦ inr (rw (positive, e) (refl, a))
      ],
    )
