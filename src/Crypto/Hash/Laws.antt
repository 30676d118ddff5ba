-- ===== src/Crypto/Hash/Laws.antt =====
-- The loop of `hash_many` ends, and hexadecimal text is read without an exception.
use mathlib.Core.Path.{subst}
use chain_forge.Base.{
  nat_eq, ◌&&◌, ◌*◌, ◌==◌, if◌then◌else◌, inr, inl, ◌<◌, All, ℕ, zero, suc, ◌+◌, ◌/◌, ◌≤◌, ◌≡◌,
  refl, true, some, List, [], ◌∷◌, length, all, arith, Bool-cases,
}
use chain_forge.Base.Text.{Text}
use chain_forge.Core.Bytes.{Bytes, IsArray}
use chain_forge.Core.Bytes as Core
use chain_forge.Core.Bytes.Laws.{from_hex-xdigits, length-to_hex, from_hex-to_hex}
use chain_forge.Core.Exceptions.{ok}
use chain_forge.Crypto.Types.{
  is_success, CryptoError, CryptoResult, succeed, succeeded, and_then, fail_with,
}
use chain_forge.Crypto.Hash.{
  zeros, hash256_size, Digests, is_xdigit, to_hex, from_hex, is_valid_hex_hash, hash_pair,
  hash_level, hash_loop, hash_many,
}

length-and_then :
    (r : CryptoResult Bytes) (n : ℕ) (f : Bytes → CryptoResult (List Bytes))
    → ((p : Bytes) → length ((f p).value) ≤ n)
    → length ((and_then [] r f).value) ≤ n
length-and_then r n f h = elim (Bool-cases (is_success r.error)) [
  | inl e ↦ rw e (h r.value)
  | inr e ↦ rw e (omega arith)
]

length-and_then_list :
    (r : CryptoResult (List Bytes)) (p : Bytes)
    → length ((and_then [] r (λ ps. succeed (p ∷ ps))).value) ≤ suc (length r.value)
length-and_then_list r p = elim (Bool-cases (is_success r.error)) [
  | inl e ↦ rw e (omega arith)
  | inr e ↦ rw e (omega arith)
]

and_then-success :
    {A B : Type 0} (b : B) (r : CryptoResult A) (f : A → CryptoResult B)
    → is_success (and_then b r f).error ≡ true
    → and_then b r f ≡ f r.value
and_then-success b r f s = elim (Bool-cases (is_success r.error)) [
  | inl e ↦ rw e refl
  | inr e ↦
      let t : is_success r.error ≡ true =
        subst
          (λ x.
            is_success ((if x then f r.value else record { value = b; error = r.error }).error)
            ≡ true)
          e s in
      absurd (ground arith)
]

module _ (digests : Digests) where
  length-hash_level :
      (hs : List Bytes) → length ((hash_level digests hs).value) ≤ (length hs + 1) / 2
  unfolding hash_level
  length-hash_level [] = omega arith
  length-hash_level (h ∷ []) =
      length-and_then (hash_pair digests h h) 1 (λ p. succeed (p ∷ [])) (λ p. omega arith)
  length-hash_level (h ∷ k ∷ hs) =
      let rest = length-hash_level hs in
      length-and_then (hash_pair digests h k) ((length (h ∷ k ∷ hs) + 1) / 2)
        (λ p. and_then [] (hash_level digests hs) (λ ps. succeed (p ∷ ps)))
        (λ p. let inner = length-and_then_list (hash_level digests hs) p in omega arith)

  -- A level that succeeds is not empty.
  hash_level-nonempty :
      (h : Bytes) (hs : List Bytes)
      → is_success (hash_level digests (h ∷ hs)).error ≡ true
      → 1 ≤ length ((hash_level digests (h ∷ hs)).value)
  unfolding hash_level
  hash_level-nonempty h [] s =
      rw (and_then-success [] (hash_pair digests h h) (λ p. succeed (p ∷ [])) s) (omega arith)
  hash_level-nonempty h (k ∷ hs) s =
      let r = hash_pair digests h k in
      let rest = hash_level digests hs in
      let f : Bytes → CryptoResult (List Bytes) = λ p. and_then [] rest (λ ps. succeed (p ∷ ps)) in
      let outer = and_then-success [] r f s in
      let inner =
        and_then-success [] rest (λ ps. succeed (r.value ∷ ps))
          (subst (λ x. is_success x.error ≡ true) outer s) in
      rw (outer, inner) (omega arith)

  -- The loop ends within as many rounds as there are hashes.
  hash_loop_total :
      (fuel : ℕ) (hs : List Bytes)
      → 1 ≤ length hs
      → length hs ≤ fuel
      → (r : CryptoResult Bytes) × (hash_loop digests fuel hs ≡ some r)
  unfolding hash_loop succeeded
  hash_loop_total fuel [] h k = absurd (omega arith)
  hash_loop_total fuel (a ∷ []) h k = (succeed a, refl)
  hash_loop_total zero (a ∷ b ∷ hs) h k = absurd (omega arith)
  hash_loop_total (suc fuel) (a ∷ b ∷ hs) h k =
      elim (Bool-cases (is_success ((hash_level digests (a ∷ b ∷ hs)).error))) [
        | inl e ↦
            let small = length-hash_level (a ∷ b ∷ hs) in
            let some_left = hash_level-nonempty a (b ∷ hs) e in
            let (r, p) =
              hash_loop_total fuel ((hash_level digests (a ∷ b ∷ hs)).value) some_left
                (omega arith) in
            (r, rw e p)
        | inr e ↦ (fail_with hash256_size ((hash_level digests (a ∷ b ∷ hs)).error), rw e refl)
      ]

all-to_hex : (bs : Bytes) → All (λ b. b < 256) bs → all is_xdigit (to_hex bs) ≡ true
unfolding to_hex Core.to_hex
all-to_hex [] h = refl
all-to_hex (b ∷ bs) (h, hs) = ground (arith, all-to_hex bs hs)

-- The text of a hash is read back.
pub from_hex-to_hex_hash :
    (hash : Bytes) → IsArray hash256_size hash → from_hex (to_hex hash) ≡ ok (succeed hash)
unfolding from_hex is_valid_hex_hash to_hex
from_hex-to_hex_hash hash (l, h) =
    let size = length-to_hex hash in
    let digits = all-to_hex hash h in
    rw (digits, from_hex-to_hex hash256_size hash (l, h), size, l) refl

-- `from_hex` never throws: it gives an array, or the error of a wrong length.
from_hex_total : (t : Text) → (r : CryptoResult Bytes) × (from_hex t ≡ ok r)
unfolding from_hex is_valid_hex_hash
from_hex_total t = elim (Bool-cases (length t == hash256_size * 2 && all is_xdigit t)) [
  | inl e ↦
      let (bs, p) = from_hex-xdigits hash256_size t (ground arith) (ground arith) in
      (succeed bs, rw p (ground arith))
  | inr e ↦ (fail_with hash256_size CryptoError.invalid_length, ground arith)
]

-- A list of hashes has a root: the loop ends within as many rounds as there are hashes.
pub hash_many_total :
    (digests : Digests) (hs : List Bytes)
    → (r : CryptoResult Bytes) × (hash_many digests hs ≡ some r)
unfolding hash_many
hash_many_total digests [] = (succeed (zeros hash256_size), refl)
hash_many_total digests (h ∷ hs) =
    hash_loop_total digests (length (h ∷ hs)) (h ∷ hs) (omega arith) (omega arith)
