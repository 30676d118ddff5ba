-- ===== src/Crypto/Keccak/Laws.antt =====
-- The stream hasher forgets how its input was cut up, and the two long hashes read too far.
use chain_forge.Base.{
  nat_eq, ltb, ◌==◌, inr, inl, ℕ, ◌<◌, ◌≤◌, ◌≡◌, refl, false, none, some, List, [], ◌∷◌, ◌++◌,
  length, arith, Bool-cases, Option-cases,
}
use chain_forge.Core.Bytes.{Bytes}
use chain_forge.Crypto.Types.{is_success}
use chain_forge.Crypto.Hash.{Digests}
use chain_forge.Crypto.Hash as Hash
use chain_forge.Crypto.Keccak.{
  StreamHasher, new_hasher, update, reset, finalize_256, finalize_160, finalize_384, finalize_512,
  keccak256, keccak160, keccak384, keccak512, internal_keccak, copy_first,
}

-- The calls on a stream hasher that change it.
pub data Call : Type 0 where
  updating : Bytes → Call
  resetting : Call

abbrev pub step : Call → StreamHasher → StreamHasher
step (updating bytes) s = update bytes s
step resetting s = reset s

abbrev pub run : List Call → StreamHasher → StreamHasher
run [] s = s
run (c ∷ cs) s = run cs (step c s)

-- What was given since the last reset, behind what is there.
abbrev pub input : List Call → Bytes → Bytes
input [] before = before
input (updating bytes ∷ cs) before = input cs (before ++ bytes)
input (resetting ∷ cs) before = input cs []

run-input :
    (cs : List Call) (before : Bytes)
    → run cs (record { buffer = before }) ≡ record { buffer = input cs before }
unfolding update reset
run-input [] before = refl
run-input (updating bytes ∷ cs) before = run-input cs (before ++ bytes)
run-input (resetting ∷ cs) before = run-input cs []

-- OpenSSL's digests have their sizes.
pub record IsSized (digests : Digests) : Type 0 where
  pub length-sha256 : (bytes hash : Bytes) → digests.sha256 bytes ≡ some hash → length hash ≡ 32
  pub length-ripemd160 :
      (bytes hash : Bytes) → digests.ripemd160 bytes ≡ some hash → length hash ≡ 20

module _ (digests : Digests) (sized : IsSized digests) where
  length-internal_sha256 :
      (bytes : Bytes) → length ((Hash.internal_sha256 digests bytes).value) ≡ 32
  unfolding Hash.internal_sha256
  length-internal_sha256 bytes = elim (Option-cases (digests.sha256 bytes)) [
    | inl e ↦ rw e refl
    | inr (h, e) ↦ rw e (sized.length-sha256 bytes h e)
  ]

  length-internal_keccak :
      (bits : ℕ) (bytes : Bytes)
      → 256 ≤ bits
      → length ((internal_keccak digests bytes bits).value) ≡ 32
  unfolding internal_keccak Hash.sha256
  length-internal_keccak bits bytes h =
      let r = Hash.internal_sha256 digests bytes in
      let size = length-internal_sha256 bytes in
      elim (Bool-cases (bits == 256)) [
        | inl e ↦ rw e size
        | inr e ↦ elim (Bool-cases (is_success r.error)) [
          | inl s ↦ rw (e, s) (let small : ltb bits 256 ≡ false = ground arith in rw small size)
          | inr s ↦ rw (e, s) size
        ]
      ]

  copy_too_far : (n : ℕ) (bytes : Bytes) → length bytes < n → copy_first n bytes ≡ none
  copy_too_far n bytes h = ground arith

-- However the input is cut into updates, what is finalized is the hash of the bytes since the last reset; and the
-- hashes of 384 and of 512 bits copy more bytes than the array of 32 has, whatever the input.
pub finalize-run :
    (digests : Digests)
    → IsSized digests
    → (cs : List Call)
    → (finalize_256 digests (run cs new_hasher) ≡ keccak256 digests (input cs []))
      × (finalize_160 digests (run cs new_hasher) ≡ keccak160 digests (input cs []))
      × (finalize_384 digests (run cs new_hasher) ≡ none)
      × (finalize_512 digests (run cs new_hasher) ≡ none)
unfolding finalize_256 finalize_160 finalize_384 finalize_512 new_hasher keccak384 keccak512
finalize-run digests sized cs =
    let all_input = run-input cs [] in
    let bytes = input cs [] in
    let far = length-internal_keccak digests sized 384 bytes (omega arith) in
    let farther = length-internal_keccak digests sized 512 bytes (omega arith) in
    let cut =
      copy_too_far digests sized 48 ((internal_keccak digests bytes 384).value) (omega arith) in
    let cut' =
      copy_too_far digests sized 64 ((internal_keccak digests bytes 512).value) (omega arith) in
    rw all_input (refl, refl, rw cut refl, rw cut' refl)
