-- ===== src/Core/Transaction/Caching.antt =====
-- When the cached hash agrees with the data, and what the hash depends on.
use chain_forge.Base.{
  ◌||◌, true, Bool, false, take-append_within, take-append_beyond, ℕ, ◌≡◌, refl, ap, ◌∙◌, Option,
  none, some, List, [], ◌∷◌, ◌++◌, length, take, arith, ◌≤◌, length-append,
}
use chain_forge.Core.Bytes.{Bytes}
use chain_forge.Core.Bytes.Laws.{fit-eq-take}
use chain_forge.Core.Types.{TransactionData, address_size}
use chain_forge.Core.Hash.{Hash, hash_sha256}
use chain_forge.Core.Transaction.{
  write_fields, Transaction, of_data, set_from, set_to, set_value, set_gas_limit, set_gas_price,
  set_data, set_nonce, hash_data, calculate_hash,
}

-- The cache is empty or holds the hash of the data.
abbrev pub IsCoherent : Transaction → Type 0
IsCoherent t = (h : Hash) → t.cached_hash ≡ some h → h ≡ hash_sha256 (hash_data t.fields)

-- The calls that write to a transaction: the setters, `hash`, which fills the cache, and `write`,
-- which goes through the reference that `data()` returns.
pub data Call : Type 0 where
  from to payload : Bytes → Call
  value gas_limit gas_price nonce : ℕ → Call
  hash : Call
  write : TransactionData → Call

pub step : Transaction → Call → Transaction
step t (Call.from a) = set_from a t
step t (Call.to a) = set_to a t
step t (Call.payload bs) = set_data bs t
step t (Call.value v) = set_value v t
step t (Call.gas_limit g) = set_gas_limit g t
step t (Call.gas_price g) = set_gas_price g t
step t (Call.nonce n) = set_nonce n t
step t Call.hash = (calculate_hash t).1
step t (Call.write d) = write_fields d t

pub run : Transaction → List Call → Transaction
run t [] = t
run t (c ∷ cs) = run (step t c) cs

-- A hash was taken and not given up since by a setter.
abbrev taken_by : Bool → Call → Bool
taken_by taken Call.hash = true
taken_by taken (Call.write d) = taken
taken_by taken _ = false

-- The data were written through the reference while a hash was taken, and no setter was called since.
abbrev stale_by : Bool → Bool → Call → Bool
stale_by taken stale Call.hash = stale
stale_by taken stale (Call.write d) = taken || stale
stale_by taken stale _ = false

abbrev pub is_stale : Bool → Bool → List Call → Bool
is_stale taken stale [] = stale
is_stale taken stale (c ∷ cs) = is_stale (taken_by taken c) (stale_by taken stale c) cs

-- What is known of the cache
abbrev Knows : Bool → Bool → Transaction → Type 0
Knows taken stale t = (taken ≡ false → t.cached_hash ≡ none) × (stale ≡ false → IsCoherent t)

calculate_hash-IsCoherent : (t : Transaction) → IsCoherent t → IsCoherent (calculate_hash t).1
unfolding calculate_hash
calculate_hash-IsCoherent t v h e = ground (arith, v h)

-- A setter empties the cache.
emptied : (t : Transaction) (taken stale : Bool) → t.cached_hash ≡ none → Knows taken stale t
emptied t taken stale e = (λ n. e, λ n h at. absurd cc)

step-Knows :
    (t : Transaction) (taken stale : Bool) (c : Call)
    → Knows taken stale t
    → Knows (taken_by taken c) (stale_by taken stale c) (step t c)
unfolding step set_from set_to set_value set_gas_limit set_gas_price set_data set_nonce write_fields
step-Knows t taken stale (Call.from a) v = emptied (set_from a t) false false refl
step-Knows t taken stale (Call.to a) v = emptied (set_to a t) false false refl
step-Knows t taken stale (Call.payload a) v = emptied (set_data a t) false false refl
step-Knows t taken stale (Call.value a) v = emptied (set_value a t) false false refl
step-Knows t taken stale (Call.gas_limit a) v = emptied (set_gas_limit a t) false false refl
step-Knows t taken stale (Call.gas_price a) v = emptied (set_gas_price a t) false false refl
step-Knows t taken stale (Call.nonce a) v = emptied (set_nonce a t) false false refl
step-Knows t taken stale Call.hash v = (λ n. absurd cc, λ n. calculate_hash-IsCoherent t (v.1 n))
step-Knows t taken stale (Call.write d) v =
    (v.0, λ n h at. let empty : t.cached_hash ≡ none = v.0 (ground arith) in absurd cc)

run-Knows :
    (t : Transaction) (taken stale : Bool) (cs : List Call)
    → Knows taken stale t
    → is_stale taken stale cs ≡ false
    → IsCoherent (run t cs)
unfolding run
run-Knows t taken stale [] v n = v.1 n
run-Knows t taken stale (c ∷ cs) v n =
    run-Knows (step t c) (taken_by taken c) (stale_by taken stale c) cs
      (step-Knows t taken stale c v) n

pub calculate_hash_coherent :
    (t : Transaction) → IsCoherent t → (calculate_hash t).0 ≡ hash_sha256 (hash_data t.fields)
unfolding calculate_hash
calculate_hash_coherent t v = calc (t.cached_hash) refl
  where
    calc :
        (o : Option Hash)
        → t.cached_hash ≡ o
        → (calculate_hash t).0 ≡ hash_sha256 (hash_data t.fields)
    calc none e = ground arith
    calc (some h) e = ground (arith, v h e)

rehashed :
    (t : Transaction) (d : TransactionData)
    → (calculate_hash (write_fields d (calculate_hash t).1)).0 ≡ (calculate_hash t).0
unfolding calculate_hash write_fields
rehashed t d = ground arith

-- After any sequence of setters, hash calls and writes through `data()` on a transaction made
-- from data, `calculate_hash` returns the hash of the data that the transaction then holds, if no
-- write through `data()` came behind a hash call without a setter in between or afterwards. After
-- such a write at the end it returns the hash that was cached, whatever was written.
pub calculate_hash-run :
    (d d' : TransactionData) (cs : List Call)
    → is_stale false false cs ≡ false
    → let t = run (of_data d) cs in
      ((calculate_hash t).0 ≡ hash_sha256 (hash_data t.fields))
      × ((calculate_hash (write_fields d' (calculate_hash t).1)).0
          ≡ hash_sha256 (hash_data t.fields))
unfolding of_data
calculate_hash-run d d' cs n =
    let v = run-Knows (of_data d) false false cs (emptied (of_data d) false false refl) n in
    let right = calculate_hash_coherent (run (of_data d) cs) v in
    (right, rehashed (run (of_data d) cs) d' ∙ right)

module _ (d : TransactionData) (sent : length d.from ≡ address_size)
    (paid : length d.to ≡ address_size) where
  hash_data-prefix : take 32 (hash_data d) ≡ d.from ++ take 12 d.to
  unfolding hash_data
  hash_data-prefix =
      take-append_beyond 32 12 d.from _ (omega arith)
      ∙ ap (◌++◌ d.from) (take-append_within 12 d.to _ (omega arith))

  length-hash_data : 40 ≤ length (hash_data d)
  unfolding hash_data
  length-hash_data = omega (arith, length-append {0})

  -- The hash of a transaction made from data with addresses of twenty bytes is the sender followed
  -- by the first twelve bytes of the recipient: value, gas, nonce and payload do not enter it.
  pub calculate_hash-prefix : (calculate_hash (of_data d)).0 ≡ d.from ++ take 12 d.to
  unfolding calculate_hash of_data hash_sha256
  calculate_hash-prefix =
      fit-eq-take 32 (hash_data d) (omega (arith, length-hash_data)) ∙ hash_data-prefix
