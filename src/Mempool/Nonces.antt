-- ===== src/Mempool/Nonces.antt =====
-- The index of the pool by sender and nonce, `account_nonces_`.
use chain_forge.Base.{ℕ, Option, none, some, [], ◌∷◌, nat_eq, bytes_eq, ltb, if◌then◌else◌}
use chain_forge.Base.Map.{Map, lookup, insert, erase}
use chain_forge.Core.Hash.{Hash}
use chain_forge.Core.Address.{Address}
use chain_forge.Mempool.Types.{MempoolImpl}

-- The highest nonce, of those seen and of the rest of the map.
abbrev pub max_nonce : ℕ → Map ℕ Hash → ℕ
max_nonce n [] = n
max_nonce n ((m, h) ∷ r) = max_nonce (if ltb n m then m else n) r

abbrev pub highest : Map ℕ Hash → Option ℕ
highest [] = none
highest ((n, h) ∷ r) = some (max_nonce n r)

abbrev pub store_or_erase :
    Address → Map ℕ Hash → Map Address (Map ℕ Hash) → Map Address (Map ℕ Hash)
store_or_erase a [] accounts = erase a accounts
store_or_erase a (e ∷ m) accounts = insert a (e ∷ m) accounts

-- The body of `remove_account_nonce`: an account without nonces is dropped.
unfoldable pub without_nonce : Address → ℕ → Map Address (Map ℕ Hash) → Map Address (Map ℕ Hash)
without_nonce a n accounts = elim (lookup a accounts) [
  | none ↦ accounts
  | some m ↦ store_or_erase a (erase n m) accounts
]

-- `account_nonces_[address]` creates an empty map where there is none.
abbrev pub or_empty : Option (Map ℕ Hash) → Map ℕ Hash
or_empty none = []
or_empty (some m) = m

module _ {D : Type 0} where
  unfoldable pub get_account_nonce : Address → MempoolImpl D → Option ℕ
  get_account_nonce a p = elim (lookup a p.account_nonces) [ none ↦ none | some m ↦ highest m ]

  abbrev pub nonces_of : Address → MempoolImpl D → Map ℕ Hash
  nonces_of a p = or_empty (lookup a p.account_nonces)

  -- `account_nonces_[address][nonce] = tx_hash`
  unfoldable pub update_account_nonce : Address → ℕ → Hash → MempoolImpl D → MempoolImpl D
  update_account_nonce a n h p = record p {
    account_nonces = insert a (insert n h (nonces_of a p)) p.account_nonces;
  }

  unfoldable pub remove_account_nonce : Address → ℕ → MempoolImpl D → MempoolImpl D
  unfolding without_nonce
  remove_account_nonce a n p = record p { account_nonces = without_nonce a n p.account_nonces }
