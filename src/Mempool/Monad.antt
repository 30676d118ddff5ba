-- ===== src/Mempool/Monad.antt =====
-- A method of the pool: it returns and changes the pool, or it asks for a mutex that its own thread
-- holds.
use chain_forge.Base.{true, if◌then◌else◌}
use chain_forge.Mempool.Types.{MempoolImpl}

-- `self_lock`: locking a `std::shared_mutex` that the thread holds has no defined result.
pub data Outcome (A : Type 0) : Type 0 where
  done : A → Outcome A
  self_lock : Outcome A

abbrev pub Action : Type 0 → Type 0 → Type 0
Action S A = S → Outcome (A × S)

module _ {S A : Type 0} where
  abbrev pub return : A → Action S A
  return a s = done (a, s)

  abbrev pub gets : (S → A) → Action S A
  gets f s = done (f s, s)

abbrev pub modify : {S : Type 0} → (S → S) → Action S (Unit {0})
modify f s = done (tt, f s)

infixl 5 ◌>>=◌ ◌>>◌
abbrev pub ◌>>=◌ : {S A B : Type 0} → Action S A → (A → Action S B) → Action S B
◌>>=◌ m f s = elim (m s) [ done (a, s') ↦ f a s' | self_lock ↦ self_lock ]

abbrev pub ◌>>◌ : {S A B : Type 0} → Action S A → Action S B → Action S B
m >> k = m >>= λ _. k

-- A lock for the length of a block.
abbrev pub with_lock : {D A : Type 0} → Action (MempoolImpl D) A → Action (MempoolImpl D) A
with_lock m p = if p.locked then self_lock else elim (m (record p { locked = true })) [
  | done (a, q) ↦ done (a, record q { locked = p.locked })
  | self_lock ↦ self_lock
]
