-- ===== src/Core/Exceptions.antt =====
-- The standard exceptions that the core module throws, as the error side of a result.
use chain_forge.Base.{Bool, true, false}

pub data Exception : Type 0 where
  invalid_argument out_of_range overflow_error underflow_error domain_error : Exception

pub data Result {ℓ} (A : Type ℓ) : Type ℓ where
  ok : A → Result A
  throw : Exception → Result A

infixl 5 ◌>>=◌ ◌>>◌
abbrev pub ◌>>=◌ {ℓ κ} : {A : Type ℓ} {B : Type κ} → Result A → (A → Result B) → Result B
ok a >>= f = f a
throw e >>= f = throw e

abbrev pub ◌>>◌ {ℓ} : {B : Type ℓ} → Result (Unit {0}) → Result B → Result B
m >> k = m >>= λ _. k

-- `if (c) throw e;`
abbrev pub throw_if : Bool → Exception → Result (Unit {0})
throw_if true e = throw e
throw_if false e = ok tt
