-- ===== src/Errors/Recovery.antt =====
-- `namespace recovery` of error.hpp and error_utils.hpp, but for the circuit breaker: retries,
-- fallbacks and the bulkhead. A callable is a function on a state `S`, which holds what it changes.
pub mod Laws
use chain_forge.Errors.Info.{ErrorInfo, error_info}
use chain_forge.Errors.Expected.{Expected, of_value, of_error}
use chain_forge.Base.Text.{codes}
use chain_forge.Base.Double.{Double}
use chain_forge.Base.{
  ℕ, zero, suc, ◌-◌, ℤ, pos, negsuc, Bool, true, false, Option, none, some, List, [], ◌∷◌,
  if◌then◌else◌,
}

abbrev pub Result : Type 0 → Type 0
Result T = Expected T ErrorInfo

abbrev pub Callable : Type 0 → Type 0 → Type 0
Callable S T = S → Result T × S

abbrev pub timeout : {T : Type 0} → Result T
timeout = of_error (error_info 1004 (codes "Operation failed after maximum retry attempts") [])

-- `for (int attempt = 0; attempt < max_attempts; ++attempt)`
abbrev pub attempts : ℤ → ℕ
attempts (pos n) = n
attempts (negsuc n) = 0

module _ {S T G : Type 0} (pause : G → ℕ × G) (func : Callable S T) where
  -- The attempts that are left, and the milliseconds slept between them. `pause` says how long to
  -- sleep and how the next sleep is found.
  unfoldable pub retry_loop : ℕ → G → S → Result T × List ℕ × S
  retry_loop zero g s = (timeout, [], s)
  retry_loop (suc zero) g s =
      let (r, s') = func s in
      elim r [ of_value v ↦ (of_value v, [], s') | of_error e ↦ (timeout, [], s') ]
  retry_loop (suc (suc n)) g s =
      let (r, s') = func s in
      let (ms, g') = pause g in
      let (r', slept, t) = retry_loop (suc n) g' s' in
      elim r [ of_value v ↦ (of_value v, [], s') | of_error e ↦ (r', ms ∷ slept, t) ]

module _ {D : Type 0} (double : Double D) where
  -- `static_cast<long long>(delay.count() * backoff_multiplier)`
  abbrev pub scale : D → ℕ → ℕ
  scale multiplier delay = double.to_u64 (double.mul (double.of_u64 delay) multiplier)

  unfoldable pub retry_with_backoff :
      {S T : Type 0} → ℤ → ℕ → D → Callable S T → S → Result T × List ℕ × S
  retry_with_backoff max_attempts initial_delay multiplier func =
      retry_loop (λ delay. (delay, scale multiplier delay)) func (attempts max_attempts)
        initial_delay

  -- `draw` is the generator's next number between `1 - jitter_factor` and `1 + jitter_factor`.
  unfoldable pub retry_with_jitter :
      {G S T : Type 0} → (G → D × G) → ℤ → ℕ → G → Callable S T → S → Result T × List ℕ × S
  retry_with_jitter draw max_attempts base_delay gen func =
      retry_loop (λ g. (scale (draw g).0 base_delay, (draw g).1)) func (attempts max_attempts) gen

-- `recovery::retry` of callables without a value, the only ones for which the template compiles.
unfoldable pub retry :
    {S : Type 0} → ℤ → ℕ → Callable S (Unit {0}) → S → Result (Result (Unit {0})) × List ℕ × S
retry max_attempts delay func s =
    let (r, slept, t) = retry_loop (λ g. (delay, g)) func (attempts max_attempts) (tt {0}) s in
    (of_value r, slept, t)

module _ {S T : Type 0} where
  -- `recovery::fallback` returns `Result<Result<T>>`: the result of a call becomes its value.
  unfoldable pub fallback : Callable S T → Callable S T → Callable S (Result T)
  fallback primary fallback_func s =
      let (r, s') = primary s in
      let (r', t) = fallback_func s' in
      elim r [ of_value v ↦ (of_value (of_value v), s') | of_error e ↦ (of_value r', t) ]

  -- `fallback_chain`, whose result type is the same
  unfoldable pub fallback_chain : Callable S T → Callable S T → Callable S T → Callable S (Result T)
  fallback_chain primary secondary tertiary s =
      let (r, s') = primary s in
      elim r [
        | of_value v ↦ (of_value (of_value v), s')
        | of_error e ↦ fallback secondary tertiary s'
      ]

-- What a callable under the bulkhead does: it returns, or an exception passes through.
pub data Ended (R : Type 0) : Type 0 where
  returned : R → Ended R
  thrown : Ended R

-- `with_bulkhead` of callables without a value, the only ones for which the template compiles: the
-- refusal is a `VoidResult`. The number is what the semaphore has left.
unfoldable pub with_bulkhead :
    {S : Type 0}
    → (S → Ended (Result (Unit {0})) × S)
    → ℕ × S
    → Ended (Result (Result (Unit {0}))) × ℕ × S
with_bulkhead func (zero, s) = (
  returned (of_value (of_error (error_info 10003 (codes "Bulkhead capacity exceeded") []))),
  zero,
  s,
)
with_bulkhead func (suc free, s) =
    let (ended, s') = func s in
    elim ended [ returned r ↦ (returned (of_value r), suc free, s') | thrown ↦ (thrown, free, s') ]
