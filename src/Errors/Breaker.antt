-- ===== src/Errors/Breaker.antt =====
-- `CircuitBreaker` of modules/core/include/chainforge/core/error_utils.hpp. Times are readings of
-- the steady clock.
pub mod Refinement
use chain_forge.Errors.Info.{ErrorInfo, error_info}
use chain_forge.Errors.Expected.{Expected, of_value, of_error}
use chain_forge.Errors.Recovery.{Result, Ended, returned, thrown}
use chain_forge.Base.Text.{codes}
use chain_forge.Base.{
  [], ℕ, zero, suc, ◌+◌, ◌-◌, ◌^◌, ℤ, pos, negsuc, ltb_ℤ, Bool, true, false, not, leb, ltb,
  if◌then◌else◌,
}

pub data State : Type 0 where
  -- `CLOSED`, `OPEN` and `HALF_OPEN`
  closed opened half_open : State

pub record CircuitBreaker : Type 0 where
  pub failure_threshold : ℤ
  pub timeout : ℕ
  pub failure_count : ℤ
  pub last_failure_time : ℕ
  pub state : State

unfoldable pub make_breaker : ℤ → ℕ → ℕ → CircuitBreaker
make_breaker failure_threshold timeout now = record {
  failure_threshold = failure_threshold;
  timeout = timeout;
  failure_count = pos 0;
  last_failure_time = now;
  state = closed;
}

-- `++failure_count_` of a `std::atomic<int>`, which wraps around
abbrev pub increment : ℤ → ℤ
increment (pos n) = if ltb (n + 1) (2 ^ 31) then pos (n + 1) else negsuc (2 ^ 31 - 1)
increment (negsuc zero) = pos 0
increment (negsuc (suc n)) = negsuc n

unfoldable pub on_success : CircuitBreaker → CircuitBreaker
on_success b = record b { failure_count = pos 0; state = closed }

unfoldable pub on_failure : ℕ → CircuitBreaker → CircuitBreaker
on_failure now b =
    let count = increment b.failure_count in
    record b {
      failure_count = count;
      last_failure_time = now;
      state = if not (ltb_ℤ count b.failure_threshold) then opened else b.state;
    }

unfoldable pub reset : CircuitBreaker → CircuitBreaker
reset b = record b { state = closed; failure_count = pos 0 }

abbrev pub unavailable : {T : Type 0} → Result T
unavailable = of_error (error_info 10004 (codes "Circuit breaker is open") [])

-- A callable that may throw
abbrev pub Throwing : Type 0 → Type 0 → Type 0
Throwing S T = S → Ended (Result T) × S

-- What `execute` does behind the call: an exception passes through.
abbrev pub recorded : {T : Type 0} → ℕ → Ended (Result T) → CircuitBreaker → CircuitBreaker
recorded finish thrown b = b
recorded finish (returned (of_value v)) b = on_success b
recorded finish (returned (of_error e)) b = on_failure finish b

-- The call itself, at `finish` on the clock when a failure is recorded.
unfoldable pub call_through :
    {S T : Type 0} → ℕ → Throwing S T → CircuitBreaker → S → Ended (Result T) × CircuitBreaker × S
call_through finish func b s = ((func s).0, recorded finish (func s).0 b, (func s).1)

-- `execute`, with the clock at `start` when it is entered
unfoldable pub execute :
    {S T : Type 0}
    → ℕ
    → ℕ
    → Throwing S T
    → CircuitBreaker
    → S
    → Ended (Result T) × CircuitBreaker × S
execute start finish func b s = elim b.state [
  | opened ↦
      if leb (b.last_failure_time + b.timeout) start
      then call_through finish func (record b { state = half_open }) s
      else (returned unavailable, b, s)
  | closed ↦ call_through finish func b s
  | half_open ↦ call_through finish func b s
]
