-- ===== src/Errors/Breaker/Refinement.antt =====
-- The circuit breaker against its specification, which counts the failures since the last success
-- and knows whether a trial call broke off.
use chain_forge.Errors.Breaker.{
  State, closed, opened, half_open, CircuitBreaker, make_breaker, on_success, on_failure,
  call_through, execute, unavailable, reset, Throwing, recorded,
}
use chain_forge.Errors.Expected.{of_value, of_error}
use chain_forge.Errors.Recovery.{Result, Ended, returned, thrown}
use chain_forge.Base.{
  ◌∙◌, ap, inl, inr, ◌&&◌, ℕ, ◌+◌, ◌^◌, ◌≤◌, ◌<◌, ◌≡◌, refl, pos, not, leb, if◌then◌else◌, List, [],
  ◌∷◌, length, arith, Bool-cases, Bool, false,
}

-- The failures since the last success or reset, the time of the last one, and whether a call that
-- was let through after the timeout has thrown since.
pub record Spec : Type 0 where
  pub failures : ℕ
  pub last : ℕ
  pub broken_off : Bool

-- What happens to a breaker: calls, each with the clock before and after, and resets.
pub data Event : Type 0 where
  call : ℕ → ℕ → Event
  reset_event : Event

module _ {S T : Type 0} (threshold timeout : ℕ) (func : Throwing S T) where
  -- A throw counts as nothing, but the breaker that let a trial call through does not shut again.
  abbrev pub spec_result : ℕ → Spec → Ended (Result T) → Spec
  spec_result finish a (returned (of_value v)) = record a { failures = 0; broken_off = false }
  spec_result finish a (returned (of_error e)) = record a {
    failures = a.failures + 1;
    last = finish;
    broken_off = false;
  }
  spec_result finish a thrown = record a { broken_off = leb threshold a.failures }

  -- With fewer failures than the threshold, or the timeout over, or a trial call that broke off, the
  -- function is called.
  abbrev pub spec_call : ℕ → ℕ → Spec → S → Ended (Result T) × Spec × S
  spec_call start finish a s =
      if leb threshold a.failures && (not a.broken_off && not (leb (a.last + timeout) start))
      then (returned unavailable, a, s)
      else ((func s).0, spec_result finish a (func s).0, (func s).1)

  abbrev pub spec_reset : Spec → Spec
  spec_reset a = record a { failures = 0; broken_off = false }

  -- The results of a sequence of events, the breaker and the state behind them.
  abbrev pub spec_run : List Event → Spec → S → List (Ended (Result T)) × Spec × S
  spec_run [] a s = ([], a, s)
  spec_run (reset_event ∷ es) a s = spec_run es (spec_reset a) s
  spec_run (call start finish ∷ es) a s =
      let (r, a', s') = spec_call start finish a s in
      let (rs, a'', s'') = spec_run es a' s' in (r ∷ rs, a'', s'')

  abbrev pub run : List Event → CircuitBreaker → S → List (Ended (Result T)) × CircuitBreaker × S
  run [] b s = ([], b, s)
  run (reset_event ∷ es) b s = run es (reset b) s
  run (call start finish ∷ es) b s =
      let (r, b', s') = execute start finish func b s in
      let (rs, b'', s'') = run es b' s' in (r ∷ rs, b'', s'')

  abbrev pub state_of : Spec → State
  state_of a =
      if leb threshold a.failures then if a.broken_off then half_open else opened else closed

  -- The breaker that a specification stands for.
  abbrev pub breaker_of : Spec → CircuitBreaker
  breaker_of a = record {
    failure_threshold = pos threshold;
    timeout = timeout;
    failure_count = pos a.failures;
    last_failure_time = a.last;
    state = state_of a;
  }

  abbrev pub map_breaker : Ended (Result T) × Spec × S → Ended (Result T) × CircuitBreaker × S
  map_breaker (r, a, s) = (r, breaker_of a, s)

  -- A breaker in some state with the counts of a specification.
  abbrev in_state : State → Spec → CircuitBreaker
  in_state st a = record (breaker_of a) { state = st }

  -- The state in which a breaker calls the function
  abbrev calling : Spec → State
  calling a = if leb threshold a.failures then half_open else closed

  recorded-spec_result :
      (finish : ℕ) (a : Spec) (r : Ended (Result T))
      → 0 < threshold
      → a.failures + 1 < 2 ^ 31
      → recorded finish r (in_state (calling a) a) ≡ breaker_of (spec_result finish a r)
  unfolding on_success on_failure
  recorded-spec_result finish a thrown t l = elim (Bool-cases (leb threshold a.failures)) [
    | inl e ↦ rw e refl
    | inr e ↦ rw e refl
  ]
  recorded-spec_result finish a (returned (of_value v)) t l = ground arith
  recorded-spec_result finish a (returned (of_error e)) t l = ground arith

  call_through-recorded :
      (finish : ℕ) (a : Spec) (s : S)
      → 0 < threshold
      → a.failures + 1 < 2 ^ 31
      → call_through finish func (in_state (calling a) a) s
        ≡ map_breaker ((func s).0, spec_result finish a (func s).0, (func s).1)
  unfolding call_through
  call_through-recorded finish a s t l = rw (recorded-spec_result finish a (func s).0 t l) refl

  execute-spec_call :
      (start finish : ℕ) (a : Spec) (s : S)
      → 0 < threshold
      → a.failures + 1 < 2 ^ 31
      → execute start finish func (breaker_of a) s ≡ map_breaker (spec_call start finish a s)
  unfolding execute
  execute-spec_call start finish a s t l =
      let through = call_through-recorded finish a s t l in
      elim (Bool-cases (leb threshold a.failures)) [
        | inr shut ↦ ground (arith, shut, through)
        | inl tripped ↦ elim (Bool-cases a.broken_off) [
          | inl trial ↦ ground (arith, tripped, trial, through)
          | inr whole ↦ elim (Bool-cases (leb (a.last + timeout) start)) [
            | inl over ↦ ground (arith, tripped, whole, over, through)
            | inr early ↦ ground (arith, tripped, whole, early)
          ]
        ]
      ]

  spec_result-failures :
      (finish : ℕ) (a : Spec) (r : Ended (Result T))
      → (spec_result finish a r).failures ≤ a.failures + 1
  spec_result-failures finish a thrown = omega arith
  spec_result-failures finish a (returned (of_value v)) = omega arith
  spec_result-failures finish a (returned (of_error e)) = omega arith

  spec_call-failures :
      (start finish : ℕ) (a : Spec) (s : S)
      → (spec_call start finish a s).1.failures ≤ a.failures + 1
  spec_call-failures start finish a s = ground (arith, spec_result-failures finish a (func s).0)

  abbrev pub map_run :
      List (Ended (Result T)) × Spec × S → List (Ended (Result T)) × CircuitBreaker × S
  map_run (rs, a, s) = (rs, breaker_of a, s)

  reset-breaker_of : (a : Spec) → 0 < threshold → reset (breaker_of a) ≡ breaker_of (spec_reset a)
  unfolding reset
  reset-breaker_of a t = let shut : state_of (spec_reset a) ≡ closed = ground arith in rw shut refl

  abbrev pub new_spec : ℕ → Spec
  new_spec now = record { failures = 0; last = now; broken_off = false }

  make_breaker-breaker_of :
      (now : ℕ)
      → 0 < threshold
      → make_breaker (pos threshold) timeout now ≡ breaker_of (new_spec now)
  unfolding make_breaker
  make_breaker-breaker_of now t =
      let shut : state_of (new_spec now) ≡ closed = ground arith in rw shut refl

  run-spec_run :
      (es : List Event) (a : Spec) (s : S)
      → 0 < threshold
      → a.failures + length es < 2 ^ 31
      → run es (breaker_of a) s ≡ map_run (spec_run es a s)
  run-spec_run [] a s t l = refl
  run-spec_run (reset_event ∷ es) a s t l =
      ap (λ b. run es b s) (reset-breaker_of a t) ∙ run-spec_run es (spec_reset a) s t (omega arith)
  run-spec_run (call start finish ∷ es) a s t l =
      let step = execute-spec_call start finish a s t (omega arith) in
      let bound = spec_call-failures start finish a s in
      let (r, a', s') = spec_call start finish a s in
      rw step (rw (run-spec_run es a' s' t (omega (arith, bound))) refl)

  -- A breaker that opens after `threshold` failures, through any sequence of fewer than 2^31 calls
  -- and resets, of a callable that may throw, gives the results and ends in the state of the
  -- specification: it refuses, without calling the function, exactly while `threshold` failures
  -- stand since the last success or reset, the timeout since the last of them is not over, and no
  -- call that was let through has thrown since. It is half open exactly where `threshold` failures
  -- stand and such a call has thrown.
  pub run-spec_run_fresh :
      (es : List Event) (now : ℕ) (s : S)
      → 0 < threshold
      → length es < 2 ^ 31
      → run es (make_breaker (pos threshold) timeout now) s ≡ map_run (spec_run es (new_spec now) s)
  run-spec_run_fresh es now s t l =
      ap (λ b. run es b s) (make_breaker-breaker_of now t)
      ∙ run-spec_run es (new_spec now) s t (omega arith)
