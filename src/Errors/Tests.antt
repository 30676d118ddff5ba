-- ===== src/Errors/Tests.antt =====
-- The theorems about results and recovery at concrete data.
use chain_forge.Base.{
  nat_eq, ◌==◌, ℕ, suc, ◌+◌, ◌*◌, ◌≡◌, ◌⊎◌, refl, pos, List, [], ◌∷◌, arith, exact_fractions, ltb,
  if◌then◌else◌,
}
use chain_forge.Base.Text.{codes}
use chain_forge.Errors.Expected.{Expected, of_value, of_error}
use chain_forge.Errors.Info.{error_info}
use chain_forge.Errors.Codes.{error_code_to_string, get_user_friendly_message}
use chain_forge.Errors.Recovery.{
  returned, thrown, retry_loop, Callable, timeout, retry_with_backoff,
}
use chain_forge.Errors.Recovery.Laws.{
  AllFail, Succeeds, runs, delays, retry_with_backoff-first_success,
}
use chain_forge.Errors.Breaker.{
  Throwing, on_failure, call_through, execute, half_open, make_breaker,
}
use chain_forge.Errors.Breaker.Refinement.{
  new_spec, Event, call, run, spec_run, map_run, run-spec_run_fresh,
}

abbrev again : ℕ → Expected ℕ ℕ
again e = of_value (e * 2)

abbrev missing : Expected ℕ ℕ
missing = of_error 4

-- It fails twice, and then returns how often it was called.
abbrev third_time : Callable ℕ ℕ
third_time n = (
  if ltb n 2 then of_error (error_info 1004 (codes "Temporary failure") []) else of_value n,
  n + 1,
)

retry_with_backoff-first_success_example :
    (AllFail third_time 5 0
      × (retry_with_backoff exact_fractions (pos 5) 10 (3, 2) third_time 0
          ≡ (timeout, delays exact_fractions (3, 2) 4 10, runs third_time 5 0)))
    ⊎ ((w : Succeeds third_time 5 0) × (retry_with_backoff exact_fractions
            (pos 5)
            10
            (3, 2)
            third_time
            0
          ≡ (
            of_value w.result,
            delays exact_fractions (3, 2) w.call 10,
            runs third_time (suc w.call) 0,
          )))
retry_with_backoff-first_success_example =
    retry_with_backoff-first_success exact_fractions (pos 5) 10 (3, 2) third_time 0

retried :
    retry_with_backoff exact_fractions (pos 5) 10 (3, 2) third_time 0
    ≡ (of_value 2, 10 ∷ 15 ∷ [], 3)
unfolding retry_with_backoff retry_loop
retried = refl

-- It throws at the third call, and fails at the others.
abbrev down : Throwing ℕ ℕ
down n =
    (if n == 2 then thrown else returned (of_error (error_info 10004 (codes "Down") [])), n + 1)

abbrev events : List Event
events = call 0 1 ∷ call 2 3 ∷ call 4 5 ∷ call 200 201 ∷ []

run-spec_run_fresh_example :
    run 2 100 down events (make_breaker (pos 2) 100 0) 0
    ≡ map_run 2 100 down (spec_run 2 100 down events (new_spec 2 100 down 0) 0)
run-spec_run_fresh_example = run-spec_run_fresh 2 100 down events 0 0 (omega arith) (omega arith)

-- The third call is refused, and the fourth throws: the breaker stays half open.
refused :
    ((run 2 100 down events (make_breaker (pos 2) 100 0) 0).2 ≡ 3)
    × ((run 2 100 down events (make_breaker (pos 2) 100 0) 0).1.state ≡ half_open)
unfolding make_breaker execute call_through on_failure
refused = (refl, refl)

names : error_code_to_string 9005 ≡ codes "RATE_LIMITED"
unfolding error_code_to_string
names = refl

messages : get_user_friendly_message 7 ≡ codes "Unknown error occurred"
unfolding get_user_friendly_message
messages = refl
