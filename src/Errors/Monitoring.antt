-- ===== src/Errors/Monitoring.antt =====
-- `namespace monitoring` of modules/core/include/chainforge/core/error_utils.hpp: the tracker of
-- errors and the limiter of their rate.
use chain_forge.Errors.Codes.{ErrorCode}
use chain_forge.Errors.Breaker.{increment}
use chain_forge.Base.Double.{Double}
use chain_forge.Base.Map.{Map, lookup, insert}
use chain_forge.Base.Map.Laws.{lookup-insert}
use chain_forge.Base.{
  ◌∙◌, inr, inl, Bool-cases, ◌*◌, ℕ, suc, ◌+◌, ◌^◌, ◌≡◌, ◌<◌, ◌≤◌, refl, ℤ, pos, Bool, not, ltb,
  if◌then◌else◌, ◌==◌, nat_eq, Option, none, some, List, [], ◌∷◌, ◌++◌, length, arith,
}

pub record ErrorTracker : Type 0 where
  pub error_counts : Map ErrorCode ℤ
  pub total_errors : ℤ
  pub total_successes : ℤ

abbrev count_or_zero : Option ℤ → ℤ
count_or_zero none = pos 0
count_or_zero (some n) = n

unfoldable pub record_error : ErrorCode → ErrorTracker → ErrorTracker
record_error code t = record t {
  error_counts =
      insert code (increment (count_or_zero (lookup code t.error_counts))) t.error_counts;
  total_errors = increment t.total_errors;
}

unfoldable pub record_success : ErrorTracker → ErrorTracker
record_success t = record t { total_successes = increment t.total_successes }

unfoldable pub get_error_count : ErrorCode → ErrorTracker → ℤ
get_error_count code t = count_or_zero (lookup code t.error_counts)

unfoldable pub reset_tracker : ErrorTracker → ErrorTracker
reset_tracker t = record { error_counts = []; total_errors = pos 0; total_successes = pos 0 }

pub record ErrorRateLimiter (D : Type 0) : Type 0 where
  pub max_error_rate : D
  pub window_size : ℕ  -- milliseconds
  pub error_times : List ℕ  -- in nanoseconds

-- `while (!error_times_.empty() && error_times_.front() < now - window_size_)`
unfoldable pub remove_old : ℕ → ℕ → List ℕ → List ℕ
remove_old window now [] = []
remove_old window now (t ∷ ts) = if ltb (t + window) now then remove_old window now ts else t ∷ ts

module _ {D : Type 0} (double : Double D) where
  -- `error_times_.size() / std::chrono::duration<double>(window_size_).count()`
  abbrev current_rate : ℕ → ℕ → D
  current_rate n window =
      double.div (double.of_u64 n) (double.div (double.of_u64 window) (double.literal 1000 1))

  unfoldable pub should_allow_operation : ℕ → ErrorRateLimiter D → Bool × ErrorRateLimiter D
  should_allow_operation now l =
      let kept = remove_old (l.window_size * 1_000_000) now l.error_times in
      (
        not (double.less l.max_error_rate (current_rate (length kept) l.window_size)),
        record l { error_times = kept },
      )

unfoldable pub limiter_record_error : {D : Type 0} → ℕ → ErrorRateLimiter D → ErrorRateLimiter D
limiter_record_error now l = record l { error_times = l.error_times ++ now ∷ [] }

-- Errors with their codes, and successes, as a caller reports them.
pub data Report : Type 0 where
  an_error : ErrorCode → Report
  a_success : Report

abbrev pub record_all : List Report → ErrorTracker → ErrorTracker
record_all [] t = t
record_all (an_error c ∷ rs) t = record_all rs (record_error c t)
record_all (a_success ∷ rs) t = record_all rs (record_success t)

-- How many reports are an error with this code.
abbrev pub errors_with : ErrorCode → List Report → ℕ
errors_with c [] = 0
errors_with c (an_error d ∷ rs) = if c == d then suc (errors_with c rs) else errors_with c rs
errors_with c (a_success ∷ rs) = errors_with c rs

increment-pos : (n : ℕ) → n + 1 < 2 ^ 31 → increment (pos n) ≡ pos (n + 1)
increment-pos n h = ground arith

errors_with_le : (c : ErrorCode) (rs : List Report) → errors_with c rs ≤ length rs
errors_with_le c [] = omega arith
errors_with_le c (an_error d ∷ rs) = ground (arith, errors_with_le c rs)
errors_with_le c (a_success ∷ rs) = ground (arith, errors_with_le c rs)

get_error_count-record_error :
    (c d : ErrorCode) (t : ErrorTracker) (n : ℕ)
    → get_error_count c t ≡ pos n
    → n + 1 < 2 ^ 31
    → get_error_count c (record_error d t) ≡ pos (if c == d then n + 1 else n)
unfolding get_error_count record_error
get_error_count-record_error c d t n h l = ground (
  arith,
  lookup-insert c d (increment (count_or_zero (lookup d t.error_counts))) t.error_counts,
  increment-pos n,
)

get_error_count-record_success :
    (c : ErrorCode) (t : ErrorTracker) → get_error_count c (record_success t) ≡ get_error_count c t
unfolding get_error_count record_success
get_error_count-record_success c t = refl

-- The count of a code after any reports, fewer than 2^31 with those before, is the number of errors
-- with that code among them.
pub get_error_count-record_all :
    (c : ErrorCode) (rs : List Report) (t : ErrorTracker) (n : ℕ)
    → get_error_count c t ≡ pos n
    → n + length rs < 2 ^ 31
    → get_error_count c (record_all rs t) ≡ pos (n + errors_with c rs)
get_error_count-record_all c [] t n h l = ground (arith, h)
get_error_count-record_all c (an_error d ∷ rs) t n h l =
    let next = get_error_count-record_error c d t n h (omega arith) in
    elim (Bool-cases (c == d)) [
      | inl e ↦ ground (arith, e, next, get_error_count-record_all c rs (record_error d t) (n + 1))
      | inr e ↦ ground (arith, e, next, get_error_count-record_all c rs (record_error d t) n)
    ]
get_error_count-record_all c (a_success ∷ rs) t n h l =
    get_error_count-record_all c rs (record_success t) n (get_error_count-record_success c t ∙ h)
      (omega arith)
