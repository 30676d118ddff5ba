-- ===== src/Core/Timestamp.antt =====
-- modules/core/src/timestamp.cpp: seconds since the epoch in 64 bits, and signed durations.
-- The class wraps one number, and is modelled by it.
pub mod Arithmetic
use chain_forge.Base.{
  ℕ, ◌+◌, ◌-◌, ◌*◌, ◌/◌, ◌%◌, ◌<◌, Bool, true, false, ◌&&◌, ltb, leb, if◌then◌else◌, ℤ, pos, negsuc,
  ltb_ℤ, to_u64, to_i64,
}
use chain_forge.Core.Exceptions.{Result, ok, throw, Exception}
use chain_forge.Core.Types.{u64_mod}

abbrev pub Timestamp : Type 0
Timestamp = ℕ

abbrev pub IsTimestamp : Timestamp → Type 0
IsTimestamp t = t < u64_mod

abbrev pub max_value : ℕ
max_value = u64_mod - 1

abbrev pub min_value : ℕ
min_value = 0

unfoldable pub is_valid_timestamp : ℕ → Bool
is_valid_timestamp seconds = leb min_value seconds && leb seconds max_value

-- The constructor from seconds, which `from_seconds` calls.
unfoldable pub of_seconds : ℕ → Result Timestamp
unfolding is_valid_timestamp
of_seconds seconds = if is_valid_timestamp seconds then ok seconds else throw Exception.out_of_range

unfoldable pub from_milliseconds : ℕ → Result Timestamp
unfolding of_seconds
from_milliseconds milliseconds = of_seconds (milliseconds / 1000)

unfoldable pub milliseconds : Timestamp → ℕ
milliseconds t = t * 1000 % u64_mod

unfoldable pub microseconds : Timestamp → ℕ
microseconds t = t * 1_000_000 % u64_mod

-- `operator+(duration)`
unfoldable pub add : Timestamp → ℤ → Result Timestamp
unfolding of_seconds
add t duration =
    let result : ℕ = (t + to_u64 duration) % u64_mod in
    if ltb max_value result then throw Exception.overflow_error else of_seconds result

-- `operator-(duration)`
unfoldable pub sub : Timestamp → ℤ → Result Timestamp
unfolding of_seconds
sub t duration =
    if ltb_ℤ (to_i64 t) duration
    then throw Exception.underflow_error
    else of_seconds ((t + u64_mod - to_u64 duration) % u64_mod)

-- `operator-(const Timestamp&)`
unfoldable pub difference : Timestamp → Timestamp → Result ℤ
difference t other =
    if ltb t other then throw Exception.underflow_error else ok (to_i64 (t - other))

-- `duration_ms_between` has no check.
unfoldable pub duration_ms_between : Timestamp → Timestamp → ℤ
duration_ms_between start end = to_i64 ((end + u64_mod - start) % u64_mod * 1000 % u64_mod)

unfoldable pub is_valid_timestamp_range : Timestamp → Timestamp → Bool
is_valid_timestamp_range start end = leb start end
