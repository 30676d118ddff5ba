-- ===== src/Core/Timestamp/Arithmetic.antt =====
-- Timestamps and durations: the round trip, and the overflow that is not seen.
use chain_forge.Base.{ℕ, ◌+◌, ◌-◌, ◌^◌, ◌≤◌, ◌<◌, ◌≡◌, arith, pos}
use chain_forge.Core.Exceptions.{ok}
use chain_forge.Core.Types.{u64_mod}
use chain_forge.Core.Timestamp.{IsTimestamp, add, sub, difference}

-- Adding a duration of at most 2 ^ 63 - 1 seconds never throws: where the sum does not fit in 64
-- bits the result is the sum less 2 ^ 64, which is before the start.
pub add-wraps :
    (t d : ℕ)
    → IsTimestamp t
    → d < 2 ^ 63
    → u64_mod ≤ t + d
    → (add t (pos d) ≡ ok (t + d - u64_mod)) × (t + d - u64_mod < t)
unfolding add
add-wraps t d ht hd w = ground arith

-- Below 2 ^ 63 seconds, adding a duration and subtracting it again gives the time back, and the
-- difference of the two times is the duration.
pub sub-add-Timestamp :
    (t d s : ℕ)
    → t + d < 2 ^ 63
    → add t (pos d) ≡ ok s
    → (sub s (pos d) ≡ ok t) × (difference s t ≡ ok (pos d))
unfolding add sub difference
sub-add-Timestamp t d s h e = ground arith
