-- ===== src/Runtime/Clock.antt =====
-- Package time. A `time.Time` is the number of nanoseconds since year 1, so the zero time is 0; a
-- `time.Duration` is a signed number of nanoseconds.
use nodefall.Base.{ℕ, ◌+◌, ◌≤◌, ◌≡◌, arith, leb, ℤ, pos, negsuc, sub_ℕ, min_ℤ, max_ℤ, leb_ℤ}

abbrev pub millisecond : ℕ
millisecond = 1000000

abbrev pub second : ℕ
second = 1000000000

-- The largest and the smallest int64, at which `Time.Sub` saturates.
abbrev pub max_duration : ℤ
max_duration = pos 9223372036854775807

abbrev pub min_duration : ℤ
min_duration = negsuc 9223372036854775807

-- `time.Since(t)` with the clock at `now`.
unfoldable pub since : ℕ → ℕ → ℤ
since now t = max_ℤ min_duration (min_ℤ (sub_ℕ now t) max_duration)

-- `time.Since(t) >= d`: the clock has passed t + d.
pub since-ge :
    (now t d : ℕ) → d ≤ 9223372036854775807 → leb_ℤ (pos d) (since now t) ≡ leb (t + d) now
unfolding since
since-ge now t d h = ground arith
