-- ===== src/Protocol/Clock.antt =====
-- internal/protocol/time.go. A `time.Time` is the number of nanoseconds since Go's zero time, the
-- start of year 1: zero is the zero value, and instants before it do not occur. `TruncateUTC` of Go's
-- `time` package rounds down since that same zero. Durations are numbers of nanoseconds.
use subscription_bridge.Prelude.{ℕ, ◌-◌, ◌%◌, Bool, ltb, ◌==◌, nat_eq}

abbrev pub Time : Type 0
Time = ℕ

abbrev pub Duration : Type 0
Duration = ℕ

abbrev pub second : Duration
second = 1000000000

abbrev pub minute : Duration
minute = 60000000000

abbrev pub hour : Duration
hour = 3600000000000

-- `a.After(b)`, `a.Before(b)`, `a.Equal(b)`, `a.IsZero()`
abbrev pub is_after : Time → Time → Bool
is_after a b = ltb b a

abbrev pub is_before : Time → Time → Bool
is_before a b = ltb a b

abbrev pub is_equal : Time → Time → Bool
is_equal a b = a == b

abbrev pub is_zero : Time → Bool
is_zero a = a == 0

-- TruncateUTC
unfoldable pub truncate_utc : Time → Time
truncate_utc t = t - t % second
