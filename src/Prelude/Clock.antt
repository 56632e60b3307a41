-- ===== src/Prelude/Clock.antt =====
-- Time. A `time.Time` is the number of nanoseconds since Go's zero time, so `IsZero` is `== 0`; a
-- `time.Duration` that the program only adds is a number of nanoseconds, and one that can be
-- negative is an integer.
use codex_auth_broker.Prelude.{ℕ, ◌*◌}

abbrev pub Time : Type 0
Time = ℕ

abbrev pub second : ℕ
second = 1_000_000_000

abbrev pub minute : ℕ
minute = 60 * second

abbrev pub hour : ℕ
hour = 60 * minute

abbrev pub day : ℕ
day = 24 * hour
