-- ===== src/Prelude/Clock.antt =====
-- Instants and durations of Go's `time` package, in nanoseconds. An instant counts from the zero
-- time (1 January of the year 1), so `time.Time{}` is 0 and `IsZero` is a test against 0.
use Prim.Native.Nat.{ℕ, ◌-◌, ◌*◌, ◌/◌}
use mathlib.Core.Bool.{Bool}
use proxy_in_a_box.Prelude.Tests.{ltb}

abbrev pub Time : Type 0
Time = ℕ

abbrev pub Duration : Type 0
Duration = ℕ

abbrev pub second : Duration
second = 1000000000

abbrev pub minute : Duration
minute = 60 * second

abbrev pub hour : Duration
hour = 60 * minute

-- Seconds between the zero time and the Unix epoch.
abbrev pub unix_epoch : ℕ
unix_epoch = 62135596800

-- `t.Unix()`, of an instant after 1970.
unfoldable pub unix : Time → ℕ
unix t = t / second - unix_epoch

-- `a.Before(b)`
abbrev pub before : Time → Time → Bool
before a b = ltb a b
