-- ===== src/Clock.antt =====
-- Go's `time.Time` in UTC and `time.Duration`, as far as the program uses them.
use Prim.Native.Nat.{min}
use agentchute.Prelude.{ℕ, ◌-◌, ◌^◌, ◌*◌, ℤ, pos, negsuc, leb, if◌then◌else◌}

-- Nanoseconds since 0000-01-01T00:00:00Z, the first moment that the wire forms can write. The zero
-- value of Go's `time.Time`, 0001-01-01T00:00:00Z, is 31622400000000000.
abbrev pub Time : Type 0
Time = ℕ

abbrev pub microsecond : ℕ
microsecond = 1000

abbrev pub second : ℕ
second = 1000000000

abbrev pub minute : ℕ
minute = 60 * second

abbrev pub max_duration : ℕ
max_duration = 2 ^ 63 - 1

-- `t.Sub(u)`, which stops at the ends of int64.
unfoldable pub sub : Time → Time → ℤ
sub t u = if leb u t then pos (min (t - u) max_duration) else negsuc (min (u - t - 1) max_duration)
