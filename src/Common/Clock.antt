-- ===== src/Common/Clock.antt =====
-- Go's `time`: an instant is its number of nanoseconds since January 1 of the year 1, so the zero
-- `time.Time` is 0 and `IsZero` is a test for it. Earlier instants do not occur.
use Prim.Native.Nat.{ℕ, ◌+◌, ◌-◌, min}
use mathlib.Core.Bool.{Bool}
use sextant.Common.Tests.{ltb, leb, nat_eq, if◌then◌else◌}
use sextant.Common.Int.{ℤ, pos, negsuc, pos_part, neg_part, int64_half}

abbrev pub Time : Type 0
Time = ℕ

-- Nanoseconds, signed.
abbrev pub Duration : Type 0
Duration = ℤ

abbrev pub zero_time : Time
zero_time = 0

abbrev pub is_zero : Time → Bool
is_zero t = nat_eq t 0

-- One minute in nanoseconds.
abbrev pub minute : ℕ
minute = 60_000_000_000

abbrev pub max_duration : ℕ
max_duration = int64_half - 1

-- `t.Sub(u)`: the difference, held to the least and the greatest duration.
abbrev pub since : Time → Time → Duration
since t u =
    if leb u t then pos (min (t - u) max_duration) else negsuc (min (u - t - 1) max_duration)

-- `t.Add(d)`
abbrev pub add : Time → Duration → Time
add t d = t + pos_part d - neg_part d

-- `t.Before(u)`
abbrev pub before : Time → Time → Bool
before t u = ltb t u
