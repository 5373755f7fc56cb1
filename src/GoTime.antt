-- ===== src/GoTime.antt =====
-- Go's time package, as far as the operator uses it. A time is the number of nanoseconds since Go's
-- zero time (year 1), a duration an int64 of nanoseconds.
use fyp.Common.{◌+◌, ◌-◌, ◌^◌, leb, ltb, if◌then◌else◌}
use fyp.Common.Words.{Int64}
use fyp.Api.TrainingJob.{Time}
use Prim.Native.Nat.{min}

-- time.Second
abbrev pub second : Int64
second = 1000000000

-- t.Add(d). Times before the zero time are not represented: a negative duration, of 292 years at
-- most, is exact for every time after the year 293.
unfoldable pub add : Time → Int64 → Time
add t d = if ltb d (2 ^ 63) then t + d else t - (2 ^ 64 - d)

-- t.Sub(u), which saturates at the largest and the smallest int64.
unfoldable pub sub : Time → Time → Int64
sub t u = if leb u t then min (t - u) (2 ^ 63 - 1) else 2 ^ 64 - min (u - t) (2 ^ 63)
