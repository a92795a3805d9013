-- ===== src/Time.antt =====
-- Go's package `time`: an instant is its number of nanoseconds since the zero time, the first of
-- January of the year 1, and a duration its number of nanoseconds. `UTC` keeps the instant.
pub mod Civil
use canterbury.Base.{ℕ, ◌-◌, ◌*◌, ◌/◌, ◌^◌, Bool, ◌==◌, leb, if◌then◌else◌}
use canterbury.Base.Int.{ℤ, pos, negsuc, sub_ℕ}

abbrev pub Time : Type 0
Time = ℕ

abbrev pub Duration : Type 0
Duration = ℤ

abbrev pub second : ℕ
second = 1_000_000_000

-- The instant of `time.Unix(0, 0)`.
abbrev pub unix_epoch : Time
unix_epoch = 62_135_596_800 * second

unfoldable pub is_zero : Time → Bool
is_zero t = t == 0

unfoldable pub utc : Time → Time
utc t = t

abbrev max_duration : ℕ
max_duration = 2 ^ 63 - 1

-- A difference that no `int64` holds is the nearest that one holds.
abbrev saturate : ℤ → ℤ
saturate (pos n) = if leb n max_duration then pos n else pos max_duration
saturate (negsuc n) = if leb n max_duration then negsuc n else negsuc max_duration

-- `t.Sub(u)`
unfoldable pub sub : Time → Time → Duration
sub t u = saturate (sub_ℕ t u)

-- `t.UnixMilli()` and `t.Unix()`, rounded down
abbrev floor_div : ℕ → ℕ → ℕ → ℤ
floor_div t e unit = if leb e t then pos ((t - e) / unit) else negsuc ((e - t - 1) / unit)

unfoldable pub unix_milli : Time → ℤ
unix_milli t = floor_div t unix_epoch 1_000_000

unfoldable pub unix : Time → ℤ
unix t = floor_div t unix_epoch second
