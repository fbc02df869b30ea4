-- ===== src/Std/Time.antt =====
-- Times to come: `time.Now().Add(time.Duration(days) * 24 * time.Hour).Unix()`. A time.Duration counts
-- nanoseconds in an int64, whose wrap-around is written out. The clock counts whole seconds, and a
-- time before 1970 is the bit pattern of a negative int64.
use lxc_hosting.Base.{ℕ, ◌+◌, ◌-◌, ◌*◌, ◌/◌, ◌≤◌, ◌<◌, ◌≡◌, true, ltb, if◌then◌else◌, arith}
use lxc_hosting.Std.Int64.{modulus, min_negative, wrap, int_lt}

abbrev pub day_seconds : ℕ
day_seconds = 86400

abbrev pub nanoseconds : ℕ
nanoseconds = 1000000000

-- `time.Duration(days) * 24 * time.Hour`
abbrev pub lifetime : ℕ → ℕ
lifetime days = wrap (days * (day_seconds * nanoseconds))

-- the seconds of a duration, rounded down
abbrev pub duration_seconds : ℕ → ℕ
duration_seconds d =
    if ltb d min_negative
    then d / nanoseconds
    else modulus - (modulus - d + (nanoseconds - 1)) / nanoseconds

-- the Unix time that many days from now
unfoldable pub days_later : ℕ → ℕ → ℕ
days_later now days = wrap (now + duration_seconds (lifetime days))

-- the most days whose nanoseconds fit in an int64
abbrev pub max_days : ℕ
max_days = 106751

-- Up to 106751 days the time is exact.
pub days_later-exact :
    (now days : ℕ)
    → days ≤ max_days
    → now + days * day_seconds < min_negative
    → days_later now days ≡ now + days * day_seconds
unfolding days_later
days_later-exact now days h k = ground arith

-- From there on, for as many days again, the duration is negative, and the time has passed already.
pub days_later-passed :
    (now days later : ℕ)
    → max_days < days
    → days ≤ 2 * max_days + 1
    → now ≤ later
    → later < min_negative
    → int_lt (days_later now days) later ≡ true
unfolding days_later int_lt
days_later-passed now days later h k l b = ground arith
