-- ===== src/Timing/Instant.antt =====
-- Points in time as numbers: microseconds since some midnight of the zone that a time is in.
-- `floor_to_minute` on them keeps the day.
use nexa_trade.Prelude.{ℕ, ◌+◌, ◌*◌, ◌/◌, ◌%◌, ◌≤◌, ◌<◌, ◌≡◌, arith}
use mathlib.Core.Path.{subst}
use nexa_trade.Prelude.Int.{ℤ, pos}
use nexa_trade.Timing.{TimeOfDay, IsTime, total_minutes, floor_to_minute, floor_to_minute_lem}

abbrev pub day_length : ℕ
day_length = 86400000000

unfoldable pub time_of : ℕ → TimeOfDay
time_of t =
    let s = t % day_length / 1000000 in
    record { hour = s / 3600; minute = s / 60 % 60; second = s % 60; microsecond = t % 1000000 }

unfoldable pub instant_of : ℕ → TimeOfDay → ℕ
instant_of day dt =
    day * day_length + ((dt.hour * 60 + dt.minute) * 60 + dt.second) * 1000000 + dt.microsecond

-- `floor_to_minute(ts, interval_minutes)`, the date kept.
unfoldable pub floor_instant : ℤ → ℕ → ℕ
floor_instant interval_minutes ts =
    instant_of (ts / day_length) (floor_to_minute (time_of ts) interval_minutes)

instant_of-time_of : (t : ℕ) → instant_of (t / day_length) (time_of t) ≡ t
unfolding instant_of time_of
instant_of-time_of t = omega arith

time_of-IsTime : (t : ℕ) → IsTime (time_of t)
unfolding time_of
time_of-IsTime t = omega arith

floor_whole :
    (dt : TimeOfDay) (n : ℕ)
    → 0 < n
    → ((floor_to_minute dt (pos n)).second ≡ 0) × ((floor_to_minute dt (pos n)).microsecond ≡ 0)
unfolding floor_to_minute
floor_whole dt n h = ground arith

bounds_of :
    (day n : ℕ) (a b : TimeOfDay)
    → IsTime b
    → a.second ≡ 0
    → a.microsecond ≡ 0
    → total_minutes a ≤ total_minutes b
    → total_minutes b < total_minutes a + n
    → (instant_of day a ≤ instant_of day b) × (instant_of day b < instant_of day a + n * 60000000)
unfolding instant_of
bounds_of day n a b t s m up low = omega arith

-- The floor of a point in time is not after it, and less than one interval before it.
pub floor_instant_bounds :
    (n ts : ℕ)
    → 0 < n
    → (floor_instant (pos n) ts ≤ ts) × (ts < floor_instant (pos n) ts + n * 60000000)
unfolding floor_instant
floor_instant_bounds n ts h =
    let (_, _, up, low) = floor_to_minute_lem (time_of ts) n h (time_of-IsTime ts) in
    let (s, m) = floor_whole (time_of ts) n h in
    subst (λ x. (floor_instant (pos n) ts ≤ x) × (x < floor_instant (pos n) ts + n * 60000000))
      (instant_of-time_of ts)
      (bounds_of (ts / day_length) n (floor_to_minute (time_of ts) (pos n)) (time_of ts)
        (time_of-IsTime ts) s m up low)
