-- ===== src/Timing.antt =====
-- utils/time_utils.py, `floor_to_minute`: the start of the candle that a time falls in. The date is
-- not touched and is left out.
pub mod Instant
pub mod Chunks
use nexa_trade.Prelude.{ℕ, ◌+◌, ◌*◌, ◌/◌, ◌%◌, ◌≤◌, ◌<◌, ◌≡◌, arith, if◌then◌else◌}
use nexa_trade.Prelude.Int.{ℤ, pos, pos_part, leb_ℤ}

pub record TimeOfDay : Type 0 where
  pub hour : ℕ
  pub minute : ℕ
  pub second : ℕ
  pub microsecond : ℕ

abbrev pub total_minutes : TimeOfDay → ℕ
total_minutes dt = dt.hour * 60 + dt.minute

unfoldable pub floor_to_minute : TimeOfDay → ℤ → TimeOfDay
floor_to_minute dt interval_minutes =
    if leb_ℤ interval_minutes (pos 0)
    then record dt { second = 0; microsecond = 0 }
    else let floored = total_minutes dt / pos_part interval_minutes * pos_part interval_minutes in
      record { hour = floored / 60; minute = floored % 60; second = 0; microsecond = 0 }

-- The fields of a time are in their ranges.
abbrev pub IsTime : TimeOfDay → Type 0
IsTime dt = (dt.hour < 24) × (dt.minute < 60) × (dt.second < 60) × (dt.microsecond < 1000000)

floored_bounds : (total n : ℕ) → 0 < n → (total / n * n ≤ total) × (total < total / n * n + n)
floored_bounds total n h = omega arith

recompose : (m : ℕ) → m / 60 * 60 + m % 60 ≡ m
recompose m = omega arith

-- For a positive interval, the floor of a time is a time, at a whole multiple of the interval since
-- midnight, not after the time and less than one interval before it.
pub floor_to_minute_lem :
    (dt : TimeOfDay) (n : ℕ)
    → 0 < n
    → IsTime dt
    → let start = floor_to_minute dt (pos n) in
      IsTime start
      × (total_minutes start ≡ total_minutes dt / n * n)
      × (total_minutes start ≤ total_minutes dt)
      × (total_minutes dt < total_minutes start + n)
unfolding floor_to_minute
floor_to_minute_lem dt n h t =
    ground (arith, floored_bounds (total_minutes dt) n h, recompose (total_minutes dt / n * n))
