-- ===== src/Tests/Metrics.antt =====
-- The streaks of a few trades, and the floor of a time.
use nexa_trade.Prelude.{◌+◌, ◌*◌, ◌/◌, ◌≤◌, ◌<◌, ◌≡◌, refl, [], ◌∷◌, arith}
use nexa_trade.Prelude.Int.{pos}
use nexa_trade.Timing.{TimeOfDay, IsTime, total_minutes, floor_to_minute, floor_to_minute_lem}
use nexa_trade.Streaks.{
  TradeSign, count_trade, count_trades, compute_streaks, is_gain, is_loss, longest,
  compute_streaks_lem,
}

compute_streaks_lem_example :
    let trades = TradeSign.gain ∷ TradeSign.gain ∷ TradeSign.even ∷ TradeSign.loss ∷ [] in
    ((compute_streaks trades).max_win_streak ≡ longest is_gain trades)
    × ((compute_streaks trades).max_loss_streak ≡ longest is_loss trades)
compute_streaks_lem_example =
    compute_streaks_lem TradeSign.gain TradeSign.gain (TradeSign.even ∷ TradeSign.loss ∷ [])

-- A trade without gain or loss leaves the current streak at 2.
current_streak_after_even :
    (compute_streaks (TradeSign.gain ∷ TradeSign.gain ∷ TradeSign.even ∷ [])).current_streak ≡ 2
unfolding compute_streaks count_trades count_trade
current_streak_after_even = refl

-- 09:17:45
abbrev morning : TimeOfDay
morning = record { hour = 9; minute = 17; second = 45; microsecond = 0 }

floored_minute :
    let start = floor_to_minute morning (pos 5) in
    IsTime start
    × (total_minutes start ≡ total_minutes morning / 5 * 5)
    × (total_minutes start ≤ total_minutes morning)
    × (total_minutes morning < total_minutes start + 5)
floored_minute =
    floor_to_minute_lem morning 5 (omega arith) (omega arith, omega arith, omega arith, omega arith)
