-- ===== src/Streaks.antt =====
-- backtesting/performance.py, `_compute_streak_metrics`: the loop over the signs of the trades' profits.
-- The trades come from a data frame, which is built elsewhere; `np.sign` gives the signs.
use nexa_trade.Prelude.{
  ℕ, suc, ◌+◌, ◌≤◌, ◌≡◌, Bool, true, false, List, [], ◌∷◌, arith, ltb, if◌then◌else◌,
}
use nexa_trade.Prelude.Int.{ℤ, pos, ◌-ℤ◌}

pub data TradeSign : Type 0 where
  gain loss even : TradeSign

-- `max(a, b)`
abbrev pub max_of : ℕ → ℕ → ℕ
max_of a b = if ltb a b then b else a

-- The variables of the loop; `current_sign` is that of the last gain or loss, or zero.
pub record Streaks : Type 0 where
  pub max_win_streak : ℕ
  pub max_loss_streak : ℕ
  pub current_streak : ℕ
  pub current_sign : ℤ
  pub win_run : ℕ
  pub loss_run : ℕ

abbrev pub no_streaks : Streaks
no_streaks = record {
  max_win_streak = 0;
  max_loss_streak = 0;
  current_streak = 0;
  current_sign = pos 0;
  win_run = 0;
  loss_run = 0;
}

-- One round of the loop.
unfoldable pub count_trade : TradeSign → Streaks → Streaks
count_trade TradeSign.gain s = record {
  max_win_streak = max_of s.max_win_streak (s.win_run + 1);
  max_loss_streak = s.max_loss_streak;
  current_streak = s.win_run + 1;
  current_sign = pos 1;
  win_run = s.win_run + 1;
  loss_run = 0;
}
count_trade TradeSign.loss s = record {
  max_win_streak = s.max_win_streak;
  max_loss_streak = max_of s.max_loss_streak (s.loss_run + 1);
  current_streak = s.loss_run + 1;
  current_sign = pos 0 -ℤ pos 1;
  win_run = 0;
  loss_run = s.loss_run + 1;
}
count_trade TradeSign.even s = record s { win_run = 0; loss_run = 0 }

unfoldable pub count_trades : List TradeSign → Streaks → Streaks
count_trades [] s = s
count_trades (x ∷ xs) s = count_trades xs (count_trade x s)

-- With fewer than two trades all metrics are zero.
unfoldable pub compute_streaks : List TradeSign → Streaks
compute_streaks [] = no_streaks
compute_streaks (x ∷ []) = no_streaks
compute_streaks (x ∷ y ∷ xs) = count_trades (x ∷ y ∷ xs) no_streaks

abbrev pub is_gain : TradeSign → Bool
is_gain TradeSign.gain = true
is_gain _ = false

abbrev pub is_loss : TradeSign → Bool
is_loss TradeSign.loss = true
is_loss _ = false

-- The length of the run that a list begins with, and that of its longest run.
abbrev pub leading : (TradeSign → Bool) → List TradeSign → ℕ
leading p [] = 0
leading p (x ∷ xs) = if p x then suc (leading p xs) else 0

abbrev pub longest : (TradeSign → Bool) → List TradeSign → ℕ
longest p [] = 0
longest p (x ∷ xs) = max_of (leading p (x ∷ xs)) (longest p xs)

longest-leading : (p : TradeSign → Bool) (xs : List TradeSign) → leading p xs ≤ longest p xs
longest-leading p [] = omega arith
longest-leading p (x ∷ xs) = ground arith

count_trades-gains :
    (xs : List TradeSign) (s : Streaks)
    → s.win_run ≤ s.max_win_streak
    → (count_trades xs s).max_win_streak
      ≡ max_of s.max_win_streak (max_of (s.win_run + leading is_gain xs) (longest is_gain xs))
unfolding count_trades count_trade
count_trades-gains [] s h = ground arith
count_trades-gains (TradeSign.gain ∷ xs) s h = ground (
  arith,
  longest-leading is_gain xs,
  count_trades-gains xs (count_trade TradeSign.gain s) (ground arith),
)
count_trades-gains (TradeSign.loss ∷ xs) s h = ground (
  arith,
  longest-leading is_gain xs,
  count_trades-gains xs (count_trade TradeSign.loss s) (omega arith),
)
count_trades-gains (TradeSign.even ∷ xs) s h = ground (
  arith,
  longest-leading is_gain xs,
  count_trades-gains xs (count_trade TradeSign.even s) (omega arith),
)

count_trades-losses :
    (xs : List TradeSign) (s : Streaks)
    → s.loss_run ≤ s.max_loss_streak
    → (count_trades xs s).max_loss_streak
      ≡ max_of s.max_loss_streak (max_of (s.loss_run + leading is_loss xs) (longest is_loss xs))
unfolding count_trades count_trade
count_trades-losses [] s h = ground arith
count_trades-losses (TradeSign.loss ∷ xs) s h = ground (
  arith,
  longest-leading is_loss xs,
  count_trades-losses xs (count_trade TradeSign.loss s) (ground arith),
)
count_trades-losses (TradeSign.gain ∷ xs) s h = ground (
  arith,
  longest-leading is_loss xs,
  count_trades-losses xs (count_trade TradeSign.gain s) (omega arith),
)
count_trades-losses (TradeSign.even ∷ xs) s h = ground (
  arith,
  longest-leading is_loss xs,
  count_trades-losses xs (count_trade TradeSign.even s) (omega arith),
)

-- For two trades or more, the streaks are the longest runs of gains and of losses.
pub compute_streaks_lem :
    (x y : TradeSign) (xs : List TradeSign)
    → ((compute_streaks (x ∷ y ∷ xs)).max_win_streak ≡ longest is_gain (x ∷ y ∷ xs))
      × ((compute_streaks (x ∷ y ∷ xs)).max_loss_streak ≡ longest is_loss (x ∷ y ∷ xs))
unfolding compute_streaks
compute_streaks_lem x y xs =
    let all = x ∷ y ∷ xs in
    (
      ground (arith, count_trades-gains all no_streaks (omega arith), longest-leading is_gain all),
      ground (arith, count_trades-losses all no_streaks (omega arith), longest-leading is_loss all),
    )
