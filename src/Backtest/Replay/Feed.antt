-- ===== src/Backtest/Replay/Feed.antt =====
-- What the strategy sees of the candles (`BacktestFeedAdapter`).
use nexa_trade.Prelude.{◌≡◌, some, ap, arith}
use mathlib.Core.Option
use nexa_trade.Ring.Window.{latest-push_bounded}
use nexa_trade.Float.{Float}
use nexa_trade.Models.Market.{Ohlcv}
use nexa_trade.Backtest.Pending.{Session}
use nexa_trade.Backtest.Replay.{see_candle, get_last_price, buffer_size}

module _ {S F : Type 0} ⦃f : Float F⦄ where
  -- When `on_candle` is called with a candle, the feed already has that candle, as its latest one:
  -- the strategy sees the candles up to and including the current one.
  pub get_last_price-see_candle :
      (c : Ohlcv F) (s : Session S F) → get_last_price (see_candle c s).buffer ≡ some c.close
  unfolding get_last_price see_candle
  get_last_price-see_candle c s =
      ap (Option.map (λ (x : Ohlcv F). x.close))
        (latest-push_bounded buffer_size c s.buffer (omega arith))
