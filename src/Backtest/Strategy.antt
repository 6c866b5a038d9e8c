-- ===== src/Backtest/Strategy.antt =====
-- What a strategy may do (strategies/abstract_strategy.py). Its methods are supplied by plugins, so
-- they are parameters: each call takes the candle buffer that the strategy reads through its feed and
-- its own state, and gives its new state, the signals that it emitted in order, and whether it raised.
-- `emit_signal` hands nothing back and swallows what its callback raises, so a strategy does not see
-- what became of a signal.
use nexa_trade.Prelude.{Bool, List}
use nexa_trade.Models.Order.{OrderResponse}
use nexa_trade.Models.Market.{Ohlcv, TickData}
use nexa_trade.Models.Signal.{StrategySignal}

pub record Reaction (S F : Type 0) : Type 0 where
  pub state : S
  pub signals : List (StrategySignal F)
  pub has_raised : Bool

pub record Strategy (S F : Type 0) : Type 0 where
  pub on_start : S → Reaction S F
  pub on_tick : List (Ohlcv F) → TickData F → S → Reaction S F
  pub on_candle : List (Ohlcv F) → Ohlcv F → S → Reaction S F
  pub on_order_update : List (Ohlcv F) → OrderResponse F → S → Reaction S F
  pub on_error : List (Ohlcv F) → S → Reaction S F
  pub on_stop : List (Ohlcv F) → S → Reaction S F
