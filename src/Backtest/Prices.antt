-- ===== src/Backtest/Prices.antt =====
-- backtesting/backtester.py, `process_pending_orders`: whether and at what price a candle fills an order.
pub mod Limits
use nexa_trade.Prelude.{Bool, true, false, ◌&&◌, Option, none, some, if◌then◌else◌}
use nexa_trade.Float.{Float, ◌⊕◌, ◌⊖◌, ◌⊗◌, ◌⊘◌, hundred, truthy, min_f, max_f}
use nexa_trade.Models.Enums.{TransactionType, OrderType}
use nexa_trade.Models.Market.{Ohlcv}
use nexa_trade.Backtest.Broker.{SimOrder}

module _ {F : Type 0} ⦃f : Float F⦄ where
  -- `price * (self.slippage_pct / 100)`
  abbrev pub slippage : F → F → F
  slippage pct price = price ⊗ (pct ⊘ hundred)

  unfoldable pub market_price : F → TransactionType → Ohlcv F → F
  market_price pct TransactionType.buy c = c.open_ ⊕ slippage pct c.open_
  market_price pct TransactionType.sell c = c.open_ ⊖ slippage pct c.open_

  -- A limit order at a limit that the candle reaches.
  unfoldable pub limit_price : F → TransactionType → F → Ohlcv F → Option F
  limit_price pct TransactionType.buy limit c =
      if f.le c.low limit then some (min_f c.open_ limit ⊕ slippage pct limit) else none
  limit_price pct TransactionType.sell limit c =
      if f.le limit c.high then some (max_f c.open_ limit ⊖ slippage pct limit) else none

  -- A stop order at a trigger that the candle reaches.
  unfoldable pub stop_price : F → TransactionType → F → Ohlcv F → Option F
  stop_price pct TransactionType.buy trigger c =
      if f.le trigger c.high then some (trigger ⊕ slippage pct trigger) else none
  stop_price pct TransactionType.sell trigger c =
      if f.le c.low trigger then some (trigger ⊖ slippage pct trigger) else none

  -- A level that is absent or zero is no level.
  abbrev pub at_level : (F → Option F) → Option F → Option F
  at_level rule none = none
  at_level rule (some level) = if truthy level then rule level else none

  unfoldable pub raw_price : F → OrderType → SimOrder F → Ohlcv F → Option F
  raw_price pct OrderType.market o c = some (market_price pct o.transaction_type c)
  raw_price pct OrderType.limit o c =
      at_level (λ l. limit_price pct o.transaction_type l c) o.limit_price
  raw_price pct OrderType.stop_loss o c =
      at_level (λ t. stop_price pct o.transaction_type t c) o.trigger_price
  raw_price pct OrderType.stop_loss_market o c =
      at_level (λ t. stop_price pct o.transaction_type t c) o.trigger_price

  -- `if fill_price: fill_price = max(fill_price, 0.01)`
  abbrev pub floored : Option F → Option F
  floored none = none
  floored (some p) = if truthy p then some (max_f p (f.decimal 1 2)) else none

  -- The price at which the candle fills the order, if it does.
  unfoldable pub fill_price : F → SimOrder F → Ohlcv F → Option F
  fill_price pct o c = floored (raw_price pct o.order_type o c)
