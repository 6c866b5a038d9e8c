-- ===== src/Models/Market.antt =====
-- brokers/models.py, sections 3 and 4: candles, ticks, fills and positions.
use nexa_trade.Prelude.{ℕ, Option}
use nexa_trade.Prelude.Int.{ℤ}
use nexa_trade.Text.{Text}
use nexa_trade.Models.Enums.{TransactionType, Exchange, Segment, TradingMode}

pub record Quote (F : Type 0) : Type 0 where
  pub symbol : Text
  pub exchange : Exchange
  pub broker_name : Text
  pub last_price : F
  pub timestamp : Option ℕ

-- A candle; `datetime` is a point in time as a number, such as microseconds of the epoch.
pub record Ohlcv (F : Type 0) : Type 0 where
  pub datetime : ℕ
  pub open_ : F
  pub high : F
  pub low : F
  pub close : F
  pub volume : F
  pub symbol : Text
  pub exchange : Text
  pub interval : Text
  pub broker_name : Text

pub record TickData (F : Type 0) : Type 0 where
  pub symbol : Text
  pub exchange : Text
  pub broker_name : Text
  pub last_price : F
  pub volume : ℤ
  pub timestamp : ℕ

pub record Position (F : Type 0) : Type 0 where
  pub symbol : Text
  pub exchange : Exchange
  pub segment : Segment
  pub broker_name : Text
  pub trading_mode : TradingMode
  pub quantity : ℤ
  pub average_price : F
  pub last_price : F
  pub unrealized_pnl : F
  pub realized_pnl : F

pub record Fill (F : Type 0) : Type 0 where
  pub order_id : Text
  pub broker_order_id : Option Text
  pub broker_name : Text
  pub symbol : Text
  pub exchange : Text
  pub transaction_type : TransactionType
  pub quantity : ℤ
  pub price : F
  pub commission : F
  pub trading_mode : TradingMode
  pub executed_at : ℕ
