-- ===== src/Aggregator.antt =====
-- services/feed_service.py, class CandleAggregator: ticks become candles. `_current_boundary` is always
-- the `datetime` of `_current`, and has no field of its own. The callbacks of a closed candle are
-- registered under numbers that stand for the functions; what they raise is logged and dropped.
pub mod Bars
pub mod Range
pub mod Race
use nexa_trade.Prelude.{
  ℕ, Bool, Option, none, some, List, [], ◌∷◌, ◌++◌, length, ltb, if◌then◌else◌,
}
use nexa_trade.Prelude.Int.{ℤ, pos}
use nexa_trade.Text.{Text, upper}
use nexa_trade.Float.{Float, ◌⊕◌, min_f, max_f}
use nexa_trade.Timing.Instant.{floor_instant}
use nexa_trade.Callbacks.{register, unregister}
use nexa_trade.Ring.{push_bounded, push_all, recent, latest}
use nexa_trade.Models.Market.{Ohlcv, TickData}

-- The candle in progress.
pub record Running (F : Type 0) : Type 0 where
  pub datetime : ℕ
  pub open_ : F
  pub high : F
  pub low : F
  pub close : F
  pub volume : F

pub record Aggregator (F : Type 0) : Type 0 where
  pub symbol : Text
  pub exchange : Text
  pub interval : Text
  pub interval_minutes : ℤ
  pub broker_name : Text
  pub buffer_size : ℕ
  pub buffer : List (Ohlcv F)
  pub current : Option (Running F)
  pub listeners : List ℕ

module _ {F : Type 0} where
  -- `CandleAggregator(...)`
  unfoldable pub new_aggregator : Text → Text → Text → ℤ → Text → ℕ → Aggregator F
  new_aggregator symbol exchange interval interval_minutes broker_name buffer_size = record {
    symbol = upper symbol;
    exchange = upper exchange;
    interval = interval;
    interval_minutes = interval_minutes;
    broker_name = broker_name;
    buffer_size = buffer_size;
    buffer = [];
    current = none;
    listeners = [];
  }

  -- `on_candle_close` and `remove_candle_close_callback`
  unfoldable pub on_candle_close : ℕ → Aggregator F → Aggregator F
  on_candle_close callback a = record a { listeners = register callback a.listeners }

  unfoldable pub remove_candle_close_callback : ℕ → Aggregator F → Aggregator F
  remove_candle_close_callback callback a = record a { listeners = unregister callback a.listeners }

  abbrev pub candle_count : Aggregator F → ℕ
  candle_count a = length a.buffer

  abbrev pub latest_candle : Aggregator F → Option (Ohlcv F)
  latest_candle a = latest a.buffer

  unfoldable pub get_candles : Option ℕ → Aggregator F → List (Ohlcv F)
  get_candles n a = recent n a.buffer

  -- `_close_current_candle`, for a candle in progress: it stays the current one.
  abbrev pub candle_of : Aggregator F → Running F → Ohlcv F
  candle_of a r = record {
    datetime = r.datetime;
    open_ = r.open_;
    high = r.high;
    low = r.low;
    close = r.close;
    volume = r.volume;
    symbol = a.symbol;
    exchange = a.exchange;
    interval = a.interval;
    broker_name = a.broker_name;
  }

  unfoldable pub close_candle : Running F → Aggregator F → Aggregator F
  close_candle r a = record a { buffer = push_bounded a.buffer_size (candle_of a r) a.buffer }

  -- `force_close_current`: the partial candle, if there is one.
  unfoldable pub force_close_current : Aggregator F → Option (Ohlcv F) × Aggregator F
  force_close_current a = elim a.current [
    | none ↦ (none, a)
    | some r ↦ (some (candle_of a r), close_candle r a)
  ]

  unfoldable pub seed_from_history : List (Ohlcv F) → Aggregator F → Aggregator F
  seed_from_history candles a = record a { buffer = push_all a.buffer_size a.buffer candles }

  -- `floor_to_minute(ts, self.interval_minutes)`
  abbrev pub boundary_of : ℤ → TickData F → ℕ
  boundary_of interval_minutes t = floor_instant interval_minutes t.timestamp

module _ {F : Type 0} ⦃f : Float F⦄ where
  -- `_start_new_candle` and `_update_current_candle`
  unfoldable pub start_new_candle : TickData F → ℕ → Running F
  start_new_candle t boundary = record {
    datetime = boundary;
    open_ = t.last_price;
    high = t.last_price;
    low = t.last_price;
    close = t.last_price;
    volume = f.of_ℤ t.volume;
  }

  unfoldable pub update_candle : TickData F → Running F → Running F
  update_candle t r = record r {
    high = max_f r.high t.last_price;
    low = min_f r.low t.last_price;
    close = t.last_price;
    volume = r.volume ⊕ f.of_ℤ t.volume;
  }

  -- `process_tick`, by the candle in progress. The candle that it closes goes to the callbacks.
  unfoldable pub ingest :
      TickData F → ℕ → Option (Running F) → Aggregator F → List (Ohlcv F) × Aggregator F
  ingest t boundary none a = ([], record a { current = some (start_new_candle t boundary) })
  ingest t boundary (some r) a =
      if ltb r.datetime boundary
      then (
        candle_of a r ∷ [],
        record (close_candle r a) { current = some (start_new_candle t boundary) },
      )
      else ([], record a { current = some (update_candle t r) })

  unfoldable pub process_tick : TickData F → Aggregator F → List (Ohlcv F) × Aggregator F
  process_tick t a = ingest t (boundary_of a.interval_minutes t) a.current a

  -- Ticks one after the other, with all candles that they close.
  unfoldable pub process_ticks : List (TickData F) → Aggregator F → List (Ohlcv F) × Aggregator F
  process_ticks [] a = ([], a)
  process_ticks (t ∷ ts) a =
      let (closed, a') = process_tick t a in
      let (more, last) = process_ticks ts a' in (closed ++ more, last)
