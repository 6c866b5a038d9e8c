-- ===== src/Backtest/Replay.antt =====
-- backtesting/backtester.py, `Backtester.run`: validation, set-up, the candle loop and the totals.
-- The metrics of `PerformanceAnalyser` are computed elsewhere and are not part of the result here.
pub mod Feed
pub mod Curve
use nexa_trade.Prelude.{
  ℕ, zero, suc, ◌+◌, ◌-◌, Bool, true, false, not, Option, none, some, List, [], ◌∷◌, ◌++◌,
  if◌then◌else◌, leb, length, drop, last_n,
}
use nexa_trade.Prelude.Int.{pos}
use nexa_trade.Text.{Text, codes, upper, in_list}
use nexa_trade.Dict.{Dict}
use nexa_trade.Float.{Float, ◌⊘◌, nought, int_of}
use nexa_trade.Outcome.{Outcome, ok, raised, value_error, ◌>>=◌, ◌>>◌, require}
use mathlib.Core.Option
use nexa_trade.Ring.{push_bounded, recent, latest}
use nexa_trade.Models.Symbol.{normalise_symbol}
use nexa_trade.Models.Market.{Ohlcv, TickData}
use nexa_trade.Backtest.Broker.{SimulatedBroker, fresh_broker}
use nexa_trade.Backtest.Strategy.{Strategy, Reaction}
use nexa_trade.Backtest.Pending.{Session, Setup, react, process_pending_orders}
use nexa_trade.Backtest.Valuation.{record_equity_snapshot, get_portfolio_value}

-- The arguments of `Backtester`, the index and columns of its frame, and what the environment adds:
-- the fuel for each candle's orders, and after which bars a stop was requested.
pub record Config (F : Type 0) : Type 0 where
  pub initial_capital : F
  pub slippage_pct : F
  pub commission_pct : F
  pub warmup_bars : ℕ
  pub symbol : Text
  pub exchange : Text
  pub interval : Text
  pub broker_name : Text
  pub columns : List Text
  pub fuel : ℕ
  pub stops_after : ℕ → Bool

-- One row of the frame.
pub record Row (F : Type 0) : Type 0 where
  pub ts : ℕ
  pub open_ : F
  pub high : F
  pub low : F
  pub close : F
  pub volume : F

pub record Totals (F : Type 0) : Type 0 where
  pub total_commission : F
  pub total_slippage : F
  pub final_capital : F

-- `text or other`
abbrev pub text_or : Text → Text → Text
text_or [] other = other
text_or (c ∷ t) other = c ∷ t

-- `deque(maxlen=1000)`
abbrev pub buffer_size : ℕ
buffer_size = 1000

abbrev pub required_columns : List Text
required_columns = codes "open" ∷ codes "high" ∷ codes "low" ∷ codes "close" ∷ codes "volume" ∷ []

unfoldable pub has_all : List Text → List Text → Bool
has_all [] columns = true
has_all (c ∷ cs) columns = if in_list c columns then has_all cs columns else false

module _ {F : Type 0} where
  abbrev pub candle_of : Config F → Row F → Ohlcv F
  candle_of cfg row = record {
    datetime = row.ts;
    open_ = row.open_;
    high = row.high;
    low = row.low;
    close = row.close;
    volume = row.volume;
    symbol = upper cfg.symbol;
    exchange = upper cfg.exchange;
    interval = cfg.interval;
    broker_name = cfg.broker_name;
  }

  -- `BacktestFeedAdapter.get_candles` and `get_last_price`, over the candle buffer: the symbol, the
  -- exchange and the interval are not looked at, and `n` of zero is as good as none.
  unfoldable pub get_candles : Option ℕ → List (Ohlcv F) → List (Ohlcv F)
  get_candles n buffer = recent n buffer

  unfoldable pub get_last_price : List (Ohlcv F) → Option F
  get_last_price buffer = Option.map (λ (c : Ohlcv F). c.close) (latest buffer)

module _ {F : Type 0} ⦃f : Float F⦄ where
  -- `_simulate_ticks`: four ticks, open, high, low and close. What `on_tick` raises is dropped,
  -- but not what `int(candle.volume / 4)` raises.
  abbrev pub tick_of : Config F → Ohlcv F → F → Outcome (TickData F)
  tick_of cfg c price = int_of (c.volume ⊘ f.decimal 4 0) >>= λ volume. ok record {
    symbol = normalise_symbol c.symbol;
    exchange = text_or c.exchange (codes "NSE");
    broker_name = cfg.broker_name;
    last_price = price;
    volume = volume;
    timestamp = c.datetime;
  }

  abbrev pub last_close : Row F → List (Row F) → F
  last_close row [] = row.close
  last_close row (next ∷ rows) = last_close next rows

  unfoldable pub totals : Config F → F → SimulatedBroker F → Totals F
  totals cfg close b = record {
    total_commission = f.round 2 b.total_commission;
    total_slippage = f.round 2 b.total_slippage;
    final_capital = f.round 2 (get_portfolio_value ((upper cfg.symbol, close) ∷ []) b);
  }

module _ {S F : Type 0} ⦃f : Float F⦄ where
  unfoldable pub send_ticks :
      Setup S F → Config F → Ohlcv F → List F → Session S F → Outcome (Session S F)
  send_ticks w cfg c [] s = ok s
  send_ticks w cfg c (price ∷ prices) s = tick_of cfg c price >>= λ t.
      send_ticks w cfg c prices (react w (w.strategy.on_tick s.buffer t s.strategy) s)

  unfoldable pub simulate_ticks :
      Setup S F → Config F → Ohlcv F → Session S F → Outcome (Session S F)
  unfolding send_ticks
  simulate_ticks w cfg c s = send_ticks w cfg c (c.open_ ∷ c.high ∷ c.low ∷ c.close ∷ []) s

  -- `on_candle`, and `on_error` if it raised.
  unfoldable pub call_on_candle : Setup S F → Ohlcv F → Session S F → Session S F
  call_on_candle w c s =
      let r = w.strategy.on_candle s.buffer c s.strategy in
      let s' = react w r s in
      if r.has_raised then react w (w.strategy.on_error s'.buffer s'.strategy) s' else s'

  -- `self._candle_buffer.append(candle)`, between the ticks and `on_candle`.
  unfoldable pub see_candle : Ohlcv F → Session S F → Session S F
  see_candle c s = record s { buffer = push_bounded buffer_size c s.buffer }

  -- The steps between the fills and the snapshot of a bar: ticks, buffer, and past the warm-up the
  -- candle.
  unfoldable pub notify_bar :
      Setup S F → Config F → ℕ → Ohlcv F → Session S F → Outcome (Session S F)
  notify_bar w cfg bar_idx c s = simulate_ticks w cfg c s >>= λ ticked.
      let seen = see_candle c ticked in
      ok (if leb cfg.warmup_bars bar_idx then call_on_candle w c seen else seen)

  -- One round of the candle loop.
  unfoldable pub bar_step : Setup S F → Config F → ℕ → Row F → Session S F → Outcome (Session S F)
  bar_step w cfg bar_idx row s = do
    let c = candle_of cfg row
    filled ← process_pending_orders w cfg.fuel c s
    noted ← notify_bar w cfg bar_idx c filled
    b ← record_equity_snapshot c.datetime ((upper cfg.symbol, c.close) ∷ []) noted.broker
    ok (record noted { broker = b })

  unfoldable pub replay :
      Setup S F → Config F → ℕ → List (Row F) → Session S F → Outcome (Session S F)
  replay w cfg bar_idx [] s = ok s
  replay w cfg bar_idx (row ∷ rows) s = bar_step w cfg bar_idx row s >>= λ s'.
      if cfg.stops_after bar_idx then ok s' else replay w cfg (bar_idx + 1) rows s'

  -- The session before the first candle: a fresh broker, and what `on_start` emits.
  unfoldable pub set_up : Setup S F → Config F → S → Session S F
  set_up w cfg initial =
      let s : Session S F = record {
        broker = fresh_broker cfg.initial_capital cfg.slippage_pct cfg.commission_pct;
        strategy = initial;
        buffer = [];
        ids_drawn = 0;
      } in
      react w (w.strategy.on_start initial) s

  -- `run()`: an empty frame or a missing column is a `ValueError`.
  unfoldable pub run : Setup S F → Config F → S → List (Row F) → Outcome (Session S F × Totals F)
  run w cfg initial [] = raised value_error
  run w cfg initial (row ∷ rows) = do
    require (has_all required_columns cfg.columns) value_error
    s ← replay w cfg 0 (row ∷ rows) (set_up w cfg initial)
    let stopped = react w (w.strategy.on_stop s.buffer s.strategy) s
    ok (stopped, totals cfg (last_close row rows) stopped.broker)
