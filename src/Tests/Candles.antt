-- ===== src/Tests/Candles.antt =====
-- Backtests of small strategies on concrete candles.
use nexa_trade.Prelude.{
  ℕ, suc, zero, ◌+◌, ◌≤◌, ◌≡◌, refl, false, none, some, List, [], ◌∷◌, ◌++◌, arith, length, last_n,
}
use nexa_trade.Prelude.Int.{pos}
use nexa_trade.Text.{codes, text_eq, in_list}
use nexa_trade.Dict.{lookup}
use nexa_trade.Float.Fixed.{Fixed, fixed_float, Fixed-IsOrdered}
use nexa_trade.Outcome.{raised, out_of_fuel, Returns}
use nexa_trade.Models.Enums.{TransactionType, OrderType, Exchange, Segment, SignalDirection, given}
use nexa_trade.Models.Market.{Ohlcv}
use nexa_trade.Models.Signal.{StrategySignal}
use nexa_trade.Ring.{push_all}
use nexa_trade.Ring.Window.{push_all_lem}
use nexa_trade.Backtest.Broker.{SimOrder, fresh_broker}
use nexa_trade.Backtest.Strategy.{Reaction}
use nexa_trade.Backtest.Prices.{slippage, market_price, limit_price, floored, raw_price, fill_price}
use nexa_trade.Backtest.Prices.Limits.{
  Reaches, Within, fill_price-Reaches, limit_price-Within, limit_buy_exceeds,
}
use nexa_trade.Backtest.Pending.{Session, Setup, react, process_pending_orders}
use nexa_trade.Backtest.Pending.Signals.{Queues, react-Queues}
use nexa_trade.Backtest.Pending.Invariant.{Agrees, Budget, IsGood}
use nexa_trade.Backtest.Pending.Matching.{Settles, process_pending_orders_lem}
use nexa_trade.Backtest.Pending.Counted.{
  ExactBudget, orderables, balance, process_pending_orders_counted,
}
use nexa_trade.Backtest.Pending.Livelock.{process_pending_orders_stuck}
use nexa_trade.Backtest.Pending.Partition.{
  waiting, filling, orders_filled, process_pending_orders_splits,
}
use nexa_trade.Backtest.Replay.{
  Config, Row, see_candle, get_last_price, required_columns, has_all, run,
}
use nexa_trade.Backtest.Replay.Feed.{get_last_price-see_candle}
use nexa_trade.Backtest.Replay.Curve.{curve_times, row_times, run_lem}

-- A signal to buy one share at the market.
abbrev buy_one : StrategySignal Fixed
buy_one = record {
  signal_id = codes "S";
  strategy_name = codes "test";
  symbol = codes "INFY";
  exchange = Exchange.nse;
  segment = given Segment.eq;
  direction = SignalDirection.buy;
  strength = pos 10000;
  suggested_price = none;
  suggested_quantity = some (pos 1);
  stop_loss_price = none;
  target_price = none;
}

abbrev silent : ℕ → Reaction ℕ Fixed
silent n = record { state = n; signals = []; has_raised = false }

-- Buys on each candle while its state is not zero.
abbrev buy_and_count : ℕ → Reaction ℕ Fixed
buy_and_count zero = silent zero
buy_and_count (suc n) = record { state = n; signals = buy_one ∷ []; has_raised = false }

abbrev counting : Setup ℕ Fixed
counting = record {
  strategy = record {
    on_start = silent;
    on_tick = λ buffer t. silent;
    on_candle = λ buffer c. buy_and_count;
    on_order_update = λ buffer r. silent;
    on_error = λ buffer. silent;
    on_stop = λ buffer. silent;
  };
  fresh_id = λ n. n ∷ [];
}

counting_pays : (n : ℕ) → length (buy_and_count n).signals + (buy_and_count n).state ≤ n
counting_pays zero = omega arith
counting_pays (suc n) = omega arith

counting-Budget : Budget counting
counting-Budget = record {
  potential = λ n. n;
  start_pays = λ n. omega arith;
  tick_pays = λ buffer t n. omega arith;
  candle_pays = λ buffer c. counting_pays;
  update_pays = λ buffer r n. omega arith;
  error_pays = λ buffer n. omega arith;
  stop_pays = λ buffer n. omega arith;
}

-- Buys again on a fill, as often as it counts down.
abbrev refilling : Setup ℕ Fixed
refilling = record counting {
  strategy = record (counting.strategy) {
    on_candle = λ buffer c. silent;
    on_order_update = λ buffer r. buy_and_count;
  };
}

refilling-Budget : Budget refilling
refilling-Budget = record {
  potential = λ n. n;
  start_pays = λ n. omega arith;
  tick_pays = λ buffer t n. omega arith;
  candle_pays = λ buffer c n. omega arith;
  update_pays = λ buffer r. counting_pays;
  error_pays = λ buffer n. omega arith;
  stop_pays = λ buffer n. omega arith;
}

refilling_owes : (n : ℕ) → (buy_and_count n).state + orderables (buy_and_count n).signals ≡ n
refilling_owes zero = refl
refilling_owes (suc n) = omega arith

refilling-ExactBudget : ExactBudget refilling
refilling-ExactBudget = record { owed = λ n. n; update_pays = λ buffer r. refilling_owes }

-- Buys again on every fill.
abbrev resubmitting : Setup ℕ Fixed
resubmitting = record {
  strategy = record (counting.strategy) {
    on_order_update =
        λ buffer r n. record { state = n; signals = buy_one ∷ []; has_raised = false };
  };
  fresh_id = λ n. n ∷ [];
}

abbrev row : Row Fixed
row = record {
  ts = 1;
  open_ = pos 1000000;
  high = pos 1020000;
  low = pos 980000;
  close = pos 1010000;
  volume = pos 0;
}

abbrev candle : Ohlcv Fixed
candle = record {
  datetime = 1;
  open_ = pos 1000000;
  high = pos 1020000;
  low = pos 980000;
  close = pos 1010000;
  volume = pos 0;
  symbol = codes "INFY";
  exchange = codes "NSE";
  interval = codes "1minute";
  broker_name = codes "b";
}

abbrev config : Config Fixed
config = record {
  initial_capital = pos 1000000000;
  slippage_pct = pos 500;
  commission_pct = pos 300;
  warmup_bars = 0;
  symbol = codes "infy";
  exchange = codes "nse";
  interval = codes "1minute";
  broker_name = codes "b";
  columns = required_columns;
  fuel = 10;
  stops_after = λ n. false;
}

run_lem_example :
    Returns
      (λ out. Agrees out.0.broker × (curve_times out.0.broker ≡ row_times (row ∷ row ∷ [])))
      (run counting config 2 (row ∷ row ∷ []))
unfolding fixed_float counting-Budget has_all in_list text_eq
run_lem_example =
    run_lem counting counting-Budget config 2 row (row ∷ []) (omega arith) refl refl (λ n. refl)
      (refl, (refl, tt))

-- A market buy of one share, and a limit buy at 99.00 and one at 90.00.
abbrev market_buy : SimOrder Fixed
market_buy = record {
  order_id = codes "1";
  strategy_name = codes "test";
  symbol = codes "INFY";
  transaction_type = TransactionType.buy;
  order_type = OrderType.market;
  quantity = pos 1;
  limit_price = none;
  trigger_price = none;
}

abbrev limit_buy : Fixed → SimOrder Fixed
limit_buy l = record market_buy { order_type = OrderType.limit; limit_price = some l }

abbrev queued : List (SimOrder Fixed) → Session ℕ Fixed
unfolding fresh_broker
queued orders = record {
  broker = record (fresh_broker (pos 1000000000) (pos 500) (pos 300)) { pending_orders = orders };
  strategy = 2;
  buffer = [];
  ids_drawn = 0;
}

abbrev three : Session ℕ Fixed
three = queued (market_buy ∷ limit_buy (pos 990000) ∷ limit_buy (pos 900000) ∷ [])

queued-Agrees : (orders : List (SimOrder Fixed)) → Agrees (queued orders).broker
unfolding queued fresh_broker lookup
queued-Agrees orders = record { agrees = λ j. refl; recorded = tt }

three-IsGood : IsGood (λ n. n) 5 (pos 1000000000) [] three
unfolding queued fresh_broker
three-IsGood = record {
  agrees = queued-Agrees _;
  queue_positive = (omega arith, (omega arith, (omega arith, tt)));
  still_positive = tt;
  within = omega arith;
  same_capital = refl;
}

three_settled :
    Returns
      (Settles counting counting-Budget 5 (pos 1000000000) [] three)
      (process_pending_orders counting 6 candle three)
unfolding queued fresh_broker counting-Budget
three_settled =
    process_pending_orders_lem counting counting-Budget 5 (pos 1000000000) 6 candle three
      (omega arith) three-IsGood

process_pending_orders_counted_example :
    Returns
      (λ s'.
        Settles refilling refilling-Budget 5 (pos 1000000000) [] three s'
        × (balance refilling refilling-ExactBudget [] s'
            ≡ balance refilling refilling-ExactBudget [] three))
      (process_pending_orders refilling 6 candle three)
unfolding queued fresh_broker refilling-Budget
process_pending_orders_counted_example =
    process_pending_orders_counted refilling refilling-Budget refilling-ExactBudget 5
      (pos 1000000000) 6 candle three (omega arith) three-IsGood

process_pending_orders_splits_example :
    Returns
      (λ (s' : Session ℕ Fixed).
        (s'.broker.pending_orders
          ≡ waiting three.broker.slippage_pct candle three.broker.pending_orders)
        × (orders_filled s'.broker
            ≡ orders_filled three.broker
              ++ filling three.broker.slippage_pct candle three.broker.pending_orders))
      (process_pending_orders counting 4 candle three)
unfolding queued fresh_broker
process_pending_orders_splits_example =
    process_pending_orders_splits counting candle 4 three (λ buffer r n. refl) (omega arith)
      (record {
        agrees = queued-Agrees _;
        positive = (omega arith, (omega arith, (omega arith, tt)));
      })

process_pending_orders_stuck_example :
    process_pending_orders resubmitting 100 candle (queued (market_buy ∷ [])) ≡ raised out_of_fuel
unfolding queued fresh_broker fixed_float market_price
process_pending_orders_stuck_example =
    process_pending_orders_stuck resubmitting buy_one 100 candle (queued (market_buy ∷ []))
      (λ e. cc) (refl, refl, refl, refl) (λ buffer r n. refl) refl
      (record { agrees = queued-Agrees _; all_buys = ((refl, refl, omega arith), tt) })

fill_price-Reaches_example : Reaches OrderType.limit (limit_buy (pos 990000)) candle
unfolding fixed_float fill_price raw_price limit_price
fill_price-Reaches_example = fill_price-Reaches (pos 500) (limit_buy (pos 990000)) candle refl

limit_price_bounds :
    Within Fixed-IsOrdered TransactionType.buy
      (pos 990000)
      (slippage (pos 500) (pos 990000))
      (pos 990495)
unfolding fixed_float limit_price
limit_price_bounds =
    limit_price-Within Fixed-IsOrdered (pos 500) TransactionType.buy (pos 990000) candle refl refl
      refl refl refl refl refl

limit_buy_above_limit :
    (p : Fixed) × (floored (limit_price (pos 500) TransactionType.buy (pos 990000) candle) ≡ some p)
    × (fixed_float.le p (pos 990000) ≡ false)
unfolding fixed_float
limit_buy_above_limit =
    limit_buy_exceeds Fixed-IsOrdered (pos 500) (pos 990000) candle refl refl refl refl refl

react-Queues_example :
    Queues 1 (record (queued []) { strategy = 1 }) (react counting (buy_and_count 2) (queued []))
react-Queues_example = react-Queues counting (buy_and_count 2) (queued [])

latest_candle_seen : get_last_price (see_candle candle (queued [])).buffer ≡ some (pos 1010000)
latest_candle_seen = get_last_price-see_candle candle (queued [])

pushed_window :
    (push_all {A = ℕ} 2 (5 ∷ []) (6 ∷ 7 ∷ []) ≡ last_n {A = ℕ} 2 (5 ∷ 6 ∷ 7 ∷ []))
    × (length (push_all {A = ℕ} 2 (5 ∷ []) (6 ∷ 7 ∷ [])) ≤ 2)
pushed_window = push_all_lem {A = ℕ} 2 (5 ∷ []) (6 ∷ 7 ∷ []) (omega arith)
