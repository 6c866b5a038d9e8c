-- ===== src/Lib.antt =====
-- NexaTrade: a trading platform whose orders come from strategies, pass a risk manager and go to a
-- broker. This library models its two simulated brokers, the data models that they share, the
-- backtester around one of them with the streaks of its report, the risk manager, the strategy engine
-- between strategies and the broker, and the services for feed, broker and candles.
--
-- The parts, and the code that each file is about:
--   Models        brokers/models.py: enumerations, orders, candles, ticks, fills, signals, with the
--                 validators that refuse or change a value (`create`, `normalise_symbol`)
--   Paper         brokers/brokers/paper/paper_adapter.py, class PaperAdapter. `Paper.State` has its
--                 fields, `Paper.Positions` `_update_position`, `Paper.Pricing` `_simulate_fill_price`
--                 and `_calculate_commission`, `Paper.Orders` the order calls, `Paper.Feed`
--                 `update_last_price` and `_check_pending_fills`, `Paper.Portfolio` the reports.
--                 `Paper.Ledger` and the modules below each of these hold the proofs
--   Backtest      backtesting/backtester.py. `Backtest.Broker`, `Backtest.Prices` and
--                 `Backtest.Valuation` are SimulatedBroker, `Backtest.Pending` its loop over the
--                 pending orders together with the strategy's callback, `Backtest.Replay`
--                 Backtester.run and the feed adapter; `Backtest.Strategy` is what a strategy may do
--                 (strategies/abstract_strategy.py)
--   Ring          the bounded deque of candles
--   Redis         data/storage/redis_client.py, what the risk manager calls of it, over the library
--   Checks        strategies/risk_manager.py, the ten checks, with utils/time_utils.py
--                 `is_market_open`
--   Risk          strategies/risk_manager.py: `approve_signal`, the kill switches, the counters
--   Requests      strategies/strategy_engine.py, `_signal_to_order_request`
--   Engine        strategies/strategy_engine.py: the state of StrategyEngine, `_process_signal` and
--                 `deactivate_strategy`
--   Lifecycle     strategies/strategy_engine.py: `activate_strategy`, `restart_strategy`, `stop`,
--                 `_on_order_update` and `_handle_strategy_error`
--   Aggregator    services/feed_service.py, class CandleAggregator; `Aggregator.Race` has
--                 `process_tick` in two halves, before and after the callbacks are awaited
--   FeedService   services/feed_service.py, class FeedService, its ticks in `FeedService.Ticks`
--   Brokers       brokers/registry.py, and the callbacks of brokers/abstract_broker.py
--   BrokerService services/broker_service.py
--   DataService   services/data_service.py: the cache and the way to the stores
--   Crossover     plugins/ema_crossover.py
--   Sockets       api/routes/websocket.py: the connections and the tick sessions on the feed service
--   Container     container.py, class Container
--   Runner        backtesting/backtest_runner.py, class BacktestRunner; `walk_forward` in
--                 `Runner.Walk`
--   Breeze        brokers/brokers/breeze/breeze_adapter.py: the connection, the orders in
--                 `Breeze.Orders`, the candles in `Breeze.Candles`, quotes and positions
--                 in `Breeze.Reports`, and the subscriptions
--   Callbacks     the callback lists of brokers/abstract_broker.py and services/broker_service.py
--   Timing        utils/time_utils.py, `floor_to_minute`, on times of day and on points in time,
--                 and `date_range_chunks`
--   Streaks       backtesting/performance.py, `_compute_streak_metrics`
--   Prelude, Text, Dict, Float, Outcome   what the parts share
--   Tests         runs on concrete values
--
-- How the code is read. A method that changes `self` takes the state and gives the new one; an
-- exception is `raised` with its class in `Outcome`. Python's int is ℤ over the native numbers. A
-- float is an element of a type with the operations that the code uses (`Float`); theorems about
-- prices assume order laws of it (`IsOrdered`), which hold of IEEE doubles without infinities in the
-- results, and NaN is excluded where the law needs it (`IsNumber`). `Float.Fixed` is an instance that
-- runs, whole ten-thousandths. A text is a list of character codes, and `upper` and `strip` are
-- those of ASCII. A dict is an association list in insertion order. Times are numbers. Random
-- numbers, fresh ids, the clock, the strategy's methods and the configuration are arguments.
--
-- Awaiting: a call of the paper adapter runs without interruption after the delay at its start, but for
-- `_check_pending_fills`, which awaits the order callbacks after each fill: they are the argument `heard`
-- of `Paper.Feed.check_pending_fills`, which may change the adapter before the next order is looked up. A
-- session is a sequence of calls and of the tasks that `asyncio.create_task` scheduled, in any
-- interleaving, in which the callbacks answer by calls of the adapter (`Paper.Ledger.Reach`). In a
-- backtest everything is awaited in turn.
--
-- Fuel: `process_pending_orders` runs over a list that the strategy's callback may extend, so it
-- takes fuel, one unit for each order that it visits. The fuel that a statement asks for is the length
-- of the queue and the number of signals that the strategy can still emit (`Budget`).
-- `date_range_chunks` takes fuel for its rounds; the length of the range in microseconds is enough.
--
-- `walk_forward` takes fuel for its windows; the number of days asked for is less than enough by one
-- where the training months lead to a later day.
--
-- Redis and PostgreSQL are parameters: each call takes the state of the server and gives its answer,
-- which may be an exception, and the new state. The theorems on the kill switch assume a Redis that
-- reads back what was set (`Risk.KillSwitch.IsWorking`).
--
-- The strategy engine works on one state of everything outside, which its calls of the broker, of
-- PostgreSQL, of Redis and of the clock take and give. A plugin's methods give the signals that they
-- emitted, which are processed in order when the method has run; an update that the broker emits is a
-- call of its own. The feed service takes the broker's feed as a parameter, with the laws of
-- `FeedService.Refs.IsFeed` where a theorem needs them.
--
-- The container's components, and for the runner the database, the data service, the strategy class and
-- the back tester, are parameters that may raise at every call. A broadcast to sockets is one step,
-- though the code awaits each send.
--
-- The client of the Breeze adapter is a parameter too; theorems on what it streams assume that it streams
-- what was subscribed last and nothing when it is new (`Breeze.Feed.IsStream`).
--
-- Not modelled: the other metrics and the indicators, which use pandas; the vendor's
-- SDK, the stores and the HTTP routes, which are input and output; the import of plugin files; logging
-- everywhere; dates beyond the last one of `datetime`, where adding days raises an OverflowError; a
-- reconnect task that has failed already when `BrokerService.stop` awaits it.
pub mod Prelude
pub mod Text
pub mod Dict
pub mod Float
pub mod Outcome
pub mod Ring
pub mod Models
pub mod Paper
pub mod Backtest
pub mod Tests
pub mod Redis
pub mod Checks
pub mod Requests
pub mod Engine
pub mod Lifecycle
pub mod Risk
pub mod Streaks
pub mod Timing
pub mod Aggregator
pub mod Callbacks
pub mod FeedService
pub mod Sockets
pub mod Container
pub mod Runner
pub mod Breeze
pub mod Brokers
pub mod BrokerService
pub mod DataService
pub mod Crossover
