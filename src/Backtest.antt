-- ===== src/Backtest.antt =====
-- backtesting/backtester.py: `Broker` is the state of `SimulatedBroker` and its position book,
-- `Prices` the fill rules, `Strategy` what a strategy may do, `Pending` the matching of queued orders
-- with the strategy's callback, `Valuation` the equity curve, `Replay` the loop of `Backtester.run`.
pub mod Broker
pub mod Prices
pub mod Strategy
pub mod Pending
pub mod Valuation
pub mod Replay
