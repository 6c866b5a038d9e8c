-- ===== src/Paper.antt =====
-- brokers/brokers/paper/paper_adapter.py: the paper trading adapter. `State` is the adapter's fields
-- and its session, `Pricing` the simulated prices, `Positions` the book of positions, `Orders` the
-- calls that place, change and report orders, `Feed` the prices that arrive and the resting orders
-- that they fill, `Portfolio` the reports on positions and funds.
pub mod State
pub mod Pricing
pub mod Positions
pub mod Orders
pub mod Ledger
pub mod Feed
pub mod Portfolio
