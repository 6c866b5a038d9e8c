-- ===== src/Tests.antt =====
-- Runs of the program's parts on concrete values, whole ten-thousandths for its floats, and each
-- theorem at such values.
pub mod Adapter
pub mod Candles
pub mod Signals
pub mod Metrics
pub mod Feed
pub mod Engine
pub mod Services
pub mod Crossover
pub mod Sockets
pub mod Container
pub mod Runner
pub mod Breeze
