-- ===== src/Models.antt =====
-- brokers/models.py: the domain models that the core and the adapters exchange. `Enums` has the
-- enumerations, `Order` the order messages and their validation, `Market` candles, ticks, fills and
-- positions, `Signal` what a strategy emits. Free texts (messages, tags) are left out.
pub mod Enums
pub mod Symbol
pub mod Order
pub mod Market
pub mod Signal
