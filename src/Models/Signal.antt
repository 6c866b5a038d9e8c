-- ===== src/Models/Signal.antt =====
-- brokers/models.py, section 7: the signal that a strategy emits.
use nexa_trade.Prelude.{Option}
use nexa_trade.Prelude.Int.{ℤ}
use nexa_trade.Text.{Text}
use nexa_trade.Models.Enums.{Exchange, Segment, EnumField, SignalDirection}

pub record StrategySignal (F : Type 0) : Type 0 where
  pub signal_id : Text
  pub strategy_name : Text
  pub symbol : Text
  pub exchange : Exchange
  pub segment : EnumField Segment
  pub direction : SignalDirection
  pub strength : F
  pub suggested_price : Option F
  pub suggested_quantity : Option ℤ
  pub stop_loss_price : Option F
  pub target_price : Option F
