-- ===== src/Risk.antt =====
-- strategies/risk_manager.py, class RiskManager: `approve_signal`, the kill switches and the counters.
pub mod Tally
pub mod KillSwitch
pub mod Approval
pub mod Outage
use nexa_trade.Prelude.{
  ℕ, ◌+◌, ◌*◌, Bool, true, false, Option, none, some, List, [], ◌∷◌, get_or, leb, if◌then◌else◌,
}
use nexa_trade.Text.{Text}
use nexa_trade.Dict.{Dict, lookup, insert}
use nexa_trade.Float.{Float}
use nexa_trade.Outcome.{Outcome}
use nexa_trade.Models.Signal.{StrategySignal}
use nexa_trade.Redis.{Act, set_kill_switch, set_global_kill_switch}
use nexa_trade.Checks.{
  Clock, RiskConfig, Services, check_kill_switch, check_market_hours, check_daily_loss_limit,
  check_drawdown, check_max_positions, check_capital_per_trade, check_blacklist,
  check_duplicate_signal, check_position_size, check_direction_conflict,
}

pub record RiskManager : Type 0 where
  pub signals_approved : ℕ
  pub signals_blocked : ℕ
  pub block_reasons : Dict ℕ

-- `RiskManager()` and `reset_stats()`
abbrev pub reset_stats : RiskManager
reset_stats = record { signals_approved = 0; signals_blocked = 0; block_reasons = [] }

-- The counters of `get_stats()`: approved, blocked, and all.
unfoldable pub get_stats : RiskManager → ℕ × ℕ × ℕ
get_stats m = (m.signals_approved, m.signals_blocked, m.signals_approved + m.signals_blocked)

-- The arguments of `approve_signal` beside the signal, and the time at which it is called.
pub record Context (F : Type 0) : Type 0 where
  pub cfg : RiskConfig F
  pub broker_name : Text
  pub trading_mode : Text
  pub now : Clock

-- The first reason to block ends the loop over the checks.
unfoldable pub go_on : {R : Type 0} → Option Text × R → (R → Option Text × R) → Option Text × R
go_on (some reason, r) next = (some reason, r)
go_on (none, r) next = next r

-- The checks in their order, until one gives a reason.
unfoldable pub run_checks : {R : Type 0} → List (R → Option Text × R) → R → Option Text × R
run_checks [] r = (none, r)
run_checks (check ∷ checks) r = go_on (check r) (run_checks checks)

unfoldable pub count_block : Text → RiskManager → RiskManager
count_block reason m = record m {
  signals_blocked = m.signals_blocked + 1;
  block_reasons = insert reason (get_or (lookup reason m.block_reasons) 0 + 1) m.block_reasons;
}

module _ {R F : Type 0} ⦃f : Float F⦄ (w : Services R F) where
  unfoldable pub all_checks : Context F → StrategySignal F → List (R → Option Text × R)
  all_checks c g =
      check_kill_switch w c.broker_name
      ∷ check_market_hours w c.now g
      ∷ check_daily_loss_limit w c.broker_name c.cfg
      ∷ check_drawdown w c.broker_name c.cfg
      ∷ check_max_positions w c.broker_name c.cfg c.trading_mode
      ∷ (λ r. (check_capital_per_trade w c.cfg g.suggested_quantity g.suggested_price, r))
      ∷ (λ r. (check_blacklist w c.cfg g, r))
      ∷ check_duplicate_signal w c.cfg g
      ∷ (λ r. (check_position_size w c.cfg g.suggested_quantity, r))
      ∷ check_direction_conflict w g g.direction c.broker_name
      ∷ []

  -- A verdict is counted, and a block published; what publishing raises is dropped.
  unfoldable pub settle : Option Text × R → RiskManager → Bool × RiskManager × R
  settle (none, r) m = (true, record m { signals_approved = m.signals_approved + 1 }, r)
  settle (some reason, r) m = (false, count_block reason m, w.publish reason r)

  unfoldable pub approve_signal :
      Context F → StrategySignal F → RiskManager → R → Bool × RiskManager × R
  approve_signal c g m r = settle (run_checks (all_checks c g) r) m

  unfoldable pub arm_kill_switch : Text → Act R (Unit {0})
  arm_kill_switch broker_name = set_kill_switch w.redis broker_name true

  unfoldable pub disarm_kill_switch : Text → Act R (Unit {0})
  disarm_kill_switch broker_name = set_kill_switch w.redis broker_name false

  unfoldable pub arm_global_kill_switch : Act R (Unit {0})
  arm_global_kill_switch = set_global_kill_switch w.redis true

  unfoldable pub disarm_global_kill_switch : Act R (Unit {0})
  disarm_global_kill_switch = set_global_kill_switch w.redis false

  -- Signals one after the other, each in its context.
  unfoldable pub judge : List (Context F × StrategySignal F) → RiskManager → R → RiskManager × R
  judge [] m r = (m, r)
  judge ((c, g) ∷ rest) m r = let (approved, m', r') = approve_signal c g m r in judge rest m' r'
