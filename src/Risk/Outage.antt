-- ===== src/Risk/Outage.antt =====
-- The risk manager while its stores are down.
use nexa_trade.Prelude.{◌+◌, ◌++◌, ◌≡◌, ◌≢◌, ◌⊎◌, refl, true, false, none}
use nexa_trade.Text.{Text, codes}
use nexa_trade.Float.{Float}
use nexa_trade.Outcome.{raised, Error}
use nexa_trade.Models.Enums.{SignalDirection}
use nexa_trade.Models.Signal.{StrategySignal}
use nexa_trade.Redis.{◌>>=◌, ◌>>◌, get, is_global_kill_switch_active, get_daily_pnl, get_position}
use nexa_trade.Risk.Approval.{check_market_hours-open}
use nexa_trade.Checks.{
  is_exit, is_market_open, Services, signal_key, check_kill_switch, check_daily_loss_limit,
  check_drawdown, check_max_positions, check_capital_per_trade, check_blacklist,
  check_duplicate_signal, check_position_size, check_direction_conflict,
}
use nexa_trade.Risk.{RiskManager, Context, go_on, run_checks, all_checks, settle, approve_signal}

module _ {R F : Type 0} ⦃f : Float F⦄ (w : Services R F) where
  -- Redis was never initialised, and the reads of PostgreSQL raise.
  pub record IsDown : Type 0 where
    pub no_redis : w.redis.is_initialised ≡ false
    pub error : Error
    pub no_drawdown : (b : Text) (r : R) → w.latest_drawdown b r ≡ (raised error, r)
    pub no_count : (b mode : Text) (r : R) → w.count_positions b mode r ≡ (raised error, r)

  module _ (down : IsDown) where
    open down use {no_redis, error, no_drawdown, no_count}

    get_raises : (key : Text) (r : R) → get w.redis key r ≡ (raised Error.backend_error, r)
    unfolding get ◌>>◌
    get_raises key r = rw no_redis refl

    check_kill_switch-down : (b : Text) (r : R) → check_kill_switch w b r ≡ (none, r)
    unfolding check_kill_switch is_global_kill_switch_active ◌>>=◌
    check_kill_switch-down b r = rw (get_raises (codes "ks:global") r) refl

    check_daily_loss_limit-down :
        (c : Context F) (r : R) → check_daily_loss_limit w c.broker_name c.cfg r ≡ (none, r)
    unfolding check_daily_loss_limit get_daily_pnl ◌>>=◌
    check_daily_loss_limit-down c r = rw (get_raises (codes "pnl:daily:" ++ c.broker_name) r) refl

    check_drawdown-down :
        (c : Context F) (r : R) → check_drawdown w c.broker_name c.cfg r ≡ (none, r)
    unfolding check_drawdown ◌>>=◌
    check_drawdown-down c r = rw (no_drawdown c.broker_name r) refl

    check_max_positions-down :
        (c : Context F) (r : R)
        → check_max_positions w c.broker_name c.cfg c.trading_mode r ≡ (none, r)
    unfolding check_max_positions ◌>>=◌
    check_max_positions-down c r = rw (no_count c.broker_name c.trading_mode r) refl

    check_duplicate_signal-down :
        (c : Context F) (g : StrategySignal F) (r : R)
        → check_duplicate_signal w c.cfg g r ≡ (none, r)
    unfolding check_duplicate_signal ◌>>=◌
    check_duplicate_signal-down c g r = rw (get_raises (codes "dedup:" ++ signal_key w g) r) refl

    check_direction_conflict-down :
        (g : StrategySignal F) (d : SignalDirection) (b : Text) (r : R)
        → d ≢ SignalDirection.hold
        → check_direction_conflict w g d b r ≡ (none, r)
    unfolding check_direction_conflict get_position ◌>>=◌
    check_direction_conflict-down g SignalDirection.hold b r h = absurd (h refl)
    check_direction_conflict-down g SignalDirection.exit b r h = refl
    check_direction_conflict-down g SignalDirection.buy b r h = rw (get_raises _ r) refl
    check_direction_conflict-down g SignalDirection.sell b r h = rw (get_raises _ r) refl
    check_direction_conflict-down g SignalDirection.none_ b r h = rw (get_raises _ r) refl

    -- While Redis was never initialised and the reads of PostgreSQL raise, the risk manager fails open:
    -- a signal that is no HOLD, that is an EXIT or comes in market hours, and that passes the checks of
    -- the capital, the blacklist and the size is approved, whatever kill switch was armed and whatever
    -- was lost.
    pub approve_signal-down :
        (c : Context F) (g : StrategySignal F) (m : RiskManager) (r : R)
        → (is_exit g.direction ≡ true) ⊎ (is_market_open c.now ≡ true)
        → check_capital_per_trade w c.cfg g.suggested_quantity g.suggested_price ≡ none
        → check_blacklist w c.cfg g ≡ none
        → check_position_size w c.cfg g.suggested_quantity ≡ none
        → g.direction ≢ SignalDirection.hold
        → approve_signal w c g m r
          ≡ (true, record m { signals_approved = m.signals_approved + 1 }, r)
    unfolding approve_signal all_checks run_checks go_on settle
    approve_signal-down c g m r hours capital black size direction =
        rw
          (
            check_kill_switch-down c.broker_name r,
            check_market_hours-open w c.now g r hours,
            check_daily_loss_limit-down c r,
            check_drawdown-down c r,
            check_max_positions-down c r,
            capital,
            black,
            check_duplicate_signal-down c g r,
            size,
            check_direction_conflict-down g g.direction c.broker_name r direction,
          )
          refl
