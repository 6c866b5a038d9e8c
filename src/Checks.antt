-- ===== src/Checks.antt =====
-- strategies/risk_manager.py, the ten checks, and utils/time_utils.py, `is_market_open`. A check gives
-- the reason to block a signal, or none. What a check raises it logs, and lets the signal pass.
use nexa_trade.Prelude.{
  ℕ, ◌+◌, ◌*◌, Bool, true, false, not, ◌&&◌, ◌++◌, Option, none, some, List, [], ◌∷◌, map, leb,
  get_or, if◌then◌else◌,
}
use nexa_trade.Prelude.Int.{ℤ, pos, ltb_ℤ, leb_ℤ, eqb_ℤ}
use nexa_trade.Text.{Text, codes, upper, in_list}
use nexa_trade.Float.{Float, ◌⊖◌, ◌⊗◌, ◌⊘◌, nought, hundred, truthy, abs_f}
use nexa_trade.Outcome.{Outcome, ok, raised}
use nexa_trade.Models.Enums.{SignalDirection, exchange_text}
use nexa_trade.Models.Signal.{StrategySignal}
use nexa_trade.Redis.{
  Act, RedisClient, answer, ◌>>=◌, ◌>>◌, get, set, get_daily_pnl, get_position, set_kill_switch,
  is_kill_switch_active, is_global_kill_switch_active,
}

-- A time of day in India: the weekday with Monday as 0, and the microseconds since midnight.
pub record Clock : Type 0 where
  pub weekday : ℕ
  pub microsecond : ℕ

abbrev pub minutes : ℕ → ℕ → ℕ
minutes h m = (h * 60 + m) * 60 * 1000000

-- 09:15 to 15:30, Monday to Friday, both ends included.
unfoldable pub is_market_open : Clock → Bool
is_market_open now =
    if leb 5 now.weekday
    then false
    else leb (minutes 9 15) now.microsecond && leb now.microsecond (minutes 15 30)

-- risk_config.yaml, with numbers where the code converts to numbers: a key that is not there takes
-- its default.
pub record RiskConfig (F : Type 0) : Type 0 where
  pub daily_loss_limit : Option F
  pub max_drawdown_pct : Option F
  pub max_open_positions : Option ℤ
  pub total_capital : Option F
  pub max_capital_per_trade_pct : Option F
  pub symbols : Option (List Text)
  pub exchanges : Option (List Text)
  pub max_position_size : Option ℤ
  pub signal_ttl_seconds : Option ℕ

-- What the checks reach outside: Redis, the rows of PostgreSQL that they read (the drawdown of the
-- latest snapshot, 0.0 where it has none, and the number of open positions), and the formatting of
-- numbers and times in a reason.
pub record Services (R F : Type 0) : Type 0 where
  pub redis : RedisClient R F
  pub latest_drawdown : Text → Act R (Option F)
  pub count_positions : Text → Text → Act R ℕ
  pub show_float : F → Text
  pub show_int : ℤ → Text
  pub show_clock : Clock → Text
  pub publish : Text → R → R

abbrev pub direction_text : SignalDirection → Text
direction_text SignalDirection.buy = codes "BUY"
direction_text SignalDirection.sell = codes "SELL"
direction_text SignalDirection.hold = codes "HOLD"
direction_text SignalDirection.exit = codes "EXIT"
direction_text SignalDirection.none_ = codes "NONE"

abbrev pub is_exit : SignalDirection → Bool
is_exit SignalDirection.exit = true
is_exit _ = false

abbrev pub block_if : Bool → Text → Option Text
block_if b reason = if b then some reason else none

-- `try: ... except Exception: (log)`, then `return True, ""`.
abbrev pub attempt : {R : Type 0} → Outcome (Option Text) × R → Option Text × R
attempt (ok verdict, r) = (verdict, r)
attempt (raised e, r) = (none, r)

module _ {R F : Type 0} ⦃f : Float F⦄ (w : Services R F) where
  unfoldable pub check_kill_switch : Text → R → Option Text × R
  check_kill_switch broker_name r = attempt (
      (is_global_kill_switch_active w.redis >>= λ global_ks.
      if global_ks
      then answer (some (codes "global_kill_switch_active"))
      else (is_kill_switch_active w.redis broker_name >>= λ broker_ks.
          answer (block_if broker_ks (codes "broker_kill_switch_active:" ++ broker_name))))
        r)

  unfoldable pub check_market_hours : Clock → StrategySignal F → R → Option Text × R
  check_market_hours now g r =
      if is_exit g.direction
      then (none, r)
      else (block_if (not (is_market_open now)) (codes "market_closed:" ++ w.show_clock now), r)

  -- A breach arms the kill switch of the broker.
  unfoldable pub is_breached : RiskConfig F → F → Bool
  is_breached cfg pnl = f.le pnl (nought ⊖ abs_f (get_or cfg.daily_loss_limit (f.decimal 10000 0)))

  unfoldable pub check_daily_loss_limit : Text → RiskConfig F → R → Option Text × R
  check_daily_loss_limit broker_name cfg r = attempt (
      (get_daily_pnl w.redis broker_name >>= λ daily_pnl.
      if is_breached cfg daily_pnl
      then (set_kill_switch w.redis broker_name true
          >> answer (some (codes "daily_loss_limit_breached:pnl=" ++ w.show_float daily_pnl)))
      else answer none)
        r)

  abbrev pub drawdown_verdict : RiskConfig F → Option F → Option Text
  drawdown_verdict cfg none = none
  drawdown_verdict cfg (some current_dd) =
      block_if (f.le (get_or cfg.max_drawdown_pct (f.decimal 5 0)) current_dd)
        (codes "max_drawdown_breached:drawdown=" ++ (w.show_float current_dd ++ codes "%"))

  unfoldable pub check_drawdown : Text → RiskConfig F → R → Option Text × R
  check_drawdown broker_name cfg r =
      attempt ((w.latest_drawdown broker_name >>= λ dd. answer (drawdown_verdict cfg dd)) r)

  unfoldable pub check_max_positions : Text → RiskConfig F → Text → R → Option Text × R
  check_max_positions broker_name cfg trading_mode r = attempt (
      (w.count_positions broker_name trading_mode >>= λ n. answer (
          block_if (leb_ℤ (get_or cfg.max_open_positions (pos 10)) (pos n))
            (codes "max_positions_reached:" ++ w.show_int (pos n))))
        r)

  -- `signal.suggested_quantity and signal.suggested_price`, and their product above the limit.
  abbrev pub max_trade_value : RiskConfig F → F
  max_trade_value cfg =
      get_or cfg.total_capital (f.decimal 1000000 0)
      ⊗ (get_or cfg.max_capital_per_trade_pct (f.decimal 10 0) ⊘ hundred)

  unfoldable pub check_capital_per_trade : RiskConfig F → Option ℤ → Option F → Option Text
  check_capital_per_trade cfg (some quantity) (some price) =
      let trade_value = f.of_ℤ quantity ⊗ price in
      block_if
        (not (eqb_ℤ quantity (pos 0)) && (truthy price && f.lt (max_trade_value cfg) trade_value))
        (codes "capital_per_trade_exceeded:value="
          ++ (w.show_float trade_value ++ (codes ":limit=" ++ w.show_float (max_trade_value cfg))))
  check_capital_per_trade cfg _ _ = none

  unfoldable pub check_blacklist : RiskConfig F → StrategySignal F → Option Text
  check_blacklist cfg g =
      if in_list (upper g.symbol) (map upper (get_or cfg.symbols []))
      then some (codes "symbol_blacklisted:" ++ g.symbol)
      else block_if
          (in_list (upper (exchange_text g.exchange)) (map upper (get_or cfg.exchanges [])))
          (codes "exchange_blacklisted:" ++ exchange_text g.exchange)

  abbrev pub is_seen : Option Text → Bool
  is_seen none = false
  is_seen (some []) = false
  is_seen (some (c ∷ t)) = true

  abbrev pub signal_key : StrategySignal F → Text
  signal_key g =
      g.strategy_name ++ (codes ":" ++ (g.symbol ++ (codes ":" ++ direction_text g.direction)))

  unfoldable pub check_duplicate_signal : RiskConfig F → StrategySignal F → R → Option Text × R
  check_duplicate_signal cfg g r = attempt (
      (get w.redis (codes "dedup:" ++ signal_key g) >>= λ existing.
      if is_seen existing
      then answer (some (codes "duplicate_signal:" ++ signal_key g))
      else (set w.redis (codes "dedup:" ++ signal_key g) (codes "1")
            (some (get_or cfg.signal_ttl_seconds 300))
          >> answer none))
        r)

  unfoldable pub check_position_size : RiskConfig F → Option ℤ → Option Text
  check_position_size cfg none = none
  check_position_size cfg (some quantity) =
      let max_size = get_or cfg.max_position_size (pos 500) in
      block_if (not (eqb_ℤ quantity (pos 0)) && ltb_ℤ max_size quantity) (
        codes "position_size_exceeded:qty="
        ++ (w.show_int quantity ++ (codes ":limit=" ++ w.show_int max_size)))

  abbrev pub conflict : StrategySignal F → SignalDirection → Option ℤ → Option Text
  conflict g direction none = none
  conflict g SignalDirection.buy (some qty) =
      block_if (ltb_ℤ (pos 0) qty)
        (codes "already_long:" ++ (g.symbol ++ (codes ":qty=" ++ w.show_int qty)))
  conflict g SignalDirection.sell (some qty) =
      block_if (ltb_ℤ qty (pos 0))
        (codes "already_short:" ++ (g.symbol ++ (codes ":qty=" ++ w.show_int qty)))
  conflict g direction (some qty) = none

  unfoldable pub check_direction_conflict :
      StrategySignal F → SignalDirection → Text → R → Option Text × R
  check_direction_conflict g SignalDirection.hold broker_name r =
      (some (codes "hold_signal_not_executable"), r)
  check_direction_conflict g SignalDirection.exit broker_name r = (none, r)
  check_direction_conflict g direction broker_name r =
      attempt
        ((get_position w.redis broker_name g.symbol >>= λ q. answer (conflict g direction q)) r)
