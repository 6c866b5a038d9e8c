-- ===== src/Tests/Signals.antt =====
-- The risk manager on concrete signals, with a dict for Redis.
use nexa_trade.Prelude.{
  ◌+◌, ◌≡◌, ◌≢◌, ◌⊎◌, refl, true, false, none, some, List, [], ◌∷◌, map, get_or, inl, inr,
  if◌then◌else◌,
}
use nexa_trade.Prelude.Int.{pos, negsuc, ◌*ℤ◌, ◌-ℤ◌}
use nexa_trade.Text.{Text, codes, text_eq, upper, in_list}
use nexa_trade.Dict.{Dict, lookup, insert, lookup-insert}
use nexa_trade.Float.Fixed.{Fixed, fixed_float}
use nexa_trade.Outcome.{Outcome, ok, raised, backend_error}
use nexa_trade.Models.Enums.{SignalDirection, Exchange, Segment, exchange_text, given}
use nexa_trade.Models.Signal.{StrategySignal}
use nexa_trade.Redis.{
  ◌>>=◌, ◌>>◌, get, set, get_daily_pnl, get_position, is_kill_switch_active,
  is_global_kill_switch_active,
}
use nexa_trade.Checks.{
  RiskConfig, Services, is_market_open, is_exit, is_breached, check_kill_switch, check_market_hours,
  check_daily_loss_limit, check_drawdown, check_max_positions, check_capital_per_trade,
  check_blacklist, check_duplicate_signal, check_position_size, check_direction_conflict,
}
use nexa_trade.Risk.{
  Context, reset_stats, go_on, run_checks, all_checks, settle, approve_signal, arm_kill_switch,
  judge,
}
use nexa_trade.Risk.Tally.{IsTallied, seen, judge-IsTallied}
use nexa_trade.Risk.Approval.{WithinSize, WithinCapital, approve_signal_sound}
use nexa_trade.Risk.Outage.{approve_signal-down}
use nexa_trade.Risk.KillSwitch.{IsWorking, arm_kill_switch_blocks, loss_limit_locks}

-- A profit of -20000.00 is the one number that this reader reads; all else is zero.
abbrev read_float : Text → Outcome Fixed
read_float t = ok (if text_eq t (codes "-20000") then negsuc 199999999 else pos 0)

abbrev pub services : Services (Dict Text) Fixed
services = record {
  redis = record {
    is_initialised = true;
    library = record {
      get = λ k r. (ok (lookup k r), r);
      set = λ k v r. (ok tt, insert k v r);
      setex = λ k t v r. (ok tt, insert k v r);
      parse_float = read_float;
      parse_quantity = λ t. none;
    };
  };
  latest_drawdown = λ b r. (ok none, r);
  count_positions = λ b t r. (ok 0, r);
  show_float = λ x. codes "x";
  show_int = λ n. codes "n";
  show_clock = λ c. codes "t";
  publish = λ reason r. r;
}

unfoldable pub services-IsWorking : IsWorking services
services-IsWorking = record {
  view = λ r k. lookup k r;
  initialised = refl;
  get_lem = λ k r. refl;
  written = insert;
  set_lem = λ k v r. refl;
  view-written = λ k v r j. lookup-insert k j v r;
  view-publish = λ reason r j. refl;
}

abbrev config : RiskConfig Fixed
config = record {
  daily_loss_limit = none;
  max_drawdown_pct = none;
  max_open_positions = none;
  total_capital = none;
  max_capital_per_trade_pct = none;
  symbols = none;
  exchanges = none;
  max_position_size = none;
  signal_ttl_seconds = none;
}

-- Monday, 10:00.
abbrev pub context : Context Fixed
context = record {
  cfg = config;
  broker_name = codes "paper";
  trading_mode = codes "paper";
  now = record { weekday = 0; microsecond = 36000000000 };
}

abbrev pub buy_ten : StrategySignal Fixed
buy_ten = record {
  signal_id = codes "S";
  strategy_name = codes "ema";
  symbol = codes "INFY";
  exchange = Exchange.nse;
  segment = given Segment.eq;
  direction = SignalDirection.buy;
  strength = pos 10000;
  suggested_price = some (pos 1000000);
  suggested_quantity = some (pos 10);
  stop_loss_price = none;
  target_price = none;
}

abbrev leave : StrategySignal Fixed
leave = record buy_ten { direction = SignalDirection.exit }

abbrev signals : List (Context Fixed × StrategySignal Fixed)
signals = (context, buy_ten) ∷ (context, leave) ∷ (context, buy_ten) ∷ []

judge-IsTallied_example :
    IsTallied (judge services signals reset_stats []).0
    × (seen (judge services signals reset_stats []).0 ≡ 3)
judge-IsTallied_example = judge-IsTallied services signals []

arm_kill_switch_blocks_example :
    let (done, armed) = arm_kill_switch services (codes "paper") [] in
    let (m, _) = judge services signals reset_stats armed in
    (done ≡ ok tt) × (m.signals_approved ≡ 0) × (m.signals_blocked ≡ 0 + 3)
arm_kill_switch_blocks_example =
    arm_kill_switch_blocks services services-IsWorking (codes "paper") signals reset_stats []
      (refl, (refl, (refl, tt)))

-- Redis with the loss of the day.
abbrev lossy : Dict Text
lossy = (codes "pnl:daily:paper", codes "-20000") ∷ []

loss_limit_locks_example :
    ((judge services ((context, leave) ∷ signals) reset_stats lossy).0.signals_approved ≡ 0)
    × ((judge services ((context, leave) ∷ signals) reset_stats lossy).0.signals_blocked
        ≡ 0 + 1 + 3)
unfolding services-IsWorking lookup text_eq is_breached fixed_float ◌-ℤ◌
loss_limit_locks_example =
    loss_limit_locks services services-IsWorking context leave signals reset_stats lossy
      {pnl = negsuc 199999999} refl refl (inl refl) refl refl (refl, (refl, (refl, tt)))

approve_signal_sound_example :
    ((is_exit SignalDirection.buy ≡ true) ⊎ (is_market_open context.now ≡ true))
    × (SignalDirection.buy ≢ SignalDirection.hold)
    × (in_list (upper (codes "INFY")) (map upper (get_or config.symbols [])) ≡ false)
    × (in_list (upper (exchange_text Exchange.nse)) (map upper (get_or config.exchanges []))
        ≡ false)
    × WithinSize services config (some (pos 10))
    × WithinCapital services config (some (pos 10)) (some (pos 1000000))
unfolding approve_signal all_checks run_checks go_on settle check_kill_switch check_market_hours
    check_daily_loss_limit check_drawdown check_max_positions check_capital_per_trade
    check_blacklist check_duplicate_signal check_position_size check_direction_conflict
    is_market_open is_breached get set get_daily_pnl get_position is_kill_switch_active
    is_global_kill_switch_active ◌>>=◌ ◌>>◌ lookup insert text_eq in_list fixed_float ◌*ℤ◌ ◌-ℤ◌
approve_signal_sound_example = approve_signal_sound services context buy_ten reset_stats [] refl

-- A client that was never initialised, beside a PostgreSQL that is down.
abbrev dark : Services (Dict Text) Fixed
dark = record services {
  redis = record (services.redis) { is_initialised = false };
  latest_drawdown = λ b r. (raised backend_error, r);
  count_positions = λ b t r. (raised backend_error, r);
}

approve_signal-down_example :
    approve_signal dark context buy_ten reset_stats lossy
    ≡ (true, record reset_stats { signals_approved = 1 }, lossy)
unfolding check_capital_per_trade check_blacklist check_position_size is_market_open in_list
    fixed_float ◌*ℤ◌
approve_signal-down_example =
    approve_signal-down dark
      (record {
        no_redis = refl;
        error = backend_error;
        no_drawdown = λ b r. refl;
        no_count = λ b t r. refl;
      })
      context buy_ten reset_stats lossy (inr refl) refl refl refl (λ e. cc)
