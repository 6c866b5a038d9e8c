-- ===== src/Tests/Engine.antt =====
-- The strategy engine with one plugin, on concrete signals and updates.
use nexa_trade.Prelude.{ℕ, ◌+◌, ◌≡◌, refl, true, false, none, some, List, [], ◌∷◌, arith, length}
use nexa_trade.Prelude.Int.{pos, ◌*ℤ◌, ◌-ℤ◌}
use nexa_trade.Text.{Text, codes, text_eq, in_list}
use nexa_trade.Dict.{Dict, lookup, insert}
use nexa_trade.Outcome.{ok}
use nexa_trade.Float.Fixed.{Fixed, fixed_float}
use nexa_trade.Models.Enums.{OrderStatus, TradingMode, TransactionType}
use nexa_trade.Models.Symbol.{normalise_symbol}
use nexa_trade.Models.Order.{OrderRequest, OrderResponse, create}
use nexa_trade.Backtest.Strategy.{Reaction}
use nexa_trade.Redis.{
  ◌>>=◌, ◌>>◌, get, set, get_daily_pnl, get_position, is_kill_switch_active,
  is_global_kill_switch_active,
}
use nexa_trade.Checks.{
  is_market_open, is_breached, check_kill_switch, check_market_hours, check_daily_loss_limit,
  check_drawdown, check_max_positions, check_capital_per_trade, check_blacklist,
  check_duplicate_signal, check_position_size, check_direction_conflict,
}
use nexa_trade.Risk.{reset_stats, go_on, run_checks, all_checks, settle, approve_signal}
use nexa_trade.Requests.{signal_to_order_request, request_of, order_for}
use nexa_trade.Engine.{
  Instance, Plugin, Active, StrategyEngine, Outside, count_order, process_signal, process_signals,
}
use nexa_trade.Engine.Signals.{after_blocks, process_signals-armed}
use nexa_trade.Lifecycle.{inform, on_order_update}
use nexa_trade.Lifecycle.Routing.{process_signal-on_order_update}
use nexa_trade.Lifecycle.Errors.{IsHealthy}
use nexa_trade.Lifecycle.Health.{
  EngineCall, activate, deactivate, restart, signal, update, run_calls, run_calls-IsHealthy,
}
use nexa_trade.Lifecycle.Fifth.{Leaves, on_order_update-Leaves}
use nexa_trade.Tests.Signals.{services, services-IsWorking, context, buy_ten}

abbrev quiet : Instance ℕ Text Fixed → Reaction (Instance ℕ Text Fixed) Fixed
quiet i = record { state = i; signals = []; has_raised = false }

-- Buys when it starts and when it stops, and raises on every update.
abbrev plugin : Plugin ℕ Text Fixed
plugin = record {
  default_parameters = [];
  default_instruments = [];
  initial = 0;
  on_start = λ i. record { state = i; signals = buy_ten ∷ []; has_raised = false };
  on_stop = λ i. record { state = i; signals = buy_ten ∷ []; has_raised = false };
  on_error = quiet;
  on_order_update =
      λ u i. record { state = record i { own = i.own + 1 }; signals = []; has_raised = true };
}

abbrev one_active : Active ℕ Text Fixed
one_active = record {
  plugin = plugin;
  instance_ = record {
    parameters = [];
    instruments = [];
    capital = pos 0;
    is_running = true;
    order_count = 0;
    own = 0;
  };
}

abbrev ema : Text
ema = codes "ema"

abbrev engine : List (Text × Text) → StrategyEngine ℕ Text Fixed
engine orders = record {
  registry = (ema, plugin) ∷ [];
  active = (ema, one_active) ∷ [];
  order_strategy_map = orders;
  error_counts = (ema, 4) ∷ [];
  is_running = true;
  risk_mgr = reset_stats;
}

abbrev response : OrderResponse Fixed
response = record {
  order_id = codes "o1";
  broker_order_id = none;
  status = OrderStatus.open_;
  rejection_reason = none;
  filled_quantity = pos 0;
  average_price = none;
  placed_at = none;
  updated_at = none;
  broker_name = codes "paper";
  trading_mode = TradingMode.paper;
}

abbrev outside : Outside (Dict Text) Fixed
outside = record {
  services = services;
  context = λ r. context;
  new_order_id = λ r. (codes "o1", r);
  place_order = λ o r. (ok response, r);
  insert_order = λ o a name r. r;
  publish_placed = λ o a g r. r;
  update_order_status = λ u r. r;
  publish_updated = λ u name r. r;
  set_strategy_active = λ name on r. r;
}

process_signals-armed_example :
    (reasons : List Text) × (length reasons ≡ 2)
    × (process_signals outside
          (buy_ten ∷ buy_ten ∷ [])
          ema
          (engine [], (codes "ks:paper", codes "1") ∷ [])
        ≡ after_blocks outside reasons (engine [], (codes "ks:paper", codes "1") ∷ []))
unfolding services-IsWorking lookup text_eq
process_signals-armed_example =
    process_signals-armed outside services-IsWorking (buy_ten ∷ buy_ten ∷ []) ema (codes "paper")
      (engine []) ((codes "ks:paper", codes "1") ∷ []) (λ r. refl) refl

calls : List (EngineCall Text Fixed)
calls =
    restart ema
    ∷ signal ema buy_ten
    ∷ update response
    ∷ deactivate ema
    ∷ activate ema [] [] (pos 0)
    ∷ []

engine-IsHealthy : (orders : List (Text × Text)) → IsHealthy (engine orders)
unfolding lookup
engine-IsHealthy orders j h = ground arith

run_calls-IsHealthy_example : IsHealthy (run_calls outside calls (engine [], [])).0
run_calls-IsHealthy_example = run_calls-IsHealthy outside calls (engine []) [] (engine-IsHealthy [])

on_order_update-Leaves_example :
    Leaves outside ema true
      (engine ((codes "o1", ema) ∷ []))
      (on_order_update outside response (engine ((codes "o1", ema) ∷ []), [])).0
unfolding lookup text_eq
on_order_update-Leaves_example =
    on_order_update-Leaves outside ema one_active response (engine ((codes "o1", ema) ∷ [])) [] refl
      refl refl

-- The order that the signal asks for.
abbrev order : OrderRequest Fixed
order = record (request_of context buy_ten ema (codes "o1") TransactionType.buy) {
  symbol = normalise_symbol (codes "INFY");
}

process_signal-on_order_update_example :
    let (e', r') = process_signal outside buy_ten ema (engine [], []) in
    (on_order_update outside response (e', r')).0
    ≡ (inform outside ema
        (some (record one_active { instance_ = count_order one_active.instance_ }))
        response
        (e', r')).0
unfolding approve_signal all_checks run_checks go_on settle check_kill_switch check_market_hours
    check_daily_loss_limit check_drawdown check_max_positions check_capital_per_trade
    check_blacklist check_duplicate_signal check_position_size check_direction_conflict
    is_market_open is_breached get set get_daily_pnl get_position is_kill_switch_active
    is_global_kill_switch_active ◌>>=◌ ◌>>◌ lookup insert text_eq in_list fixed_float ◌*ℤ◌ ◌-ℤ◌
    signal_to_order_request order_for create request_of
process_signal-on_order_update_example =
    process_signal-on_order_update outside buy_ten ema (engine []) [] {o = order}
      {response = response} {a = one_active} refl refl refl refl refl refl response refl
