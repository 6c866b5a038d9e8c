-- ===== src/Lifecycle.antt =====
-- strategies/strategy_engine.py, class StrategyEngine: the strategies' life cycle, the way of an order
-- update back to its strategy, and the strategies' errors.
pub mod Routing
pub mod Errors
pub mod Health
pub mod Fifth
use nexa_trade.Prelude.{
  ℕ, ◌+◌, Bool, true, false, ◌&&◌, Option, none, some, List, [], ◌∷◌, map, get_or, leb,
  if◌then◌else◌,
}
use nexa_trade.Text.{Text, text_eq}
use nexa_trade.Dict.{Dict, lookup, contains, insert}
use nexa_trade.Float.{Float, nought}
use nexa_trade.Outcome.{Outcome, ok, raised, value_error}
use nexa_trade.Models.Order.{OrderResponse}
use nexa_trade.Backtest.Strategy.{Reaction}
use nexa_trade.Engine.{
  Instance, Plugin, Active, StrategyEngine, Outside, max_strategy_errors, is_text, new_instance,
  process_signals, after_method, deactivate_strategy,
}

module _ {S V F : Type 0} where
  -- An error of a strategy is counted.
  unfoldable pub count_error : Text → StrategyEngine S V F → StrategyEngine S V F
  count_error strategy_name e = record e {
    error_counts =
        insert strategy_name (get_or (lookup strategy_name e.error_counts) 0 + 1) e.error_counts;
  }

module _ {R S V F : Type 0} ⦃f : Float F⦄ (w : Outside R F) where
  -- `activate_strategy` of a class that is not active. Without an exception of `on_start` the strategy
  -- is active, with no errors; with one it hears of it in `on_error` and is not.
  unfoldable pub start_instance :
      Text
      → Plugin S V F
      → Reaction (Instance S V F) F
      → StrategyEngine S V F × R
      → Outcome Bool × (StrategyEngine S V F × R)
  start_instance strategy_name plugin started x =
      let (e, r) = process_signals w started.signals strategy_name x in
      let failed = plugin.on_error started.state in
      let after_error = process_signals w failed.signals strategy_name (e, r) in
      if started.has_raised then (ok false, after_error) else (
        ok true,
        (
          record e {
            active =
                insert strategy_name
                  (record {
                    plugin = plugin;
                    instance_ = record started.state { is_running = true };
                  })
                  e.active;
            error_counts = insert strategy_name 0 e.error_counts;
          },
          w.set_strategy_active strategy_name true r,
        ),
      )

  unfoldable pub activate_class :
      Text
      → Option (Plugin S V F)
      → Dict V
      → List (Dict Text)
      → F
      → StrategyEngine S V F × R
      → Outcome Bool × (StrategyEngine S V F × R)
  activate_class strategy_name none parameters instruments capital (e, r) =
      (raised value_error, (e, r))
  activate_class strategy_name (some plugin) parameters instruments capital (e, r) =
      let started = plugin.on_start (new_instance plugin parameters instruments capital) in
      if contains strategy_name e.active
      then (ok true, (e, r))
      else start_instance strategy_name plugin started (e, r)

  unfoldable pub activate_strategy :
      Text
      → Dict V
      → List (Dict Text)
      → F
      → StrategyEngine S V F × R
      → Outcome Bool × (StrategyEngine S V F × R)
  activate_strategy strategy_name parameters instruments capital (e, r) =
      activate_class strategy_name (lookup strategy_name e.registry) parameters instruments capital
        (e, r)

  -- `restart_strategy`: with the parameters, instruments and capital of the active instance, if any.
  unfoldable pub restart_with :
      Text
      → Option (Active S V F)
      → StrategyEngine S V F × R
      → Outcome Bool × (StrategyEngine S V F × R)
  restart_with strategy_name none x =
      activate_strategy strategy_name [] [] nought (deactivate_strategy w strategy_name x).1
  restart_with strategy_name (some a) x =
      activate_strategy strategy_name a.instance_.parameters a.instance_.instruments
        a.instance_.capital (deactivate_strategy w strategy_name x).1

  unfoldable pub restart_strategy :
      Text → StrategyEngine S V F × R → Outcome Bool × (StrategyEngine S V F × R)
  restart_strategy strategy_name (e, r) =
      restart_with strategy_name (lookup strategy_name e.active) (e, r)

  -- `_safe_error`, of an active strategy
  unfoldable pub safe_error :
      Text → Option (Active S V F) → StrategyEngine S V F × R → StrategyEngine S V F × R
  safe_error strategy_name none x = x
  safe_error strategy_name (some a) x =
      after_method w strategy_name (a.plugin.on_error a.instance_) x

  -- `_handle_strategy_error`: counted, told to the strategy, and with the fifth the strategy goes.
  unfoldable pub handle_strategy_error : Text → StrategyEngine S V F × R → StrategyEngine S V F × R
  handle_strategy_error strategy_name (e, r) =
      let counted = count_error strategy_name e in
      let told = safe_error strategy_name (lookup strategy_name e.active) (counted, r) in
      if leb max_strategy_errors (get_or (lookup strategy_name counted.error_counts) 0)
      then (deactivate_strategy w strategy_name told).1
      else told

  -- `_on_order_update`: to the strategy of the order, if that is active.
  unfoldable pub inform :
      Text
      → Option (Active S V F)
      → OrderResponse F
      → StrategyEngine S V F × R
      → StrategyEngine S V F × R
  inform strategy_name none response x = x
  inform strategy_name (some a) response x =
      let reaction = a.plugin.on_order_update response a.instance_ in
      let informed = after_method w strategy_name reaction x in
      if reaction.has_raised then handle_strategy_error strategy_name informed else informed

  unfoldable pub route :
      Option Text → OrderResponse F → StrategyEngine S V F × R → StrategyEngine S V F × R
  route none response x = x
  route (some []) response x = x
  route (some (c ∷ t)) response (e, r) = inform (c ∷ t) (lookup (c ∷ t) e.active) response (e, r)

  unfoldable pub on_order_update :
      OrderResponse F → StrategyEngine S V F × R → StrategyEngine S V F × R
  on_order_update response (e, r) =
      let owner = lookup response.order_id e.order_strategy_map in
      let (e', r') = route owner response (e, w.update_order_status response r) in
      (e', w.publish_updated response owner r')

  -- `stop`: every active strategy is deactivated.
  unfoldable pub deactivate_all : List Text → StrategyEngine S V F × R → StrategyEngine S V F × R
  deactivate_all [] x = x
  deactivate_all (name ∷ names) x = deactivate_all names (deactivate_strategy w name x).1

  unfoldable pub stop : StrategyEngine S V F × R → StrategyEngine S V F × R
  stop (e, r) =
      let (e', r') =
        deactivate_all (map (λ (x : Text × Active S V F). x.0) e.active)
          (record e { is_running = false }, r) in
      (record e' { active = []; order_strategy_map = [] }, r')

  -- `_auto_activate_from_db` on the records that PostgreSQL has; the first exception ends it.
  unfoldable pub auto_activate :
      List (Text × Dict V) → StrategyEngine S V F × R → StrategyEngine S V F × R
  auto_activate [] x = x
  auto_activate ((name, parameters) ∷ records) x = auto_activate records (
      if is_text name && contains name x.0.registry
      then (activate_strategy name parameters [] nought x).1
      else x)

module _ {S V F : Type 0} where
  unfoldable pub get_strategy_instance : Text → StrategyEngine S V F → Option (Instance S V F)
  get_strategy_instance strategy_name e = elim (lookup strategy_name e.active) [
    | none ↦ none
    | some a ↦ some a.instance_
  ]

  -- `get_registered_strategies`: the names, and which are active
  unfoldable pub get_registered_strategies : StrategyEngine S V F → List (Text × Bool)
  get_registered_strategies e =
      map (λ (x : Text × Plugin S V F). (x.0, contains x.0 e.active)) e.registry
