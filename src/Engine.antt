-- ===== src/Engine.antt =====
-- strategies/strategy_engine.py, class StrategyEngine: its state, the way of a signal to the broker, and
-- the end of a strategy. A plugin's methods are parameters, with the
-- signals that they emit in order: `emit_signal` hands nothing back, and what is raised in it is
-- dropped. What happens outside (Redis, PostgreSQL, the broker, the clock) is one state. Importing the
-- plugin files and copying the registry to PostgreSQL are left out.
pub mod Signals
use nexa_trade.Prelude.{
  ℕ, ◌+◌, Bool, true, false, ◌&&◌, ◌||◌, Option, none, some, List, [], ◌∷◌, map, get_or, leb,
  if◌then◌else◌,
}
use nexa_trade.Text.{Text, text_eq}
use nexa_trade.Dict.{Dict, lookup, contains, insert, erase}
use nexa_trade.Float.{Float, nought}
use nexa_trade.Outcome.{Outcome, ok, raised, value_error}
use nexa_trade.Models.Order.{OrderRequest, OrderResponse}
use nexa_trade.Models.Signal.{StrategySignal}
use nexa_trade.Backtest.Strategy.{Reaction}
use nexa_trade.Checks.{Services}
use nexa_trade.Risk.{RiskManager, Context, approve_signal}
use nexa_trade.Requests.{signal_to_order_request}

-- An instance of a strategy: what the engine sets and counts, and the plugin's own state.
pub record Instance (S V F : Type 0) : Type 0 where
  pub parameters : Dict V
  pub instruments : List (Dict Text)
  pub capital : F
  pub is_running : Bool
  pub order_count : ℕ
  pub own : S

-- A class of strategies: its defaults and its methods.
pub record Plugin (S V F : Type 0) : Type 0 where
  pub default_parameters : Dict V
  pub default_instruments : List (Dict Text)
  pub initial : S
  pub on_start : Instance S V F → Reaction (Instance S V F) F
  pub on_stop : Instance S V F → Reaction (Instance S V F) F
  pub on_error : Instance S V F → Reaction (Instance S V F) F
  pub on_order_update : OrderResponse F → Instance S V F → Reaction (Instance S V F) F

-- An entry of `_active`: the instance with its class.
pub record Active (S V F : Type 0) : Type 0 where
  pub plugin : Plugin S V F
  pub instance_ : Instance S V F

pub record StrategyEngine (S V F : Type 0) : Type 0 where
  pub registry : Dict (Plugin S V F)
  pub active : Dict (Active S V F)
  pub order_strategy_map : Dict Text
  pub error_counts : Dict ℕ
  pub is_running : Bool
  pub risk_mgr : RiskManager

-- What the engine calls. What the writes to PostgreSQL and Redis raise is dropped.
pub record Outside (R F : Type 0) : Type 0 where
  pub services : Services R F
  -- the active broker, the settings and the time
  pub context : R → Context F
  pub new_order_id : R → Text × R
  pub place_order : OrderRequest F → R → Outcome (OrderResponse F) × R
  pub insert_order : OrderRequest F → OrderResponse F → Text → R → R
  pub publish_placed : OrderRequest F → OrderResponse F → StrategySignal F → R → R
  pub update_order_status : OrderResponse F → R → R
  pub publish_updated : OrderResponse F → Option Text → R → R
  pub set_strategy_active : Text → Bool → R → R

-- `MAX_STRATEGY_ERRORS`
abbrev pub max_strategy_errors : ℕ
max_strategy_errors = 5

-- `dict.update`
unfoldable pub update {ℓ} : {V : Type ℓ} → Dict V → Dict V → Dict V
update d [] = d
update d ((k, v) ∷ more) = update (insert k v d) more

-- `del` of every order of a strategy
unfoldable pub orphan : Text → Dict Text → Dict Text
orphan strategy_name [] = []
orphan strategy_name ((order_id, owner) ∷ orders) =
    let rest = orphan strategy_name orders in
    if text_eq owner strategy_name then rest else (order_id, owner) ∷ rest

-- `if text:`
abbrev pub is_text : Text → Bool
is_text [] = false
is_text (c ∷ t) = true

abbrev pub is_text? : Option Text → Bool
is_text? none = false
is_text? (some t) = is_text t

module _ {S V F : Type 0} where
  -- `strategy_class()` with what `activate_strategy` sets; an empty argument sets nothing.
  unfoldable pub new_instance : Plugin S V F → Dict V → List (Dict Text) → F → Instance S V F
  new_instance plugin parameters instruments capital = record {
    parameters = update plugin.default_parameters parameters;
    instruments = elim instruments [ [] ↦ plugin.default_instruments | i ∷ is ↦ i ∷ is ];
    capital = capital;
    is_running = false;
    order_count = 0;
    own = plugin.initial;
  }

  -- The instance of an active strategy, changed.
  unfoldable pub with_found :
      Text
      → (Instance S V F → Instance S V F)
      → Option (Active S V F)
      → Dict (Active S V F)
      → Dict (Active S V F)
  with_found strategy_name change none active = active
  with_found strategy_name change (some a) active =
      insert strategy_name (record a { instance_ = change a.instance_ }) active

  abbrev pub with_instance :
      Text → (Instance S V F → Instance S V F) → Dict (Active S V F) → Dict (Active S V F)
  with_instance strategy_name change active =
      with_found strategy_name change (lookup strategy_name active) active

  abbrev pub count_order : Instance S V F → Instance S V F
  count_order i = record i { order_count = i.order_count + 1 }

module _ {R S V F : Type 0} ⦃f : Float F⦄ (w : Outside R F) where
  -- `_process_signal` once the broker has answered: the order is routed to the strategy.
  unfoldable pub placed :
      OrderRequest F
      → OrderResponse F
      → StrategySignal F
      → Text
      → StrategyEngine S V F × R
      → StrategyEngine S V F × R
  placed o response g strategy_name (e, r) = (
    record e {
      order_strategy_map =
          if is_text? response.broker_order_id || is_text response.order_id
          then insert response.order_id strategy_name e.order_strategy_map
          else e.order_strategy_map;
      active = with_instance strategy_name count_order e.active;
    },
    w.publish_placed o response g (w.insert_order o response strategy_name r),
  )

  -- What `place_order` raises is logged, and ends the signal.
  unfoldable pub answered :
      Outcome (OrderResponse F)
      → OrderRequest F
      → StrategySignal F
      → Text
      → StrategyEngine S V F × R
      → StrategyEngine S V F × R
  answered (raised x) o g strategy_name x' = x'
  answered (ok response) o g strategy_name x' = placed o response g strategy_name x'

  -- The order of a signal, if it has one, goes to the broker. What raises ends the signal.
  unfoldable pub place :
      Outcome (Option (OrderRequest F))
      → StrategySignal F
      → Text
      → StrategyEngine S V F × R
      → StrategyEngine S V F × R
  place (raised x) g strategy_name (e, r) = (e, r)
  place (ok none) g strategy_name (e, r) = (e, r)
  place (ok (some o)) g strategy_name (e, r) =
      let (answer, r') = w.place_order o r in answered answer o g strategy_name (e, r')

  unfoldable pub process_signal :
      StrategySignal F → Text → StrategyEngine S V F × R → StrategyEngine S V F × R
  process_signal g strategy_name (e, r) =
      let c = w.context r in
      let (approved, risk_mgr, r') = approve_signal w.services c g e.risk_mgr r in
      let e' : StrategyEngine S V F = record e { risk_mgr = risk_mgr } in
      let (order_id, r'') = w.new_order_id r' in
      if approved
      then place (signal_to_order_request c g strategy_name order_id) g strategy_name (e', r'')
      else (e', r')

  unfoldable pub process_signals :
      List (StrategySignal F) → Text → StrategyEngine S V F × R → StrategyEngine S V F × R
  process_signals [] strategy_name x = x
  process_signals (g ∷ gs) strategy_name x =
      process_signals gs strategy_name (process_signal g strategy_name x)

  -- A method of an active strategy ran: its instance is changed, and its signals are processed.
  unfoldable pub after_method :
      Text → Reaction (Instance S V F) F → StrategyEngine S V F × R → StrategyEngine S V F × R
  after_method strategy_name reaction (e, r) =
      process_signals reaction.signals strategy_name
        (record e { active = with_instance strategy_name (λ _. reaction.state) e.active }, r)

  -- `deactivate_strategy`, of an active one: `on_stop`, whose exception is logged, then out it goes.
  unfoldable pub remove_strategy : Text → StrategyEngine S V F × R → StrategyEngine S V F × R
  remove_strategy strategy_name (e, r) = (
    record e {
      active = erase strategy_name e.active;
      order_strategy_map = orphan strategy_name e.order_strategy_map;
    },
    w.set_strategy_active strategy_name false r,
  )

  unfoldable pub deactivate_found :
      Text → Option (Active S V F) → StrategyEngine S V F × R → Bool × (StrategyEngine S V F × R)
  deactivate_found strategy_name none x = (false, x)
  deactivate_found strategy_name (some a) x = (
    true,
    remove_strategy strategy_name (after_method strategy_name (a.plugin.on_stop a.instance_) x),
  )

  unfoldable pub deactivate_strategy :
      Text → StrategyEngine S V F × R → Bool × (StrategyEngine S V F × R)
  deactivate_strategy strategy_name (e, r) =
      deactivate_found strategy_name (lookup strategy_name e.active) (e, r)
