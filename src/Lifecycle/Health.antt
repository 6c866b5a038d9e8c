-- ===== src/Lifecycle/Health.antt =====
-- All calls of the engine, in any order, against the count of errors.
use nexa_trade.Prelude.{Bool, true, Option, none, some, List, [], ◌∷◌, if-holds, arith}
use nexa_trade.Text.{Text}
use nexa_trade.Dict.{Dict, lookup, contains, insert, lookup-insert, contains-insert}
use nexa_trade.Float.{Float, nought}
use nexa_trade.Outcome.{Outcome}
use nexa_trade.Models.Order.{OrderResponse}
use nexa_trade.Models.Signal.{StrategySignal}
use nexa_trade.Backtest.Strategy.{Reaction}
use nexa_trade.Engine.{
  Instance, Plugin, Active, StrategyEngine, Outside, new_instance, process_signal, process_signals,
  deactivate_strategy,
}
use nexa_trade.Engine.Signals.{process_signal-Keeps, process_signals-Keeps}
use nexa_trade.Lifecycle.{
  start_instance, activate_class, activate_strategy, restart_with, restart_strategy,
  on_order_update,
}
use nexa_trade.Lifecycle.Errors.{
  IsHealthy, Keeps-IsHealthy, deactivate_strategy-IsHealthy, on_order_update-IsHealthy,
}

pub data EngineCall (V F : Type 0) : Type 0 where
  activate : Text → Dict V → List (Dict Text) → F → EngineCall V F
  deactivate restart : Text → EngineCall V F
  signal : Text → StrategySignal F → EngineCall V F
  update : OrderResponse F → EngineCall V F

module _ {R S V F : Type 0} ⦃f : Float F⦄ (w : Outside R F) where
  abbrev pub run_call : EngineCall V F → StrategyEngine S V F × R → StrategyEngine S V F × R
  run_call (activate name parameters instruments capital) x =
      (activate_strategy w name parameters instruments capital x).1
  run_call (deactivate name) x = (deactivate_strategy w name x).1
  run_call (restart name) x = (restart_strategy w name x).1
  run_call (signal name g) x = process_signal w g name x
  run_call (update response) x = on_order_update w response x

  abbrev pub run_calls : List (EngineCall V F) → StrategyEngine S V F × R → StrategyEngine S V F × R
  run_calls [] x = x
  run_calls (c ∷ cs) x = run_calls cs (run_call c x)

  -- A strategy that is put in has made no error.
  added-IsHealthy :
      (name : Text) (a : Active S V F) (e : StrategyEngine S V F)
      → IsHealthy e
      → IsHealthy (record e {
        active = insert name a e.active;
        error_counts = insert name 0 e.error_counts;
      })
  added-IsHealthy name a e h j active =
      ground (arith, h j, contains-insert name j a e.active, lookup-insert name j 0 e.error_counts)

  start_instance-IsHealthy :
      (name : Text) (plugin : Plugin S V F) (started : Reaction (Instance S V F) F)
      → (e : StrategyEngine S V F) (r : R) → IsHealthy e
      → IsHealthy (start_instance w name plugin started (e, r)).1.0
  unfolding start_instance
  start_instance-IsHealthy name plugin started e r h =
      let x = process_signals w started.signals name (e, r) in
      let failed = plugin.on_error started.state in
      let y = process_signals w failed.signals name x in
      let hx = Keeps-IsHealthy e x.0 (process_signals-Keeps w started.signals name e r) h in
      let hy = Keeps-IsHealthy x.0 y.0 (process_signals-Keeps w failed.signals name x.0 x.1) hx in
      let new : Active S V F = record {
        plugin = plugin;
        instance_ = record started.state { is_running = true };
      } in
      if-holds (λ (o : Outcome Bool × (StrategyEngine S V F × R)). IsHealthy o.1.0)
        started.has_raised _ _ hy (added-IsHealthy name new x.0 hx)

  activate_class-IsHealthy :
      (name : Text) (class : Option (Plugin S V F)) (parameters : Dict V)
      → (instruments : List (Dict Text)) (capital : F) (e : StrategyEngine S V F) (r : R)
      → IsHealthy e
      → IsHealthy (activate_class w name class parameters instruments capital (e, r)).1.0
  unfolding activate_class
  activate_class-IsHealthy name none parameters instruments capital e r h = h
  activate_class-IsHealthy name (some plugin) parameters instruments capital e r h =
      let started = plugin.on_start (new_instance plugin parameters instruments capital) in
      if-holds (λ (o : Outcome Bool × (StrategyEngine S V F × R)). IsHealthy o.1.0)
        (contains name e.active) _ _ h (start_instance-IsHealthy name plugin started e r h)

  activate_strategy-IsHealthy :
      (name : Text) (parameters : Dict V) (instruments : List (Dict Text)) (capital : F)
      → (e : StrategyEngine S V F) (r : R) → IsHealthy e
      → IsHealthy (activate_strategy w name parameters instruments capital (e, r)).1.0
  unfolding activate_strategy
  activate_strategy-IsHealthy name parameters instruments capital e r h =
      activate_class-IsHealthy name (lookup name e.registry) parameters instruments capital e r h

  restart_with-IsHealthy :
      (name : Text) (found : Option (Active S V F)) (e : StrategyEngine S V F) (r : R)
      → IsHealthy e
      → IsHealthy (restart_with w name found (e, r)).1.0
  unfolding restart_with
  restart_with-IsHealthy name none e r h =
      let x = (deactivate_strategy w name (e, r)).1 in
      activate_strategy-IsHealthy name [] [] nought x.0 x.1
        (deactivate_strategy-IsHealthy w name e r (λ j _. h j))
  restart_with-IsHealthy name (some a) e r h =
      let x = (deactivate_strategy w name (e, r)).1 in
      let i = a.instance_ in
      activate_strategy-IsHealthy name i.parameters i.instruments i.capital x.0 x.1
        (deactivate_strategy-IsHealthy w name e r (λ j _. h j))

  run_call-IsHealthy :
      (c : EngineCall V F) (e : StrategyEngine S V F) (r : R)
      → IsHealthy e
      → IsHealthy (run_call c (e, r)).0
  unfolding restart_strategy
  run_call-IsHealthy (activate name parameters instruments capital) e r h =
      activate_strategy-IsHealthy name parameters instruments capital e r h
  run_call-IsHealthy (deactivate name) e r h = deactivate_strategy-IsHealthy w name e r (λ j _. h j)
  run_call-IsHealthy (restart name) e r h = restart_with-IsHealthy name (lookup name e.active) e r h
  run_call-IsHealthy (signal name g) e r h =
      Keeps-IsHealthy e _ (process_signal-Keeps w g name e r) h
  run_call-IsHealthy (update response) e r h = on_order_update-IsHealthy w response e r h

  -- If every active strategy has raised fewer than five times on order updates since it was activated,
  -- then that is still so after any activations, deactivations, restarts, signals and order updates,
  -- in any order, and whatever the strategies emit or raise in them.
  pub run_calls-IsHealthy :
      (cs : List (EngineCall V F)) (e : StrategyEngine S V F) (r : R)
      → IsHealthy e
      → IsHealthy (run_calls cs (e, r)).0
  run_calls-IsHealthy [] e r h = h
  run_calls-IsHealthy (c ∷ cs) e r h =
      let x = run_call c (e, r) in run_calls-IsHealthy cs x.0 x.1 (run_call-IsHealthy c e r h)
