-- ===== src/Lifecycle/Routing.antt =====
-- Orders and the strategies that they belong to.
use nexa_trade.Prelude.{◌≡◌, ◌≢◌, refl, sym, ◌∙◌, true, false, Option, none, some, [], ◌∷◌, arith}
use mathlib.Core.Path.{subst}
use nexa_trade.Text.{Text, text_eq, text_eq_iff, text_eq_refl}
use nexa_trade.Dict.{Dict, lookup, contains, lookup-insert_self, contains-erase}
use nexa_trade.Float.{Float}
use nexa_trade.Outcome.{ok}
use nexa_trade.Models.Order.{OrderRequest, OrderResponse}
use nexa_trade.Models.Signal.{StrategySignal}
use nexa_trade.Risk.{approve_signal}
use nexa_trade.Requests.{signal_to_order_request}
use nexa_trade.Engine.{
  Active, StrategyEngine, Outside, is_text, orphan, with_found, count_order, placed, answered,
  place, process_signal, after_method, remove_strategy, deactivate_found, deactivate_strategy,
}
use nexa_trade.Engine.Signals.{after_method-Keeps}
use nexa_trade.Lifecycle.{inform, route, on_order_update}

orphan_lem : (name id : Text) (orders : Dict Text) → lookup id (orphan name orders) ≢ some name
unfolding orphan lookup
orphan_lem name id [] h = cc
orphan_lem name id ((order_id, owner) ∷ orders) h =
    ground (arith, text_eq_iff owner name, text_eq_refl name, orphan_lem name id orders)

module _ {R S V F : Type 0} ⦃f : Float F⦄ (w : Outside R F) where
  remove_strategy_lem :
      (name : Text) (e : StrategyEngine S V F) (r : R)
      → let e' = (remove_strategy w name (e, r)).0 in
        (contains name e'.active ≡ false)
        × ((id : Text) → lookup id e'.order_strategy_map ≢ some name)
        × ((j : Text) → text_eq name j ≡ false → contains j e'.active ≡ contains j e.active)
        × (e'.error_counts ≡ e.error_counts)
  unfolding remove_strategy
  remove_strategy_lem name e r = (
    ground (arith, contains-erase name name e.active, text_eq_refl name),
    λ id. orphan_lem name id e.order_strategy_map,
    λ j h. ground (arith, contains-erase name j e.active),
    refl,
  )

  pub deactivate_found_lem :
      (name : Text) (found : Option (Active S V F)) (e : StrategyEngine S V F) (r : R)
      → lookup name e.active ≡ found
      → (deactivate_found w name found (e, r)).0 ≡ true
      → let e' = (deactivate_found w name found (e, r)).1.0 in
        (contains name e'.active ≡ false)
        × ((id : Text) → lookup id e'.order_strategy_map ≢ some name)
        × ((j : Text) → text_eq name j ≡ false → contains j e'.active ≡ contains j e.active)
        × (e'.error_counts ≡ e.error_counts)
  unfolding deactivate_found
  deactivate_found_lem name none e r h k = cc
  deactivate_found_lem name (some a) e r h k =
      let reaction = a.plugin.on_stop a.instance_ in
      let x = after_method w name reaction (e, r) in
      let keeps = after_method-Keeps w name reaction e r in
      let (gone, orders, others, errors) = remove_strategy_lem name x.0 x.1 in
      (gone, orders, λ j n. others j n ∙ keeps.active j, errors ∙ keeps.error_counts)

  -- After a strategy was deactivated, which says so, it is not active and no order is routed to it,
  -- those included that it placed while it stopped; every other strategy is active if it was.
  pub deactivate_strategy_lem :
      (name : Text) (e : StrategyEngine S V F) (r : R)
      → (deactivate_strategy w name (e, r)).0 ≡ true
      → let e' = (deactivate_strategy w name (e, r)).1.0 in
        (contains name e'.active ≡ false)
        × ((id : Text) → lookup id e'.order_strategy_map ≢ some name)
        × ((j : Text) → text_eq name j ≡ false → contains j e'.active ≡ contains j e.active)
        × (e'.error_counts ≡ e.error_counts)
  unfolding deactivate_strategy
  deactivate_strategy_lem name e r h = deactivate_found_lem name (lookup name e.active) e r refl h

  placed-active :
      (o : OrderRequest F) (response : OrderResponse F) (g : StrategySignal F) (name : Text)
      → (e : StrategyEngine S V F) (r : R) {a : Active S V F} → lookup name e.active ≡ some a
      → lookup name (placed w o response g name (e, r)).0.active
        ≡ some (record a { instance_ = count_order a.instance_ })
  unfolding placed with_found
  placed-active o response g name e r {a} h = rw h (lookup-insert_self name _ e.active)

  placed-order :
      (o : OrderRequest F) (response : OrderResponse F) (g : StrategySignal F) (name : Text)
      → (e : StrategyEngine S V F) (r : R) → is_text response.order_id ≡ true
      → lookup response.order_id (placed w o response g name (e, r)).0.order_strategy_map
        ≡ some name
  unfolding placed
  placed-order o response g name e r h =
      ground (arith, lookup-insert_self response.order_id name e.order_strategy_map)

  process_signal-placed :
      (g : StrategySignal F) (name : Text) (e : StrategyEngine S V F) (r : R)
      → {o : OrderRequest F} {response : OrderResponse F}
      → (approve_signal w.services (w.context r) g e.risk_mgr r).0 ≡ true
      → let (_, risk_mgr, r') = approve_signal w.services (w.context r) g e.risk_mgr r in
        let (order_id, r'') = w.new_order_id r' in
        signal_to_order_request (w.context r) g name order_id ≡ ok (some o)
        → (w.place_order o r'').0 ≡ ok response
        → process_signal w g name (e, r)
          ≡ placed w o response g name (record e { risk_mgr = risk_mgr }, (w.place_order o r'').1)
  unfolding process_signal place answered
  process_signal-placed g name e r approved request answer = rw (approved, request, answer) refl

  route_to :
      (name : Text) (u : OrderResponse F) (e : StrategyEngine S V F) (r : R)
      → is_text name ≡ true
      → route w (some name) u (e, r) ≡ inform w name (lookup name e.active) u (e, r)
  unfolding route
  route_to [] u e r h = cc
  route_to (c ∷ t) u e r h = refl

  pub on_order_update-routed :
      (name : Text) (u : OrderResponse F) (e : StrategyEngine S V F) (r : R) {a : Active S V F}
      → is_text name ≡ true
      → lookup u.order_id e.order_strategy_map ≡ some name
      → lookup name e.active ≡ some a
      → (on_order_update w u (e, r)).0 ≡ (inform w name (some a) u (e, w.update_order_status u r)).0
  unfolding on_order_update
  on_order_update-routed name u e r n owner active =
      rw (owner, route_to name u e (w.update_order_status u r) n, active) refl

  -- A signal of an active strategy with a name, which is approved and gives an order that the broker
  -- accepts under an identifier: every update of that order that comes next goes to the strategy, the
  -- order counted.
  pub process_signal-on_order_update :
      (g : StrategySignal F) (name : Text) (e : StrategyEngine S V F) (r : R)
      → {o : OrderRequest F} {response : OrderResponse F} {a : Active S V F} → is_text name ≡ true
      → lookup name e.active ≡ some a
      → (approve_signal w.services (w.context r) g e.risk_mgr r).0 ≡ true
      → let (_, risk_mgr, r') = approve_signal w.services (w.context r) g e.risk_mgr r in
        let (order_id, r'') = w.new_order_id r' in
        signal_to_order_request (w.context r) g name order_id ≡ ok (some o)
        → (w.place_order o r'').0 ≡ ok response
        → is_text response.order_id ≡ true
        → (u : OrderResponse F) → u.order_id ≡ response.order_id
        → let (e', r') = process_signal w g name (e, r) in
          (on_order_update w u (e', r')).0
          ≡ (inform w name
              (some (record a { instance_ = count_order a.instance_ }))
              u
              (e', w.update_order_status u r')).0
  process_signal-on_order_update g name e r {o} {response} {a} n active approved request answer id u
        same =
      let (_, m, r') = approve_signal w.services (w.context r) g e.risk_mgr r in
      let (order_id, r'') = w.new_order_id r' in
      let e' : StrategyEngine S V F = record e { risk_mgr = m } in
      let r3 = (w.place_order o r'').1 in
      let y = placed w o response g name (e', r3) in
      rw (process_signal-placed g name e r approved request answer) (
        on_order_update-routed name u y.0 y.1 n
          (subst (λ i. lookup i y.0.order_strategy_map ≡ some name) (sym same)
            (placed-order o response g name e' r3 id))
          (placed-active o response g name e' r3 active))
