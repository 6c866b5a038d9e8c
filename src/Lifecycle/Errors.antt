-- ===== src/Lifecycle/Errors.antt =====
-- The errors of strategies: who is active has made fewer than five.
use nexa_trade.Prelude.{
  ℕ, ◌+◌, ◌≡◌, refl, sym, ◌∙◌, true, false, Bool-cases, inl, inr, Option, none, some, [], ◌∷◌,
  get_or, leb, ltb, if-holds, if◌then◌else◌, arith,
}
use mathlib.Core.Path.{subst}
use nexa_trade.Text.{Text, text_eq, text_eq_iff, text_eq_refl}
use nexa_trade.Dict.{lookup, contains, lookup-insert}
use nexa_trade.Float.{Float}
use nexa_trade.Models.Order.{OrderResponse}
use nexa_trade.Engine.{
  Active, StrategyEngine, Outside, max_strategy_errors, after_method, deactivate_found,
  deactivate_strategy,
}
use nexa_trade.Engine.Signals.{Keeps, after_method-Keeps, Keeps-refl}
use nexa_trade.Lifecycle.{
  count_error, safe_error, handle_strategy_error, inform, route, on_order_update,
}
use nexa_trade.Lifecycle.Routing.{deactivate_found_lem}

module _ {S V F : Type 0} where
  abbrev pub errors_of : Text → StrategyEngine S V F → ℕ
  errors_of name e = get_or (lookup name e.error_counts) 0

  -- Every active strategy has made fewer than five errors since it was activated.
  abbrev pub IsHealthy : StrategyEngine S V F → Type 0
  IsHealthy e =
      (j : Text) → contains j e.active ≡ true → ltb (errors_of j e) max_strategy_errors ≡ true

  pub Keeps-IsHealthy : (e e' : StrategyEngine S V F) → Keeps e e' → IsHealthy e → IsHealthy e'
  Keeps-IsHealthy e e' k h j active =
      subst (λ d. ltb (get_or (lookup j d) 0) max_strategy_errors ≡ true) (sym k.error_counts)
        (h j (sym (k.active j) ∙ active))

  -- All are healthy but perhaps one.
  abbrev HealthyBut : Text → StrategyEngine S V F → Type 0
  HealthyBut name e =
      (j : Text)
      → text_eq name j ≡ false
      → contains j e.active ≡ true
      → ltb (errors_of j e) max_strategy_errors ≡ true

  Keeps-HealthyBut :
      (name : Text) (e e' : StrategyEngine S V F)
      → Keeps e e'
      → HealthyBut name e
      → HealthyBut name e'
  Keeps-HealthyBut name e e' k h j other active =
      subst (λ d. ltb (get_or (lookup j d) 0) max_strategy_errors ≡ true) (sym k.error_counts)
        (h j other (sym (k.active j) ∙ active))

  pub count_error_lem :
      (name j : Text) (e : StrategyEngine S V F)
      → errors_of j (count_error name e)
        ≡ (if text_eq name j then errors_of name e + 1 else errors_of j e)
  unfolding count_error
  count_error_lem name j e =
      ground (arith, lookup-insert name j (errors_of name e + 1) e.error_counts)

  count_error-HealthyBut :
      (name : Text) (e : StrategyEngine S V F) → IsHealthy e → HealthyBut name (count_error name e)
  unfolding count_error
  count_error-HealthyBut name e h j other active =
      ground (arith, h j active, lookup-insert name j (errors_of name e + 1) e.error_counts)

  count_error-IsHealthy :
      (name : Text) (e : StrategyEngine S V F)
      → leb max_strategy_errors (errors_of name (count_error name e)) ≡ false
      → IsHealthy e
      → IsHealthy (count_error name e)
  unfolding count_error
  count_error-IsHealthy name e few h j active = ground (
    arith,
    h j active,
    text_eq_iff name j,
    text_eq_refl name,
    lookup-insert name j (errors_of name e + 1) e.error_counts,
    lookup-insert name name (errors_of name e + 1) e.error_counts,
  )

  -- A strategy that was alone in having made five errors is gone.
  removed-IsHealthy :
      (name : Text) (e e' : StrategyEngine S V F)
      → HealthyBut name e
      → contains name e'.active ≡ false
      → ((j : Text) → text_eq name j ≡ false → contains j e'.active ≡ contains j e.active)
      → e'.error_counts ≡ e.error_counts
      → IsHealthy e'
  removed-IsHealthy name e e' h gone others errors j active = elim (Bool-cases (text_eq name j)) [
    | inl same ↦ ground (arith, text_eq_iff name j)
    | inr other ↦
        subst (λ d. ltb (get_or (lookup j d) 0) max_strategy_errors ≡ true) (sym errors)
          (h j other (sym (others j other) ∙ active))
  ]

module _ {R S V F : Type 0} ⦃f : Float F⦄ (w : Outside R F) where
  pub safe_error-Keeps :
      (name : Text) (found : Option (Active S V F)) (e : StrategyEngine S V F) (r : R)
      → Keeps e (safe_error w name found (e, r)).0
  unfolding safe_error
  safe_error-Keeps name none e r = Keeps-refl e
  safe_error-Keeps name (some a) e r = after_method-Keeps w name (a.plugin.on_error a.instance_) e r

  deactivate_found-IsHealthy :
      (name : Text) (found : Option (Active S V F)) (e : StrategyEngine S V F) (r : R)
      → lookup name e.active ≡ found
      → HealthyBut name e
      → IsHealthy (deactivate_found w name found (e, r)).1.0
  unfolding deactivate_found
  deactivate_found-IsHealthy name none e r at h =
      removed-IsHealthy name e e h (ground (arith, at)) (λ j _. refl) refl
  deactivate_found-IsHealthy name (some a) e r at h =
      let e' = (deactivate_found w name (some a) (e, r)).1.0 in
      let (gone, _, others, errors) = deactivate_found_lem w name (some a) e r at refl in
      removed-IsHealthy name e e' h gone others errors

  pub deactivate_strategy-IsHealthy :
      (name : Text) (e : StrategyEngine S V F) (r : R)
      → HealthyBut name e
      → IsHealthy (deactivate_strategy w name (e, r)).1.0
  unfolding deactivate_strategy
  deactivate_strategy-IsHealthy name e r h =
      deactivate_found-IsHealthy name (lookup name e.active) e r refl h

  handle_strategy_error-IsHealthy :
      (name : Text) (e : StrategyEngine S V F) (r : R)
      → IsHealthy e
      → IsHealthy (handle_strategy_error w name (e, r)).0
  unfolding handle_strategy_error
  handle_strategy_error-IsHealthy name e r h =
      let counted = count_error name e in
      let told = safe_error w name (lookup name e.active) (counted, r) in
      let keeps = safe_error-Keeps name (lookup name e.active) counted r in
      elim (Bool-cases (leb max_strategy_errors (errors_of name counted))) [
        | inl many ↦ rw many (
            deactivate_strategy-IsHealthy name told.0 told.1
              (Keeps-HealthyBut name counted told.0 keeps (count_error-HealthyBut name e h)))
        | inr few ↦
            rw few (Keeps-IsHealthy counted told.0 keeps (count_error-IsHealthy name e few h))
      ]

  inform-IsHealthy :
      (name : Text) (found : Option (Active S V F)) (u : OrderResponse F)
      → (e : StrategyEngine S V F) (r : R) → IsHealthy e
      → IsHealthy (inform w name found u (e, r)).0
  unfolding inform
  inform-IsHealthy name none u e r h = h
  inform-IsHealthy name (some a) u e r h =
      let reaction = a.plugin.on_order_update u a.instance_ in
      let informed = after_method w name reaction (e, r) in
      let still = Keeps-IsHealthy e informed.0 (after_method-Keeps w name reaction e r) h in
      if-holds (λ (x : StrategyEngine S V F × R). IsHealthy x.0) reaction.has_raised
        (handle_strategy_error w name informed) informed
        (handle_strategy_error-IsHealthy name informed.0 informed.1 still) still

  route-IsHealthy :
      (owner : Option Text) (u : OrderResponse F) (e : StrategyEngine S V F) (r : R)
      → IsHealthy e
      → IsHealthy (route w owner u (e, r)).0
  unfolding route
  route-IsHealthy none u e r h = h
  route-IsHealthy (some []) u e r h = h
  route-IsHealthy (some (c ∷ t)) u e r h =
      inform-IsHealthy (c ∷ t) (lookup (c ∷ t) e.active) u e r h

  pub on_order_update-IsHealthy :
      (u : OrderResponse F) (e : StrategyEngine S V F) (r : R)
      → IsHealthy e
      → IsHealthy (on_order_update w u (e, r)).0
  unfolding on_order_update
  on_order_update-IsHealthy u e r h =
      route-IsHealthy (lookup u.order_id e.order_strategy_map) u e (w.update_order_status u r) h
