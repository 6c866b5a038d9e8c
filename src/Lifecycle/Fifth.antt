-- ===== src/Lifecycle/Fifth.antt =====
-- What an order update leaves of the errors of the strategies, and of who is active.
use nexa_trade.Prelude.{
  ◌+◌, ◌≡◌, refl, ap, ◌∙◌, Bool, true, false, ◌&&◌, Bool-cases, inl, inr, Option, none, some,
  get_or, leb, if◌then◌else◌, arith,
}
use nexa_trade.Text.{Text, text_eq, text_eq_iff, text_eq_refl}
use nexa_trade.Dict.{lookup, contains}
use nexa_trade.Float.{Float}
use nexa_trade.Models.Order.{OrderResponse}
use nexa_trade.Engine.{
  Active, StrategyEngine, Outside, max_strategy_errors, is_text, after_method, deactivate_found,
  deactivate_strategy,
}
use nexa_trade.Engine.Signals.{Keeps, after_method-Keeps}
use nexa_trade.Lifecycle.{count_error, safe_error, handle_strategy_error, inform, on_order_update}
use nexa_trade.Lifecycle.Routing.{deactivate_found_lem, on_order_update-routed}
use nexa_trade.Lifecycle.Errors.{errors_of, safe_error-Keeps, count_error_lem}

module _ {R S V F : Type 0} ⦃f : Float F⦄ (w : Outside R F) where
  -- What a deactivation leaves, whether or not the strategy was active.
  deactivate_found-leaves :
      (name : Text) (found : Option (Active S V F)) (e : StrategyEngine S V F) (r : R)
      → lookup name e.active ≡ found
      → let e' = (deactivate_found w name found (e, r)).1.0 in
        (e'.error_counts ≡ e.error_counts)
        × ((j : Text)
            → contains j e'.active ≡ (if text_eq name j then false else contains j e.active))
  unfolding deactivate_found
  deactivate_found-leaves name none e r h = (refl, λ j. ground (arith, text_eq_iff name j, h))
  deactivate_found-leaves name (some a) e r h =
      let (gone, _, others, errors) = deactivate_found_lem w name (some a) e r h refl in
      (errors, λ j. ground (arith, text_eq_iff name j, others j, gone))

  deactivate_strategy-leaves :
      (name : Text) (e : StrategyEngine S V F) (r : R)
      → let e' = (deactivate_strategy w name (e, r)).1.0 in
        (e'.error_counts ≡ e.error_counts)
        × ((j : Text)
            → contains j e'.active ≡ (if text_eq name j then false else contains j e.active))
  unfolding deactivate_strategy
  deactivate_strategy-leaves name e r = deactivate_found-leaves name (lookup name e.active) e r refl

  -- Errors and activity after some step in which the strategy raised or did not.
  abbrev pub Leaves : Text → Bool → StrategyEngine S V F → StrategyEngine S V F → Type 0
  Leaves name raises e e' =
      ((j : Text)
        → errors_of j e'
          ≡ (if raises && text_eq name j then errors_of name e + 1 else errors_of j e))
      × ((j : Text)
          → contains j e'.active ≡ (
              if raises && text_eq name j && leb max_strategy_errors (errors_of name e + 1)
              then false
              else contains j e.active))

  told_lem :
      (name : Text) (e : StrategyEngine S V F) (r : R) (j : Text)
      → let told = (safe_error w name (lookup name e.active) (count_error name e, r)).0 in
        (errors_of j told ≡ (if text_eq name j then errors_of name e + 1 else errors_of j e))
        × (contains j told.active ≡ contains j e.active)
  unfolding count_error
  told_lem name e r j =
      let keeps = safe_error-Keeps w name (lookup name e.active) (count_error name e) r in
      (
        ap (λ d. get_or (lookup j d) 0) keeps.error_counts ∙ count_error_lem name j e,
        keeps.active j,
      )

  counted_lem :
      (name : Text) (e : StrategyEngine S V F)
      → errors_of name (count_error name e) ≡ errors_of name e + 1
  counted_lem name e = ground (arith, count_error_lem name name e, text_eq_refl name)

  handle_strategy_error-Leaves :
      (name : Text) (e : StrategyEngine S V F) (r : R)
      → Leaves name true e (handle_strategy_error w name (e, r)).0
  unfolding handle_strategy_error
  handle_strategy_error-Leaves name e r =
      let told = safe_error w name (lookup name e.active) (count_error name e, r) in
      let before = told_lem name e r in
      let (errors, active) = deactivate_strategy-leaves name told.0 told.1 in
      elim (Bool-cases (leb max_strategy_errors (errors_of name e + 1))) [
        | inl many ↦
            rw (counted_lem name e, many)
              (
                λ j. ap (λ d. get_or (lookup j d) 0) errors ∙ (before j).0,
                λ j. ground (arith, active j, (before j).1),
              )
        | inr few ↦
            rw (counted_lem name e, few) (λ j. (before j).0, λ j. ground (arith, (before j).1))
      ]

  Leaves-Keeps :
      (name : Text) (raises : Bool) (e e' e'' : StrategyEngine S V F)
      → Keeps e e'
      → Leaves name raises e' e''
      → Leaves name raises e e''
  Leaves-Keeps name raises e e' e'' k (errors, active) =
      let same : (j : Text) → errors_of j e' ≡ errors_of j e =
        λ j. ap (λ d. get_or (lookup j d) 0) k.error_counts in
      (
        λ j. ground (arith, errors j, same j, same name),
        λ j. ground (arith, active j, same name, k.active j),
      )

  Leaves-quiet : (name : Text) (e : StrategyEngine S V F) → Leaves name false e e
  Leaves-quiet name e = (λ j. refl, λ j. refl)

  inform_by :
      (name : Text) (raises : Bool) (e informed : StrategyEngine S V F) (r : R)
      → Keeps e informed
      → Leaves name raises e
          (if raises then handle_strategy_error w name (informed, r) else (informed, r)).0
  inform_by name true e informed r k =
      Leaves-Keeps name true e informed (handle_strategy_error w name (informed, r)).0 k
        (handle_strategy_error-Leaves name informed r)
  inform_by name false e informed r k =
      Leaves-Keeps name false e informed informed k (Leaves-quiet name informed)

  inform_lem :
      (name : Text) (a : Active S V F) (u : OrderResponse F) (e : StrategyEngine S V F) (r : R)
      → Leaves name
          (a.plugin.on_order_update u a.instance_).has_raised
          e
          (inform w name (some a) u (e, r)).0
  unfolding inform
  inform_lem name a u e r =
      let reaction = a.plugin.on_order_update u a.instance_ in
      let informed = after_method w name reaction (e, r) in
      inform_by name reaction.has_raised e informed.0 informed.1
        (after_method-Keeps w name reaction e r)

  -- An update of an order of an active strategy with a name: if the strategy raises on it, its errors
  -- are one more, and with the fifth since it was activated it is active no longer, consecutive or
  -- not; if it does not raise, its errors stay as they are. No other strategy is touched.
  pub on_order_update-Leaves :
      (name : Text) (a : Active S V F) (u : OrderResponse F) (e : StrategyEngine S V F) (r : R)
      → is_text name ≡ true
      → lookup u.order_id e.order_strategy_map ≡ some name
      → lookup name e.active ≡ some a
      → Leaves name
          (a.plugin.on_order_update u a.instance_).has_raised
          e
          (on_order_update w u (e, r)).0
  on_order_update-Leaves name a u e r n owner active =
      rw (on_order_update-routed w name u e r n owner active)
        (inform_lem name a u e (w.update_order_status u r))
