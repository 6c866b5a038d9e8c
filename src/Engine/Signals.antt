-- ===== src/Engine/Signals.antt =====
-- A signal on its way to the broker.
use nexa_trade.Prelude.{
  ◌≡◌, refl, sym, ◌∙◌, Bool-cases, inl, inr, Option, none, some, List, [], ◌∷◌, length, arith,
}
use mathlib.Core.Path.{subst}
use nexa_trade.Text.{Text, text_eq_iff}
use nexa_trade.Dict.{Dict, lookup, contains, lookup-insert}
use nexa_trade.Float.{Float}
use nexa_trade.Outcome.{Outcome, ok, raised}
use nexa_trade.Models.Order.{OrderRequest, OrderResponse}
use nexa_trade.Models.Signal.{StrategySignal}
use nexa_trade.Backtest.Strategy.{Reaction}
use nexa_trade.Risk.{approve_signal, count_block}
use nexa_trade.Risk.KillSwitch.{IsWorking, IsArmed, approve_signal-armed, publish-IsArmed}
use nexa_trade.Requests.{signal_to_order_request}
use nexa_trade.Engine.{
  Instance, Active, StrategyEngine, Outside, with_found, with_instance, count_order, placed,
  answered, place, process_signal, process_signals, after_method,
}

-- What no signal changes: who is active, the errors, and the registry.
pub record Keeps {S V F : Type 0} (e e' : StrategyEngine S V F) : Type 0 where
  pub error_counts : e'.error_counts ≡ e.error_counts
  pub registry : e'.registry ≡ e.registry
  pub active : (j : Text) → contains j e'.active ≡ contains j e.active

module _ {S V F : Type 0} where
  pub Keeps-refl : (e : StrategyEngine S V F) → Keeps e e
  Keeps-refl e = record { error_counts = refl; registry = refl; active = λ j. refl }

  pub Keeps-trans : (a b c : StrategyEngine S V F) → Keeps a b → Keeps b c → Keeps a c
  Keeps-trans a b c h k = record {
    error_counts = k.error_counts ∙ h.error_counts;
    registry = k.registry ∙ h.registry;
    active = λ j. k.active j ∙ h.active j;
  }

  with_found-contains :
      (name : Text) (change : Instance S V F → Instance S V F) (found : Option (Active S V F))
      → (active : Dict (Active S V F)) (j : Text) → lookup name active ≡ found
      → contains j (with_found name change found active) ≡ contains j active
  unfolding with_found
  with_found-contains name change none active j h = refl
  with_found-contains name change (some a) active j h = ground (
    arith,
    text_eq_iff name j,
    lookup-insert name j (record a { instance_ = change a.instance_ }) active,
  )

  -- A changed instance is active as before.
  instance-Keeps :
      (name : Text) (change : Instance S V F → Instance S V F) (e : StrategyEngine S V F)
      → Keeps e (record e { active = with_instance name change e.active })
  instance-Keeps name change e = record {
    error_counts = refl;
    registry = refl;
    active = λ j. with_found-contains name change (lookup name e.active) e.active j refl;
  }

module _ {R S V F : Type 0} ⦃f : Float F⦄ (w : Outside R F) where
  placed-Keeps :
      (o : OrderRequest F) (response : OrderResponse F) (g : StrategySignal F) (name : Text)
      → (e : StrategyEngine S V F) (r : R) → Keeps e (placed w o response g name (e, r)).0
  unfolding placed
  placed-Keeps o response g name e r = record {
    error_counts = refl;
    registry = refl;
    active = λ j. with_found-contains name count_order (lookup name e.active) e.active j refl;
  }

  answered-Keeps :
      (answer : Outcome (OrderResponse F)) (o : OrderRequest F) (g : StrategySignal F) (name : Text)
      → (e : StrategyEngine S V F) (r : R) → Keeps e (answered w answer o g name (e, r)).0
  unfolding answered
  answered-Keeps (raised x) o g name e r = Keeps-refl e
  answered-Keeps (ok response) o g name e r = placed-Keeps o response g name e r

  place-Keeps :
      (m : Outcome (Option (OrderRequest F))) (g : StrategySignal F) (name : Text)
      → (e : StrategyEngine S V F) (r : R) → Keeps e (place w m g name (e, r)).0
  unfolding place
  place-Keeps (raised x) g name e r = Keeps-refl e
  place-Keeps (ok none) g name e r = Keeps-refl e
  place-Keeps (ok (some o)) g name e r =
      answered-Keeps (w.place_order o r).0 o g name e (w.place_order o r).1

  pub process_signal-Keeps :
      (g : StrategySignal F) (name : Text) (e : StrategyEngine S V F) (r : R)
      → Keeps e (process_signal w g name (e, r)).0
  unfolding process_signal
  process_signal-Keeps g name e r =
      let (approved, m, r') = approve_signal w.services (w.context r) g e.risk_mgr r in
      let (order_id, r'') = w.new_order_id r' in
      let e' : StrategyEngine S V F = record e { risk_mgr = m } in
      let out = place-Keeps (signal_to_order_request (w.context r) g name order_id) g name e' r'' in
      elim (Bool-cases approved) [
        | inl h ↦ rw h (record {
          error_counts = out.error_counts;
          registry = out.registry;
          active = out.active;
        })
        | inr h ↦ rw h (record { error_counts = refl; registry = refl; active = λ j. refl })
      ]

  pub process_signals-Keeps :
      (gs : List (StrategySignal F)) (name : Text) (e : StrategyEngine S V F) (r : R)
      → Keeps e (process_signals w gs name (e, r)).0
  unfolding process_signals
  process_signals-Keeps [] name e r = Keeps-refl e
  process_signals-Keeps (g ∷ gs) name e r =
      let x = process_signal w g name (e, r) in
      Keeps-trans e x.0 _ (process_signal-Keeps g name e r) (process_signals-Keeps gs name x.0 x.1)

  pub after_method-Keeps :
      (name : Text) (reaction : Reaction (Instance S V F) F) (e : StrategyEngine S V F) (r : R)
      → Keeps e (after_method w name reaction (e, r)).0
  unfolding after_method
  after_method-Keeps name reaction e r =
      let e' : StrategyEngine S V F = record e {
        active = with_instance name (λ _. reaction.state) e.active;
      } in
      Keeps-trans e e' _ (instance-Keeps name (λ _. reaction.state) e)
        (process_signals-Keeps reaction.signals name e' r)

  -- What is left of signals that were blocked for these reasons.
  abbrev pub after_blocks : List Text → StrategyEngine S V F × R → StrategyEngine S V F × R
  after_blocks [] x = x
  after_blocks (reason ∷ reasons) (e, r) =
      after_blocks reasons
        (record e { risk_mgr = count_block reason e.risk_mgr }, w.services.publish reason r)

  module _ (works : IsWorking w.services) where
    process_signal-armed :
        (g : StrategySignal F) (name : Text) (e : StrategyEngine S V F) (r : R)
        → IsArmed w.services works (w.context r).broker_name r
        → (reason : Text) × (process_signal w g name (e, r) ≡ after_blocks (reason ∷ []) (e, r))
    unfolding process_signal
    process_signal-armed g name e r h =
        let (reason, k) = approve_signal-armed w.services works (w.context r) g e.risk_mgr r h in
        (reason, rw k refl)

    -- With a Redis that works, and the kill switch of the broker armed that is active throughout: of
    -- signals one after the other none reaches the broker or changes a strategy. Each is counted and
    -- published as blocked, for some reason, and that is all.
    pub process_signals-armed :
        (gs : List (StrategySignal F)) (name b : Text) (e : StrategyEngine S V F) (r : R)
        → ((r' : R) → (w.context r').broker_name ≡ b)
        → IsArmed w.services works b r
        → (reasons : List Text) × (length reasons ≡ length gs)
          × (process_signals w gs name (e, r) ≡ after_blocks reasons (e, r))
    unfolding process_signals
    process_signals-armed [] name b e r same h = ([], refl, refl)
    process_signals-armed (g ∷ gs) name b e r same h =
        let (reason, k) =
          process_signal-armed g name e r
            (subst (λ x. IsArmed w.services works x r) (sym (same r)) h) in
        let e' : StrategyEngine S V F = record e { risk_mgr = count_block reason e.risk_mgr } in
        let (reasons, n, rest) =
          process_signals-armed gs name b e' (w.services.publish reason r) same
            (publish-IsArmed w.services works b reason r h) in
        (reason ∷ reasons, ground (arith, n), rw k rest)
